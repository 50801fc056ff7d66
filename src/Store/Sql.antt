-- ===== src/Store/Sql.antt =====
-- A call of the database: it fails as a whole, or it reads or changes the tables at once. Also the
-- conversions between Go values and columns in internal/store/sqlite.go.
use slashclaw.Prelude.{ℕ, ◌+◌, String, Bool, true, false, Option, none, some, ◌==◌, if◌then◌else◌}
use slashclaw.Env.{Env}
use slashclaw.Exec.{Exec, World, Result, ok, err, tick}
use slashclaw.Store.Rows.{Db}

-- The errors that the code returns or tells apart. `panicked` is no error value: it is a run-time
-- panic, which unwinds the handler.
pub data Error : Type 0 where
  unavailable constraint no_rows : Error
  invalid_algorithm invalid_public_key invalid_signature : Error
  challenge_expired challenge_not_found : Error
  not_implemented no_random panicked : Error

module _ (env : Env) where
  unfoldable pub query : {A : Type 0} → (Db → Result Error A) → Exec Error A
  query f w = if env.down w.step then (err unavailable, tick w) else (f w.db, tick w)

  -- how a write ends, if the database is down and if not
  unfoldable pub settle : Bool → Result Error Db → World → Result Error Unit × World
  settle true r w = (err unavailable, tick w)
  settle false (ok db) w = (ok tt, record w { step = w.step + 1; db = db })
  settle false (err e) w = (err e, tick w)

  unfoldable pub execute : (Db → Result Error Db) → Exec Error Unit
  unfolding settle
  execute f w = settle (env.down w.step) (f w.db) w

-- `nullString`: the empty text is stored as NULL
abbrev pub null_string : String → Option String
null_string s = if s == "" then none else some s

-- the field `String` of `sql.NullString`
abbrev pub string_of : Option String → String
string_of none = ""
string_of (some s) = s

-- `column = ?` is not true of NULL
abbrev pub sql_eq : Option String → String → Bool
sql_eq none s = false
sql_eq (some t) s = t == s

abbrev pub bool_to_int : Bool → ℕ
bool_to_int true = 1
bool_to_int false = 0
