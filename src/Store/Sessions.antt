-- ===== src/Store/Sessions.antt =====
-- The challenges and the tokens in internal/store/sqlite.go. `expires_at` is stored as text of
-- whole seconds, and compared with `datetime('now')`, which is of whole seconds too.
use mathlib.Core.Option
use slashclaw.Prelude.{
  ◌/◌, String, Bool, not, ◌&&◌, ◌||◌, Option, [], ◌∷◌, ◌++◌, ℤ, pos, negsuc, scale, ltb_ℤ, ◌==◌,
  first, select, any, if◌then◌else◌,
}
use slashclaw.Env.{Env}
use slashclaw.Exec.{Exec, Result, ok, err, pure, now, new_uuid, ◌>>=◌, ◌>>◌}
use slashclaw.Store.Models.{Challenge, Token, second}
use slashclaw.Store.Rows.{ChallengeRow, TokenRow, Db}
use slashclaw.Store.Sql.{Error, constraint, query, execute, null_string, string_of}

-- `Format("2006-01-02 15:04:05")`: the fraction of the second is cut off (downwards)
unfoldable pub to_seconds : ℤ → ℤ
to_seconds (pos n) = pos (n / second)
to_seconds (negsuc n) = negsuc (n / second)

-- the instant that such a text is read back as
unfoldable pub from_seconds : ℤ → ℤ
from_seconds = scale second

unfoldable pub challenge_row : Challenge → ChallengeRow
unfolding to_seconds
challenge_row c = record {
  id = c.id;
  agent_id = c.agent_id;
  algorithm = c.algorithm;
  challenge = c.challenge;
  expires_at = to_seconds c.expires_at;
}

-- the scan in `GetChallenge`
unfoldable pub scan_challenge : ChallengeRow → Challenge
unfolding from_seconds
scan_challenge row = record {
  id = row.id;
  agent_id = row.agent_id;
  algorithm = row.algorithm;
  challenge = row.challenge;
  expires_at = from_seconds row.expires_at;
}

unfoldable pub token_row : Token → TokenRow
unfolding to_seconds
token_row t = record {
  id = t.id;
  account_id = null_string t.account_id;
  key_id = t.key_id;
  agent_id = t.agent_id;
  token = t.token;
  expires_at = to_seconds t.expires_at;
}

-- the scan in `GetToken`
unfoldable pub scan_token : TokenRow → Token
unfolding from_seconds
scan_token row = record {
  id = row.id;
  account_id = string_of row.account_id;
  key_id = row.key_id;
  agent_id = row.agent_id;
  token = row.token;
  expires_at = from_seconds row.expires_at;
}

abbrev pub is_challenge : String → ChallengeRow → Bool
is_challenge id row = row.id == id

-- `expires_at > datetime('now')`
abbrev pub is_live_challenge : String → ℤ → ChallengeRow → Bool
is_live_challenge challenge time row =
    row.challenge == challenge && ltb_ℤ (to_seconds time) row.expires_at

abbrev pub is_live_token : String → ℤ → TokenRow → Bool
is_live_token token time row = row.token == token && ltb_ℤ (to_seconds time) row.expires_at

unfoldable pub insert_challenge : ChallengeRow → Db → Result Error Db
insert_challenge row db =
    if any (λ r. r.id == row.id || r.challenge == row.challenge) db.challenges
    then err constraint
    else ok (record db { challenges = db.challenges ++ row ∷ [] })

unfoldable pub insert_token : TokenRow → Db → Result Error Db
insert_token row db =
    if any (λ r. r.id == row.id || r.token == row.token) db.tokens
    then err constraint
    else ok (record db { tokens = db.tokens ++ row ∷ [] })

module _ (env : Env) where
  unfoldable pub create_challenge : Challenge → Exec Error Challenge
  unfolding execute insert_challenge challenge_row
  create_challenge c = do
    id ← if c.id == "" then new_uuid env else pure c.id
    let saved = record c { id = id }
    execute env (insert_challenge (challenge_row saved))
    pure saved

  unfoldable pub get_challenge : String → Exec Error (Option Challenge)
  unfolding query scan_challenge to_seconds
  get_challenge challenge = do
    time ← now env
    query env λ db. ok (
        Option.map scan_challenge (first (select (is_live_challenge challenge time) db.challenges)))

  unfoldable pub delete_challenge : String → Exec Error Unit
  unfolding execute
  delete_challenge id =
      execute env
        λ db. ok (record db { challenges = select (λ r. not (is_challenge id r)) db.challenges })

  unfoldable pub create_token : Token → Exec Error Token
  unfolding execute insert_token token_row
  create_token t = do
    id ← if t.id == "" then new_uuid env else pure t.id
    let saved = record t { id = id }
    execute env (insert_token (token_row saved))
    pure saved

  unfoldable pub get_token : String → Exec Error (Option Token)
  unfolding query scan_token to_seconds
  get_token token = do
    time ← now env
    query env λ db. ok (Option.map scan_token (first (select (is_live_token token time) db.tokens)))

  unfoldable pub delete_expired_tokens : Exec Error Unit
  unfolding execute to_seconds
  delete_expired_tokens = do
    time ← now env
    execute env λ db.
        ok (record db {
          tokens = select (λ r. not (ltb_ℤ r.expires_at (to_seconds time))) db.tokens;
        })
