-- ===== src/Store/Accounts.antt =====
-- The accounts and their keys in internal/store/sqlite.go.
use mathlib.Core.Option
use slashclaw.Prelude.{
  String, Bool, true, false, not, ◌&&◌, ◌||◌, Option, none, some, List, [], ◌∷◌, ◌++◌, map, ◌==◌,
  first, select, update, any, if◌then◌else◌,
}
use slashclaw.Env.{Env}
use slashclaw.Exec.{Exec, Result, ok, err, pure, now, new_uuid, ◌>>=◌, ◌>>◌}
use slashclaw.Store.Models.{Account, AccountKey, is_zero}
use slashclaw.Store.Rows.{AccountRow, KeyRow, Db}
use slashclaw.Store.Sql.{Error, constraint, no_rows, query, execute, null_string, string_of}

unfoldable pub account_row : Account → AccountRow
account_row account = record {
  id = account.id;
  display_name = account.display_name;
  bio = null_string account.bio;
  homepage_url = null_string account.homepage_url;
  created_at = account.created_at;
}

-- the scan in `GetAccount`
unfoldable pub scan_account : AccountRow → Account
scan_account row = record {
  id = row.id;
  display_name = row.display_name;
  bio = string_of row.bio;
  homepage_url = string_of row.homepage_url;
  created_at = row.created_at;
}

-- the row that `CreateAccountKey` inserts: `revoked_at` is NULL whatever the struct says
unfoldable pub key_row : AccountKey → KeyRow
key_row key = record {
  id = key.id;
  account_id = key.account_id;
  algorithm = key.algorithm;
  public_key = key.public_key;
  created_at = key.created_at;
  revoked_at = none;
}

-- `scanAccountKey`
unfoldable pub scan_account_key : KeyRow → AccountKey
scan_account_key row = record {
  id = row.id;
  account_id = row.account_id;
  algorithm = row.algorithm;
  public_key = row.public_key;
  created_at = row.created_at;
  revoked_at = row.revoked_at;
}

abbrev pub is_account : String → AccountRow → Bool
is_account id row = row.id == id

abbrev pub is_key : String → KeyRow → Bool
is_key id row = row.id == id

-- the columns of UNIQUE(algorithm, public_key)
abbrev pub has_public_key : String → String → KeyRow → Bool
has_public_key alg public_key row = row.algorithm == alg && row.public_key == public_key

abbrev pub is_active : KeyRow → Bool
is_active row = elim row.revoked_at [ none ↦ true | some t ↦ false ]

abbrev pub is_active_key : String → String → KeyRow → Bool
is_active_key alg public_key row = has_public_key alg public_key row && is_active row

unfoldable pub insert_account : AccountRow → Db → Result Error Db
insert_account row db =
    if any (is_account row.id) db.accounts
    then err constraint
    else ok (record db { accounts = db.accounts ++ row ∷ [] })

-- the insertion, with the primary key, the unique index and the foreign key
unfoldable pub insert_key : KeyRow → Db → Result Error Db
insert_key row db =
    if any (is_key row.id) db.account_keys
      || any (has_public_key row.algorithm row.public_key) db.account_keys
      || not (any (is_account row.account_id) db.accounts)
    then err constraint
    else ok (record db { account_keys = db.account_keys ++ row ∷ [] })

-- `QueryRow(…).Scan`: no row is the error `sql.ErrNoRows`
abbrev pub row_or_err : {A : Type 0} → Option A → Result Error A
row_or_err none = err no_rows
row_or_err (some a) = ok a

module _ (env : Env) where
  unfoldable pub create_account : Account → Exec Error Account
  unfolding execute insert_account account_row
  create_account account = do
    id ← if account.id == "" then new_uuid env else pure account.id
    created ← if is_zero account.created_at then now env else pure account.created_at
    let saved = record account { id = id; created_at = created }
    execute env (insert_account (account_row saved))
    pure saved

  -- no test for `sql.ErrNoRows`: a missing account is an error
  unfoldable pub get_account : String → Exec Error Account
  unfolding query scan_account
  get_account id =
      query env
        λ db. row_or_err (Option.map scan_account (first (select (is_account id) db.accounts)))

  unfoldable pub create_account_key : AccountKey → Exec Error AccountKey
  unfolding execute insert_key key_row
  create_account_key key = do
    id ← if key.id == "" then new_uuid env else pure key.id
    created ← if is_zero key.created_at then now env else pure key.created_at
    let saved = record key { id = id; created_at = created }
    execute env (insert_key (key_row saved))
    pure saved

  unfoldable pub get_account_key : String → Exec Error AccountKey
  unfolding query scan_account_key
  get_account_key id =
      query env
        λ db. row_or_err (Option.map scan_account_key (first (select (is_key id) db.account_keys)))

  unfoldable pub get_account_key_by_public_key : String → String → Exec Error (Option AccountKey)
  unfolding query scan_account_key
  get_account_key_by_public_key alg public_key = query env λ db.
      ok (
        Option.map scan_account_key (first (select (is_active_key alg public_key) db.account_keys)))

  unfoldable pub list_account_keys : String → Exec Error (List AccountKey)
  unfolding query scan_account_key
  list_account_keys account =
      query env
        λ db. ok (map scan_account_key (select (λ r. r.account_id == account) db.account_keys))

  unfoldable pub revoke_account_key : String → Exec Error Unit
  unfolding execute
  revoke_account_key id = do
    time ← now env
    execute env λ db. ok (record db {
      account_keys = update (is_key id) (λ r. record r { revoked_at = some time }) db.account_keys;
    })
