-- ===== src/Api/Accounts.antt =====
-- internal/api/accounts.go
use slashclaw.Prelude.{
  String, Bool, true, false, not, ◌||◌, Option, none, some, ◌==◌, if◌then◌else◌,
}
use slashclaw.Env.{Env}
use slashclaw.Exec.{
  Exec, Result, ok, err, pure, fail, or_fail, fail_if, on_err, attempt, ◌>>=◌, ◌>>◌,
}
use slashclaw.Auth.{Service, verify_and_create_token}
use slashclaw.Store.Models.{Account, AccountKey, Token, zero_time}
use slashclaw.Store.Sql.{Error}
use slashclaw.Store.Accounts.{
  create_account as store_account, get_account, create_account_key, get_account_key,
  get_account_key_by_public_key, revoke_account_key,
}
use slashclaw.Api.Http.{
  Request, Response, aborted, Handler, ok_response, create_account_response, an_account,
  add_key_response, write_json, write_error, database_error, request_token,
}
use slashclaw.Api.Sessions.{verify_error}

pub record CreateAccountRequest : Type 0 where
  pub display_name : String
  pub bio : String
  pub homepage_url : String
  pub public_key : String
  pub algorithm : String
  pub signature : String
  pub challenge : String

pub record AddKeyRequest : Type 0 where
  pub public_key : String
  pub algorithm : String
  pub signature : String
  pub challenge : String

abbrev pub is_present : {A : Type 0} → Option A → Bool
is_present none = false
is_present (some a) = true

-- the header, or the display name
unfoldable pub claimed_agent : Request → CreateAccountRequest → String
claimed_agent r req = if r.x_agent_id == "" then req.display_name else r.x_agent_id

unfoldable pub add_key_error : Error → Response
add_key_error Error.panicked = aborted
add_key_error Error.invalid_signature = write_error 401 "invalid signature for new key"
add_key_error e = write_error 400 "verification failed"

-- `err != nil || token == nil`
unfoldable pub or_unauthorized : Result Error (Option Token) → Exec Response Token
or_unauthorized (ok (some token)) = pure token
or_unauthorized (ok none) = fail (write_error 401 "authentication required")
or_unauthorized (err e) = fail (write_error 401 "authentication required")

abbrev pub new_key : String → String → String → AccountKey
new_key account alg public_key = record {
  id = "";
  account_id = account;
  algorithm = alg;
  public_key = public_key;
  created_at = zero_time;
  revoked_at = none;
}

module _ (env : Env) (s : Service) where
  unfoldable pub create_account : Request → Option CreateAccountRequest → Handler
  unfolding claimed_agent verify_error
  create_account r body = do
    req ← or_fail body (write_error 400 "invalid JSON")
    fail_if (req.display_name == "") (write_error 400 "display_name is required")
    fail_if
        (req.public_key == "" || req.algorithm == "" || req.signature == "" || req.challenge == "")
        (write_error 400 "public_key, alg, signature, and challenge are required")
    on_err verify_error (
        verify_and_create_token env s (claimed_agent r req) req.algorithm req.public_key
          req.challenge req.signature)
    existing ←
        on_err database_error (get_account_key_by_public_key env req.algorithm req.public_key)
    fail_if (is_present existing) (write_error 409 "public key is already registered to an account")
    let account : Account = record {
      id = "";
      display_name = req.display_name;
      bio = req.bio;
      homepage_url = req.homepage_url;
      created_at = zero_time;
    }
    saved ← on_err (λ e. write_error 500 "failed to create account") (store_account env account)
    key ←
        on_err (λ e. write_error 500 "failed to create account key")
          (create_account_key env (new_key saved.id req.algorithm req.public_key))
    pure (write_json 201 (create_account_response saved.id key.id))

  -- `GetAccount` of the store never returns nil, so the answer 404 is out of reach
  unfoldable pub get_account_handler : Request → Handler
  get_account_handler r = do
    fail_if (r.path_id == "") (write_error 400 "account id required")
    account ← on_err database_error (get_account env r.path_id)
    pure (write_json 200 (an_account account))

  -- the token of the request, if it belongs to the account
  unfoldable pub require_owner : Request → Exec Response Token
  unfolding or_unauthorized request_token
  require_owner r = do
    outcome ← attempt (request_token env r)
    token ← or_unauthorized outcome
    fail_if (not (token.account_id == r.path_id))
        (write_error 403 "not authorized to modify this account")
    pure token

  unfoldable pub add_account_key : Request → Option AddKeyRequest → Handler
  unfolding require_owner add_key_error
  add_account_key r body = do
    fail_if (r.path_id == "") (write_error 400 "account id required")
    account ← on_err database_error (get_account env r.path_id)
    token ← require_owner r
    req ← or_fail body (write_error 400 "invalid JSON")
    fail_if
        (req.public_key == "" || req.algorithm == "" || req.signature == "" || req.challenge == "")
        (write_error 400 "public_key, alg, signature, and challenge are required")
    on_err add_key_error (
        verify_and_create_token env s token.agent_id req.algorithm req.public_key req.challenge
          req.signature)
    existing ←
        on_err database_error (get_account_key_by_public_key env req.algorithm req.public_key)
    fail_if (is_present existing) (write_error 409 "public key is already registered")
    key ←
        on_err (λ e. write_error 500 "failed to create account key")
          (create_account_key env (new_key r.path_id req.algorithm req.public_key))
    pure (write_json 201 (add_key_response key.id))

  -- the checks of the key to revoke; `GetAccountKey` of the store never returns nil either
  unfoldable pub check_revocable : Request → Token → AccountKey → Exec Response Unit
  check_revocable r token key = do
    fail_if (not (key.account_id == r.path_id))
        (write_error 403 "key does not belong to this account")
    fail_if (key.id == token.key_id) (write_error 400 "cannot revoke the key currently in use")

  unfoldable pub delete_account_key : Request → Handler
  unfolding require_owner check_revocable
  delete_account_key r = do
    fail_if (r.path_id == "" || r.path_key_id == "")
        (write_error 400 "account id and key id required")
    token ← require_owner r
    key ← on_err database_error (get_account_key env r.path_key_id)
    check_revocable r token key
    on_err (λ e. write_error 500 "failed to revoke key") (revoke_account_key env r.path_key_id)
    pure (write_json 200 ok_response)
