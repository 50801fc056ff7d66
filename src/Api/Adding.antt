-- ===== src/Api/Adding.antt =====
-- `AddAccountKey`: who may add which key to an account.
use slashclaw.Prelude.{String, Option, some, ◌≡◌, refl}
use slashclaw.Env.{Env}
use slashclaw.Env.Laws.{IsUp}
use slashclaw.Exec.Triple.{
  Triple, Triple-pure, Triple-bind, Triple-on_err, Triple-post, Triple-fact, Triple-from,
}
use slashclaw.Exec.Steps.{Triple-skip, Triple-given, Triple-test}
use slashclaw.Auth.{Service}
use slashclaw.Store.Models.{Token}
use slashclaw.Store.Rows.{KeyRow, Db}
use slashclaw.Store.Keeps.{read_rules}
use slashclaw.Api.Http.{Request, Response, add_key_response, write_json}
use slashclaw.Api.Accounts.{AddKeyRequest, add_account_key}
use slashclaw.Api.Revoking.{IsOwner, require_owner-IsOwner}
use slashclaw.Api.Keys.{
  SameRegister, unchanged, checked, Verified, KeyAdded, verify-Verified,
  create_account_key-KeyAdded,
}

-- The key of the request is added to the account of the path, and the answer has its id.
pub record Added (env : Env) (r : Request) (req : AddKeyRequest) (db : Db) (answer : Response)
    (db' : Db) : Type 0 where
  pub token : Token
  pub is_owner : IsOwner r db token
  pub between : Db
  pub verified :
      Verified env token.agent_id req.algorithm req.public_key req.challenge req.signature db
        between
  pub row : KeyRow
  pub key : KeyAdded r.path_id req.algorithm req.public_key row between db'
  pub is_answer : answer ≡ write_json 201 (add_key_response row.id)

added :
    {env : Env} {r : Request} {db : Db} (req : AddKeyRequest) (token : Token) (between : Db)
    (id : String) (d : Db)
    → IsOwner r db token
    → Verified env token.agent_id req.algorithm req.public_key req.challenge req.signature db
        between
    → (row : KeyRow) × KeyAdded r.path_id req.algorithm req.public_key row between d × (id ≡ row.id)
    → Added env r req db (write_json 201 (add_key_response id)) d
added req token between id d owner v (row, k, same) = record {
  token = token;
  is_owner = owner;
  between = between;
  verified = v;
  row = row;
  key = k;
  is_answer = rw same refl;
}

-- If no call of the database fails: when AddAccountKey reaches its end, the bearer token of the
-- request is stored and belongs to the account of the path, which is stored; the agent of that
-- token has signed a stored challenge with the new key, the challenge is gone; no stored key,
-- revoked or not, was the same, and one active key for the account is appended, whose id is in the
-- answer 201. With any early answer no account, no key and no content has changed.
pub add_account_key-Added :
    (env : Env) (s : Service) (db : Db) (r : Request) (body : Option AddKeyRequest)
    → IsUp env
    → Triple
        (λ d. d ≡ db)
        (add_account_key env s r body)
        (λ answer d. (req : AddKeyRequest) × (body ≡ some req) × Added env r req db answer d)
        (λ _ d. SameRegister db d)
unfolding add_account_key
add_account_key-Added env s db r body up = Triple-test (unchanged db) _ _ _ λ named.
    Triple-skip (unchanged db) (search read_rules) λ account.
      Triple-bind _
        (Triple-post _ _ (λ t d h. h) (λ e d h. unchanged db d h)
          (require_owner-IsOwner env s up db r))
        λ token. Triple-fact _ λ owner. Triple-given (unchanged db) _ _ _ λ req given.
          Triple-test (unchanged db) _ _ _ λ filled.
            Triple-bind _ (verify-Verified env up db s _ _ _ _ _ _) λ _. Triple-from λ between v.
              Triple-skip (checked v) (search read_rules) λ existing.
                Triple-test (checked v) _ _ _ λ new.
                  Triple-bind _
                    (Triple-on_err _ _ (
                      Triple-post _ _ (λ k d h. h) (λ e d h. checked v d h)
                        (create_account_key-KeyAdded env up between _)))
                    λ key.
                      Triple-pure _ _ _
                        (λ d h. (req, given, added req token between key.id d owner v h))
