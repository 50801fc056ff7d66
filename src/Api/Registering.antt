-- ===== src/Api/Registering.antt =====
-- `CreateAccount`: what is registered, and what an early answer leaves behind.
use slashclaw.Prelude.{
  String, Option, some, [], ◌∷◌, ◌++◌, ◌≡◌, refl, sym, false, any, ℤ, ◌∙◌, subst, ◌⊎◌, inl, inr,
}
use slashclaw.Env.{Env}
use slashclaw.Env.Laws.{IsUp}
use slashclaw.Exec.{ok}
use slashclaw.Exec.Keeps.{keeps_rules}
use slashclaw.Exec.Triple.{
  Triple, Triple-pure, Triple-bind, Triple-on_err, Triple-post, Triple-from,
}
use slashclaw.Exec.Steps.{Triple-skip, Triple-given, Triple-test}
use slashclaw.Auth.{Service}
use slashclaw.Store.Models.{Account, zero_time}
use slashclaw.Store.Rows.{AccountRow, KeyRow, Db}
use slashclaw.Store.Sql.{null_string}
use slashclaw.Store.Keeps.{read_rules}
use slashclaw.Store.Triples.{Triple-execute, inserted}
use slashclaw.Store.Accounts.{
  is_account, account_row, insert_account, create_account as store_account,
}
use slashclaw.Api.Http.{Request, Response, create_account_response, write_json}
use slashclaw.Api.Accounts.{CreateAccountRequest, claimed_agent, create_account}
use slashclaw.Api.Keys.{
  SameRegister, unchanged, checked, Verified, KeyAdded, verify-Verified,
  create_account_key-KeyAdded,
}

-- The account of the request is appended under a new identifier.
pub record AccountAdded (req : CreateAccountRequest) (row : AccountRow) (db db' : Db) : Type 0 where
  pub is_name : row.display_name ≡ req.display_name
  pub is_bio : row.bio ≡ null_string req.bio
  pub is_homepage : row.homepage_url ≡ null_string req.homepage_url
  pub is_fresh : any (is_account row.id) db.accounts ≡ false
  pub stored : db' ≡ record db { accounts = db.accounts ++ row ∷ [] }

-- The account with its key, and the answer with the ids of both.
pub record Registered (env : Env) (r : Request) (req : CreateAccountRequest) (db : Db)
    (answer : Response) (db' : Db) : Type 0 where
  pub between : Db
  pub verified :
      Verified env
        (claimed_agent r req)
        req.algorithm
        req.public_key
        req.challenge
        req.signature
        db
        between
  pub account : AccountRow
  pub after : Db
  pub account_added : AccountAdded req account between after
  pub key : KeyRow
  pub key_added : KeyAdded account.id req.algorithm req.public_key key after db'
  pub is_answer : answer ≡ write_json 201 (create_account_response account.id key.id)

-- An account was appended, and its key was refused.
pub record Orphaned (req : CreateAccountRequest) (db db' : Db) : Type 0 where
  pub between : Db
  pub same : SameRegister db between
  pub account : AccountRow
  pub added : AccountAdded req account between db'

-- What an early answer leaves.
abbrev pub Left : Option CreateAccountRequest → Db → Db → Type 0
Left body db db' =
    SameRegister db db' ⊎ ((req : CreateAccountRequest) × (body ≡ some req) × Orphaned req db db')

abbrev draft : CreateAccountRequest → Account
draft req = record {
  id = "";
  display_name = req.display_name;
  bio = req.bio;
  homepage_url = req.homepage_url;
  created_at = zero_time;
}

module _ (env : Env) (up : IsUp env) (db : Db) (req : CreateAccountRequest) where
  insert_account-AccountAdded :
      (id : String) (created : ℤ) (d d' : Db)
      → d ≡ db
      → insert_account (account_row (record (draft req) { id = id; created_at = created })) d
        ≡ ok d'
      → AccountAdded req (account_row (record (draft req) { id = id; created_at = created })) db d'
  unfolding insert_account account_row
  insert_account-AccountAdded id created d d' h e =
      let (test, same) = inserted _ _ _ d' e in
      record {
        is_name = refl;
        is_bio = refl;
        is_homepage = refl;
        is_fresh = subst (λ y. any (is_account id) y.accounts ≡ false) h test;
        stored = sym same ∙ (rw h refl);
      }

  store_account-AccountAdded :
      Triple
        (λ d. d ≡ db)
        (store_account env (draft req))
        (λ saved d. (row : AccountRow) × AccountAdded req row db d × (saved.id ≡ row.id))
        (λ _ d. d ≡ db)
  unfolding store_account account_row
  store_account-AccountAdded =
      Triple-skip (λ d h. h) (search keeps_rules)
        λ id.
          Triple-skip (λ d h. h) (search keeps_rules)
            λ created.
              Triple-bind
                (λ _ d.
                  AccountAdded req
                    (account_row (record (draft req) { id = id; created_at = created })) db d)
                (Triple-execute env up _ _ _ _
                  (λ d d' h e. insert_account-AccountAdded id created d d' h e) (λ d e h x. h))
                λ _. Triple-pure _ _ _ (λ d h. (_, h, refl))

orphaned :
    {env : Env} {agent alg public_key text signature : String} {db between : Db}
    (req : CreateAccountRequest) (row : AccountRow) (after d : Db)
    → Verified env agent alg public_key text signature db between
    → AccountAdded req row between after
    → d ≡ after
    → Orphaned req db d
orphaned {between = between} req row after d v a h = record {
  between = between;
  same = checked v between refl;
  account = row;
  added = rw h a;
}

registered :
    {env : Env} {r : Request} {db : Db} (req : CreateAccountRequest) (between after : Db)
    (account : AccountRow) (id key_id : String) (d : Db)
    → Verified env
        (claimed_agent r req)
        req.algorithm
        req.public_key
        req.challenge
        req.signature
        db
        between
    → AccountAdded req account between after
    → id ≡ account.id
    → (key : KeyRow) × KeyAdded id req.algorithm req.public_key key after d × (key_id ≡ key.id)
    → Registered env r req db (write_json 201 (create_account_response id key_id)) d
registered req between after account id key_id d v a same (key, k, same_key) = record {
  between = between;
  verified = v;
  account = account;
  after = after;
  account_added = a;
  key = key;
  key_added = rw (← same) k;
  is_answer = rw (same, same_key) refl;
}

-- If no call of the database fails: when CreateAccount reaches its end, the claimed agent has
-- signed a stored challenge with the key, the challenge is gone; no stored key, revoked or not, was
-- the same, the account is appended under a new id and one active key for it, and the ids are in
-- the answer 201. With an early answer no account, no key and no content has changed, or the
-- account was appended and its key was not.
pub create_account-Registered :
    (env : Env) (s : Service) (db : Db) (r : Request) (body : Option CreateAccountRequest)
    → IsUp env
    → Triple
        (λ d. d ≡ db)
        (create_account env s r body)
        (λ answer d.
          (req : CreateAccountRequest) × (body ≡ some req) × Registered env r req db answer d)
        (λ _ d. Left body db d)
unfolding create_account
create_account-Registered env s db r body up =
    Triple-given (λ d h. inl (unchanged db d h)) _ _ _
      λ req given.
        Triple-test (λ d h. inl (unchanged db d h)) _ _ _
          λ named.
            Triple-test (λ d h. inl (unchanged db d h)) _ _ _
              λ filled.
                Triple-bind _
                  (Triple-post _ _ (λ t d h. h) (λ e d h. inl h)
                    (verify-Verified env up db s _ _ _ _ _ _))
                  λ _. Triple-from λ between v.
                    Triple-skip (λ d h. inl (checked v d h)) (search read_rules)
                      λ existing.
                        Triple-test (λ d h. inl (checked v d h)) _ _ _
                          λ new.
                            Triple-bind _
                              (Triple-on_err _ _ (
                                Triple-post _ _ (λ a d h. h) (λ e d h. inl (checked v d h))
                                  (store_account-AccountAdded env up between req)))
                              λ saved. Triple-from λ after a.
                                Triple-bind _
                                  (Triple-on_err _ _ (
                                    Triple-post _ _ (λ k d h. h)
                                      (λ e d h. inr (req, given, orphaned req a.0 after d v a.1 h))
                                      (create_account_key-KeyAdded env up after _)))
                                  λ key. Triple-pure _ _ _ (λ d h. (
                                    req,
                                    given,
                                    registered req between after a.0 saved.id key.id d v a.1 a.2 h,
                                  ))
