-- ===== src/Api/Keys.antt =====
-- What `CreateAccount` and `AddAccountKey` share: the check of a signature, and the row of a key.
use slashclaw.Prelude.{
  String, Bool, false, true, not, ◌||◌, none, List, [], ◌∷◌, ◌++◌, ◌≡◌, refl, sym, any, arith, inl,
  inr, ◌∙◌, ℤ,
}
use slashclaw.Env.{Env}
use slashclaw.Env.Laws.{IsUp}
use slashclaw.Exec.{ok, on_err}
use slashclaw.Exec.Keeps.{keeps_rules}
use slashclaw.Exec.Triple.{Triple, Triple-pure, Triple-bind, Triple-on_err, Triple-post}
use slashclaw.Exec.Steps.{Triple-skip}
use slashclaw.Auth.{Service, verify_and_create_token}
use slashclaw.Auth.Redeem.{Redeemed}
use slashclaw.Auth.Issue.{Issued, verify_and_create_token-Issued}
use slashclaw.Store.Models.{Token, AccountKey}
use slashclaw.Store.Rows.{KeyRow, Db}
use slashclaw.Store.Sql.{Error}
use slashclaw.Store.Frames.{SameContent}
use slashclaw.Store.Triples.{Triple-execute, inserted}
use slashclaw.Store.Accounts.{
  is_account, is_key, has_public_key, key_row, insert_key, create_account_key,
}
use slashclaw.Api.Http.{Response}

-- Only challenges and tokens differ.
pub record SameRegister (db db' : Db) : Type 0 where
  pub accounts : db'.accounts ≡ db.accounts
  pub account_keys : db'.account_keys ≡ db.account_keys
  pub content : SameContent db db'

-- The agent has signed a stored challenge with the key; the challenge is gone and a token is there.
pub record Verified (env : Env) (agent alg public_key text signature : String) (db db' : Db)
    : Type 0 where
  pub between : Db
  pub token : Token
  pub redeemed : Redeemed env agent alg public_key text signature db between
  pub issued : Issued agent token between db'

-- One active key for the account is appended; no stored key, revoked or not, was the same.
pub record KeyAdded (account alg public_key : String) (row : KeyRow) (db db' : Db) : Type 0 where
  pub is_account_id : row.account_id ≡ account
  pub is_algorithm : row.algorithm ≡ alg
  pub is_public_key : row.public_key ≡ public_key
  pub is_active : row.revoked_at ≡ none
  pub is_fresh : any (has_public_key alg public_key) db.account_keys ≡ false
  pub is_owned : any (is_account account) db.accounts ≡ true
  pub stored : db' ≡ record db { account_keys = db.account_keys ++ row ∷ [] }

abbrev same_register : (db : Db) → SameRegister db db
same_register db = record {
  accounts = refl;
  account_keys = refl;
  content = record { stories = refl; comments = refl; votes = refl };
}

pub unchanged : (db d : Db) → d ≡ db → SameRegister db d
unchanged db d h = rw h (same_register db)

Redeemed-SameRegister :
    {env : Env} {agent alg public_key text signature : String} {db db' : Db}
    → Redeemed env agent alg public_key text signature db db'
    → SameRegister db db'
Redeemed-SameRegister {db} {db'} h = rw h.removed (record {
  accounts = refl;
  account_keys = refl;
  content = record { stories = refl; comments = refl; votes = refl };
})

Verified-SameRegister :
    {env : Env} {agent alg public_key text signature : String} {db db' : Db}
    → Verified env agent alg public_key text signature db db'
    → SameRegister db db'
Verified-SameRegister h =
    let s = Redeemed-SameRegister h.redeemed in
    rw h.issued.stored (record {
      accounts = s.accounts;
      account_keys = s.account_keys;
      content = record {
        stories = s.content.stories;
        comments = s.content.comments;
        votes = s.content.votes;
      };
    })

pub checked :
    {env : Env} {agent alg public_key text signature : String} {db between : Db}
    → Verified env agent alg public_key text signature db between
    → (d : Db) → d ≡ between
    → SameRegister db d
checked v d h = rw h (Verified-SameRegister v)

none_same :
    (id alg public_key : String) (keys : List KeyRow) (owned : Bool)
    → (any (is_key id) keys || any (has_public_key alg public_key) keys || not owned) ≡ false
    → (any (has_public_key alg public_key) keys ≡ false) × (owned ≡ true)
none_same id alg public_key keys owned h = (ground arith, ground arith)

module _ (env : Env) (up : IsUp env) (db : Db) where
  pub verify-Verified :
      (s : Service) (f : Error → Response) (agent alg public_key text signature : String)
      → Triple
          (λ d. d ≡ db)
          (on_err f (verify_and_create_token env s agent alg public_key text signature))
          (λ _ d. Verified env agent alg public_key text signature db d)
          (λ _ d. SameRegister db d)
  verify-Verified s f agent alg public_key text signature = Triple-on_err _ _ (
      Triple-post _ _
        (λ token d h. record { between = h.0; token = token; redeemed = h.1; issued = h.2 })
        (λ e d h. elim h [
          | inl same ↦ rw same (same_register db)
          | inr redeemed ↦ Redeemed-SameRegister redeemed
        ])
        (verify_and_create_token-Issued env s agent alg public_key text signature db up))

  insert_key-KeyAdded :
      (k : AccountKey) (id : String) (created : ℤ) (d d' : Db)
      → d ≡ db
      → insert_key (key_row (record k { id = id; created_at = created })) d ≡ ok d'
      → KeyAdded k.account_id k.algorithm k.public_key
          (key_row (record k { id = id; created_at = created }))
          db
          d'
  unfolding insert_key key_row
  insert_key-KeyAdded k id created d d' h e =
      let (test, same) = inserted _ _ _ d' e in
      let (fresh, owned) =
        none_same id k.algorithm k.public_key db.account_keys
          (any (is_account k.account_id) db.accounts) (rw (← h) test) in
      record {
        is_account_id = refl;
        is_algorithm = refl;
        is_public_key = refl;
        is_active = refl;
        is_fresh = fresh;
        is_owned = owned;
        stored = sym same ∙ (rw h refl);
      }

  pub create_account_key-KeyAdded :
      (k : AccountKey)
      → Triple
          (λ d. d ≡ db)
          (create_account_key env k)
          (λ saved d.
            (row : KeyRow) × KeyAdded k.account_id k.algorithm k.public_key row db d
            × (saved.id ≡ row.id))
          (λ _ d. d ≡ db)
  unfolding create_account_key key_row
  create_account_key-KeyAdded k =
      Triple-skip (λ d h. h) (search keeps_rules)
        λ id.
          Triple-skip (λ d h. h) (search keeps_rules)
            λ created.
              Triple-bind
                (λ _ d.
                  KeyAdded k.account_id k.algorithm k.public_key
                    (key_row (record k { id = id; created_at = created })) db d)
                (Triple-execute env up _ _ _ _
                  (λ d d' h e. insert_key-KeyAdded k id created d d' h e) (λ d e h x. h))
                λ _. Triple-pure _ _ _ (λ d h. (_, h, refl))
