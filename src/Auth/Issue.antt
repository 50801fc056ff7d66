-- ===== src/Auth/Issue.antt =====
-- The token that `VerifyAndCreateToken` stores.
use slashclaw.Prelude.{
  String, false, ◌||◌, List, [], ◌∷◌, ◌++◌, ◌≡◌, refl, sym, ◌==◌, any, arith, ◌⊎◌, inl, inr, ◌∙◌,
  subst,
}
use slashclaw.Env.{Env}
use slashclaw.Env.Laws.{IsUp}
use slashclaw.Exec.{ok}
use slashclaw.Exec.Keeps.{keeps_rules}
use slashclaw.Exec.Triple.{Triple, Triple-keep, Triple-pure, Triple-bind, Triple-post, Triple-from}
use slashclaw.Store.Models.{Token}
use slashclaw.Store.Rows.{TokenRow, Db}
use slashclaw.Store.Keeps.{read_rules}
use slashclaw.Store.Triples.{Triple-execute, inserted}
use slashclaw.Store.Sessions.{token_row, insert_token, create_token}
use slashclaw.Auth.{Service, random_text, issue, verify_and_create_token}
use slashclaw.Auth.Redeem.{Redeemed, redeem-Redeemed}

-- The token is for the agent, and its row is all that is new; no token had its text before.
pub record Issued (agent : String) (token : Token) (db db' : Db) : Type 0 where
  pub for_agent : token.agent_id ≡ agent
  pub is_fresh : any (λ r. r.token == token.token) db.tokens ≡ false
  pub stored : db' ≡ record db { tokens = db.tokens ++ token_row token ∷ [] }

any-or_false :
    (t : Token) (rows : List TokenRow)
    → any (λ r. r.id == t.id || r.token == t.token) rows ≡ false
    → any (λ r. r.token == t.token) rows ≡ false
any-or_false t [] h = refl
any-or_false t (r ∷ rs) h = ground (arith, any-or_false t rs)

module _ (env : Env) (up : IsUp env) where
  insert-Issued :
      (t : Token) (db d d' : Db)
      → d ≡ db
      → insert_token (token_row t) d ≡ ok d'
      → Issued t.agent_id t db d'
  unfolding insert_token token_row
  insert-Issued t db d d' h e =
      let (test, same) = inserted _ _ _ d' e in
      record {
        for_agent = refl;
        is_fresh =
            any-or_false t db.tokens
              (subst (λ x. any (λ r. r.id == t.id || r.token == t.token) x.tokens ≡ false) h test);
        stored = sym same ∙ (rw h refl);
      }

  create_token-Issued :
      (t : Token) (db : Db)
      → Triple (λ d. d ≡ db) (create_token env t) (λ u d. Issued t.agent_id u db d) (λ _ d. d ≡ db)
  unfolding create_token
  create_token-Issued t db =
      Triple-bind (λ _ d. d ≡ db) (Triple-keep _ (λ d h. h) (search keeps_rules))
        λ id.
          let saved : Token = record t { id = id } in
          Triple-bind (λ _ d. Issued t.agent_id saved db d)
            (Triple-execute env up _ _ _ _ (λ d d' h e. insert-Issued saved db d d' h e)
              (λ d e h x. h))
            λ _. Triple-pure _ _ _ (λ d h. h)

  issue-Issued :
      (s : Service) (agent alg public_key : String) (db : Db)
      → Triple
          (λ d. d ≡ db)
          (issue env s agent alg public_key)
          (λ u d. Issued agent u db d)
          (λ _ d. d ≡ db)
  unfolding issue random_text
  issue-Issued s agent alg public_key db =
      Triple-bind (λ _ d. d ≡ db) (Triple-keep _ (λ d h. h) (search read_rules depth 12))
        λ key.
          Triple-bind (λ _ d. d ≡ db) (Triple-keep _ (λ d h. h) (search keeps_rules depth 12))
            λ text.
              Triple-bind (λ _ d. d ≡ db) (Triple-keep _ (λ d h. h) (search keeps_rules))
                λ id.
                  Triple-bind (λ _ d. d ≡ db) (Triple-keep _ (λ d h. h) (search keeps_rules))
                    λ time.
                      Triple-bind (λ _ d. d ≡ db) (Triple-keep _ (λ d h. h) (search keeps_rules))
                        λ owner. create_token-Issued _ db

-- What VerifyAndCreateToken has done, if no call of the database fails: with a token, there was a
-- stored challenge with the given text, for this agent and algorithm, the signature of the text
-- under the given key was valid, the challenge is deleted, and one row for the token is appended,
-- with a text that no token had, for this agent; with an error, the tables are as before or differ
-- by the deletion of such a challenge alone.
pub verify_and_create_token-Issued :
    (env : Env) (s : Service) (agent alg public_key text signature : String) (db : Db)
    → IsUp env
    → Triple
        (λ d. d ≡ db)
        (verify_and_create_token env s agent alg public_key text signature)
        (λ token d.
          (mid : Db) × Redeemed env agent alg public_key text signature db mid
          × Issued agent token mid d)
        (λ _ d. (d ≡ db) ⊎ Redeemed env agent alg public_key text signature db d)
unfolding verify_and_create_token
verify_and_create_token-Issued env s agent alg public_key text signature db up =
    Triple-bind _
      (Triple-post _ _ (λ _ d h. h) (λ _ d h. inl h)
        (redeem-Redeemed env up db agent alg public_key text signature))
      λ _. Triple-from λ mid h.
        Triple-post _ _ (λ token d i. (mid, h, i))
          (λ e d same.
            inr (subst (Redeemed env agent alg public_key text signature db) (sym same) h))
          (issue-Issued env up s agent alg public_key mid)
