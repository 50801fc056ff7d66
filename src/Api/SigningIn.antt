-- ===== src/Api/SigningIn.antt =====
-- From a signed challenge to a request that is served: the token that an agent gets lets it
-- through.
use slashclaw.Prelude.{
  ◌+◌, String, some, true, false, ◌||◌, List, [], ◌∷◌, ◌++◌, ◌≡◌, refl, sym, ap, ◌∙◌, ◌==◌, eq_iff,
  ltb_ℤ, any, first, select, arith, IsIn, inl, inr, HasDistinct, HasDistinct-snoc,
}
use text.Mathlib.TextPositions.{eq_refl}
use slashclaw.Env.{Env}
use slashclaw.Env.Laws.{IsUp}
use slashclaw.Exec.{World, ok, ◌>>=◌}
use slashclaw.Store.Models.{Token}
use slashclaw.Store.Rows.{TokenRow}
use slashclaw.Store.Sql.{query}
use slashclaw.Store.Sessions.{is_live_token, to_seconds, token_row, scan_token, get_token}
use slashclaw.Auth.{Service, validate_token, verify_and_create_token}
use slashclaw.Auth.SignIn.{only_row, Signed, redeemed, Drawn, given, verify_and_create_token-given}
use slashclaw.Api.Http.{
  Request, Handler, bearer_token, request_token, with_token, require_auth, token_context,
}
use slashclaw.Api.Guards.{RunsAs}

abbrev pub text_of : TokenRow → String
text_of r = r.token

module _ (env : Env) (up : IsUp env) (next : Request → Handler) (r : Request) (w : World)
    (row : TokenRow) where
  found_token :
      IsIn row w.db.tokens
      → HasDistinct text_of w.db.tokens
      → row.token ≡ bearer_token r
      → ltb_ℤ (to_seconds (env.now w.step)) row.expires_at ≡ true
      → first (select (is_live_token (bearer_token r) (env.now w.step)) w.db.tokens) ≡ some row
  found_token i d bearer live =
      only_row text_of (is_live_token (bearer_token r) (env.now w.step)) row w.db.tokens
        (λ x q. ground (arith, eq_iff x.token (bearer_token r)) ∙ sym bearer)
        (rw (bearer, eq_refl (bearer_token r), live) refl) d i

  -- A stored token that has not expired lets the request through.
  require_auth-RunsAs :
      IsIn row w.db.tokens
      → HasDistinct text_of w.db.tokens
      → row.token ≡ bearer_token r
      → (bearer_token r == "") ≡ false
      → ltb_ℤ (to_seconds (env.now w.step)) row.expires_at ≡ true
      → RunsAs row next r w (require_auth env next r w)
  unfolding require_auth request_token validate_token get_token query with_token token_context
      scan_token ◌>>=◌
  require_auth-RunsAs i d bearer present live = record {
    start = record w { step = w.step + 1 + 1 };
    same_db = refl;
    same_buckets = refl;
    is_run = rw (present, up (w.step + 1), found_token i d bearer live) refl;
  }

IsIn-snoc : (x : TokenRow) (xs : List TokenRow) → IsIn x (xs ++ x ∷ [])
IsIn-snoc x [] = inl refl
IsIn-snoc x (y ∷ ys) = inr (IsIn-snoc x ys)

new_text :
    (t : Token) (rows : List TokenRow)
    → any (λ (r : TokenRow). r.id == t.id || r.token == t.token) rows ≡ false
    → any (λ (r : TokenRow). text_of r == t.token) rows ≡ false
new_text t [] h = refl
new_text t (r ∷ rs) h = ground (arith, new_text t rs)

-- If no call of the database fails and no two stored challenges and no two stored tokens have the
-- same text: an agent that signs a stored challenge of its own, which has not expired, gets a
-- token, provided that the random source works, the key is registered or has at least 16 bytes, and
-- the new token has an id and text that no stored one has. The row of the token is then stored, and
-- no two stored tokens have the same text. In any later state in which this row is stored, whatever
-- other tokens are, and no two tokens have the same text, until the token expires by the clock of
-- the database in whole seconds: a request that bears this token passes RequireAuth, and its handler
-- runs with that agent as its verified agent.
pub signed_challenge_serves :
    (env : Env) (s : Service) (agent alg public_key text signature : String) (w : World)
    → IsUp env
    → HasDistinct (λ (r : TokenRow). r.token) w.db.tokens
    → (h : Signed env agent alg public_key text signature w)
    → Drawn env s agent alg public_key (redeemed env agent alg public_key text signature w h)
    → let after = (verify_and_create_token env s agent alg public_key text signature w).1 in
      (token : Token) × ((verify_and_create_token env s agent alg public_key text signature w).0
        ≡ ok token)
      × (token.agent_id ≡ agent)
      × IsIn (token_row token) after.db.tokens
      × HasDistinct text_of after.db.tokens
      × ((next : Request → Handler) (r : Request) (later : World)
          → IsIn (token_row token) later.db.tokens
          → HasDistinct text_of later.db.tokens
          → bearer_token r ≡ token.token
          → (token.token == "") ≡ false
          → ltb_ℤ (to_seconds (env.now later.step)) (to_seconds token.expires_at) ≡ true
          → RunsAs (token_row token) next r later (require_auth env next r later))
unfolding token_row
signed_challenge_serves env s agent alg public_key text signature w up distinct h d =
    let start = redeemed env agent alg public_key text signature w h in
    let token = given env s agent alg public_key start d in
    let run = verify_and_create_token-given env s agent alg public_key text signature w up h d in
    let rows : (verify_and_create_token env s agent alg public_key text signature w).1.db.tokens
        ≡ w.db.tokens ++ token_row token ∷ [] =
      ap (λ o. o.1.db.tokens) run in
    (
      token,
      ap (λ o. o.0) run,
      refl,
      rw rows (IsIn-snoc (token_row token) w.db.tokens),
      rw rows (
          HasDistinct-snoc text_of w.db.tokens (token_row token)
            (new_text token w.db.tokens d.is_new) distinct),
      λ next r later stored apart bearer present live.
          require_auth-RunsAs env up next r later (token_row token) stored apart (sym bearer)
            (rw bearer present) live,
    )
