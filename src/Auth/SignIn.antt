-- ===== src/Auth/SignIn.antt =====
-- An agent that signs its challenge in time gets a token.
use mathlib.Core.Option
use slashclaw.Prelude.{
  ℕ, ◌+◌, String, Bool, true, false, ◌||◌, some, List, [], ◌∷◌, ◌++◌, ◌≡◌, refl, sym, ◌∙◌, ◌==◌,
  eq_iff, ◌+ℤ◌, ltb_ℤ, any, first, select, arith, IsIn, HasDistinct, any-IsIn, inl, inr, Bool-cases,
}
use text.Mathlib.TextPositions.{eq_refl}
use slashclaw.Env.{Env}
use slashclaw.Env.Laws.{IsUp}
use slashclaw.Exec.{World, ok, ◌>>=◌}
use slashclaw.Store.Models.{Token}
use slashclaw.Store.Rows.{ChallengeRow, TokenRow}
use slashclaw.Store.Sql.{query, execute}
use slashclaw.Store.Sessions.{
  is_live_challenge, scan_challenge, from_seconds, to_seconds, token_row, get_challenge,
  delete_challenge, create_token, insert_token,
}
use slashclaw.Store.Accounts.{get_account_key_by_public_key, scan_account_key, is_active_key}
use slashclaw.Auth.{Service, verify_signature, key_of, redeem, issue, verify_and_create_token}
use slashclaw.Auth.Redeem.{without}

-- A row that is the only one with its key is the one that a query finds.
pub only_row :
    {A : Type 0} (key : A → String) (p : A → Bool) (a : A) (xs : List A)
    → ((x : A) → p x ≡ true → key x ≡ key a)
    → p a ≡ true
    → HasDistinct key xs
    → IsIn a xs
    → first (select p xs) ≡ some a
only_row key p a [] k q d i = absurd i
only_row key p a (x ∷ xs) k q d (inl e) = rw (e, q) refl
only_row key p a (x ∷ xs) k q d (inr i) = elim (Bool-cases (p x)) [
  | inl here ↦
      let there = any-IsIn (λ r. key r == key x) a xs i (rw (k x here) (eq_refl (key a))) in
      absurd (ground (arith, d.0))
  | inr other ↦ rw other (only_row key p a xs k q d.1 i)
]

module _ (env : Env) (agent alg public_key text signature : String) (w : World) where
  -- A stored challenge of the agent that has not expired, and a valid signature of its text.
  pub record Signed : Type 0 where
    pub row : ChallengeRow
    pub stored : IsIn row w.db.challenges
    pub one_row : HasDistinct (λ (r : ChallengeRow). r.challenge) w.db.challenges
    pub is_text : row.challenge ≡ text
    pub is_agent : row.agent_id ≡ agent
    pub is_algorithm : row.algorithm ≡ alg
    pub is_live : ltb_ℤ (to_seconds (env.now w.step)) row.expires_at ≡ true
    pub in_time : ltb_ℤ (from_seconds row.expires_at) (env.now (w.step + 1 + 1)) ≡ false
    pub valid : verify_signature env alg public_key text signature ≡ ok true

  redeem_found :
      (h : Signed)
      → first (select (is_live_challenge text (env.now w.step)) w.db.challenges) ≡ some h.row
  redeem_found h =
      only_row (λ (r : ChallengeRow). r.challenge) (is_live_challenge text (env.now w.step)) h.row
        w.db.challenges (λ x q. (ground (arith, eq_iff x.challenge text)) ∙ sym h.is_text)
        (rw (h.is_text, eq_refl text, h.is_live) refl) h.one_row h.stored

  abbrev pub redeemed : Signed → World
  redeemed h = record w { step = w.step + 1 + 1 + 1 + 1; db = without h.row w.db }

  redeem-Signed :
      IsUp env
      → (h : Signed) → redeem env agent alg public_key text signature w ≡ (ok tt, redeemed h)
  unfolding redeem get_challenge delete_challenge query execute scan_challenge ◌>>=◌
  redeem-Signed up h =
      rw
        (
          up (w.step + 1),
          redeem_found h,
          h.in_time,
          h.is_agent,
          h.is_algorithm,
          eq_refl agent,
          eq_refl alg,
          h.valid,
          up (w.step + 1 + 1 + 1),
        )
        refl

module _ (env : Env) (s : Service) (agent alg public_key : String) (w : World) where
  -- What the rest draws: random bytes, an identifier, and the owner of the key; the token is new.
  pub record Drawn : Type 0 where
    pub bytes : List ℕ
    pub is_random : env.random (w.step + 1) ≡ some bytes
    pub owner : String × String
    pub is_owner :
        key_of public_key (
          Option.map scan_account_key
            (first (select (is_active_key alg public_key) w.db.account_keys)))
        ≡ ok owner
    pub has_id : (env.uuid (w.step + 1 + 1) == "") ≡ false
    pub is_new :
        any
          (λ (r : TokenRow).
            r.id == env.uuid (w.step + 1 + 1) || r.token == env.base64_encode bytes)
          w.db.tokens
        ≡ false

  abbrev pub given : Drawn → Token
  given h = record {
    id = env.uuid (w.step + 1 + 1);
    account_id = h.owner.0;
    key_id = h.owner.1;
    agent_id = agent;
    token = env.base64_encode h.bytes;
    expires_at = env.now (w.step + 1 + 1 + 1) +ℤ s.token_ttl;
  }

  abbrev pub issued : Drawn → World
  issued h = record w {
    step = w.step + 1 + 1 + 1 + 1 + 1;
    db = record w.db { tokens = w.db.tokens ++ token_row (given h) ∷ [] };
  }

  issue-Drawn :
      IsUp env → (h : Drawn) → issue env s agent alg public_key w ≡ (ok (given h), issued h)
  unfolding issue get_account_key_by_public_key create_token insert_token query execute token_row
      ◌>>=◌
  issue-Drawn up h =
      rw (up w.step, h.is_random, h.is_owner, h.has_id, h.is_new, up (w.step + 1 + 1 + 1 + 1)) refl

-- the two halves
pub verify_and_create_token-given :
    (env : Env) (s : Service) (agent alg public_key text signature : String) (w : World)
    (up : IsUp env) (h : Signed env agent alg public_key text signature w)
    (d : Drawn env s agent alg public_key (redeemed env agent alg public_key text signature w h))
    → verify_and_create_token env s agent alg public_key text signature w ≡ (
      ok (
          given env s agent alg public_key
            (redeemed env agent alg public_key text signature w h)
            d),
      issued env s agent alg public_key (redeemed env agent alg public_key text signature w h) d,
    )
unfolding verify_and_create_token ◌>>=◌
verify_and_create_token-given env s agent alg public_key text signature w up h d =
    rw (redeem-Signed env agent alg public_key text signature w up h) (
      issue-Drawn env s agent alg public_key (redeemed env agent alg public_key text signature w h)
        up d)
