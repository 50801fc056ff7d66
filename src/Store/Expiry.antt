-- ===== src/Store/Expiry.antt =====
-- `DeleteExpiredTokens` and the queries for tokens after it.
use slashclaw.Prelude.{
  ◌+◌, String, Bool, true, not, List, [], ◌∷◌, ◌≡◌, refl, ℤ, pos, negsuc, ◌≤ℤ◌, ltb_ℤ, select,
  arith, Bool-cases, inl, inr,
}
use slashclaw.Env.{Env}
use slashclaw.Exec.{World, ◌>>=◌}
use slashclaw.Store.Rows.{TokenRow}
use slashclaw.Store.Sql.{query, execute, settle}
use slashclaw.Store.Sessions.{to_seconds, is_live_token, get_token, delete_expired_tokens}

to_seconds-mono : (a b : ℤ) → a ≤ℤ b → to_seconds a ≤ℤ to_seconds b
unfolding to_seconds
to_seconds-mono (pos m) (pos n) h = omega arith
to_seconds-mono (pos m) (negsuc n) h = omega arith
to_seconds-mono (negsuc m) (pos n) h = omega arith
to_seconds-mono (negsuc m) (negsuc n) h = omega arith

select-select :
    (p q : TokenRow → Bool) (rows : List TokenRow)
    → ((r : TokenRow) → p r ≡ true → q r ≡ true)
    → select p (select q rows) ≡ select p rows
select-select p q [] k = refl
select-select p q (r ∷ rows) k = ground (arith, k r, select-select p q rows k)

-- What is live later has not expired before.
live_later :
    (text : String) (before time : ℤ) (r : TokenRow)
    → before ≤ℤ time
    → is_live_token text time r ≡ true
    → not (ltb_ℤ r.expires_at (to_seconds before)) ≡ true
live_later text before time r h live = ground (arith, to_seconds-mono before time h)

-- The query does not see what was removed.
get_token-swept :
    (env : Env) (text : String) (before : ℤ) (w : World)
    → before ≤ℤ env.now w.step
    → (get_token env text (record w {
      db = record w.db {
        tokens = select (λ r. not (ltb_ℤ r.expires_at (to_seconds before))) w.db.tokens;
      };
    })).0
      ≡ (get_token env text w).0
unfolding get_token query ◌>>=◌
get_token-swept env text before w h =
    let same =
      select-select (is_live_token text (env.now w.step))
        (λ r. not (ltb_ℤ r.expires_at (to_seconds before))) w.db.tokens
        (λ r live. live_later text before (env.now w.step) r h live) in
    elim (Bool-cases (env.down (w.step + 1))) [
      | inl down ↦ rw down refl
      | inr up ↦ rw (up, same) refl
    ]

-- DeleteExpiredTokens changes no answer: whether its call of the database fails or not, a later
-- GetToken, if the clock has not gone back, gives what it gives without the removal.
pub get_token-delete_expired_tokens :
    (env : Env) (text : String) (w : World)
    → env.now w.step ≤ℤ env.now (w.step + 1 + 1)
    → (get_token env text (delete_expired_tokens env w).1).0
      ≡ (get_token env text (record w { step = w.step + 1 + 1 })).0
unfolding delete_expired_tokens execute settle ◌>>=◌
get_token-delete_expired_tokens env text w h = elim (Bool-cases (env.down (w.step + 1))) [
  | inl down ↦ rw down refl
  | inr up ↦
      rw up (get_token-swept env text (env.now w.step) (record w { step = w.step + 1 + 1 }) h)
]
