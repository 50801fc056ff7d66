-- ===== src/Auth/Once.antt =====
-- A challenge serves once, and only while it lasts.
use slashclaw.Prelude.{
  ◌+◌, String, Bool, false, not, List, [], ◌∷◌, ◌≡◌, refl, ◌==◌, eq_iff, ℤ, ◌≤ℤ◌, any, select,
  arith, All, IsIn, HasDistinct, any-IsIn, ◌⊎◌, inl, inr, Bool-cases, subst,
}
use text.Mathlib.TextPositions.{eq_refl}
use slashclaw.Env.{Env}
use slashclaw.Env.Laws.{IsUp}
use slashclaw.Exec.{World, Result, ok, err, ◌>>=◌}
use slashclaw.Exec.Triple.{Post}
use slashclaw.Store.Models.{Token}
use slashclaw.Store.Rows.{ChallengeRow, Db}
use slashclaw.Store.Sql.{Error, challenge_not_found, query}
use slashclaw.Store.Sessions.{is_live_challenge, is_challenge, to_seconds, get_challenge}
use slashclaw.Auth.{Service, redeem, verify_and_create_token}
use slashclaw.Auth.Redeem.{Redeemed}
use slashclaw.Auth.Issue.{Issued, verify_and_create_token-Issued}

abbrev pub text_of : ChallengeRow → String
text_of r = r.challenge

none_selected :
    (p : ChallengeRow → Bool) (rows : List ChallengeRow) → any p rows ≡ false → select p rows ≡ []
none_selected p [] h = refl
none_selected p (r ∷ rs) h = ground (arith, none_selected p rs)

none_live :
    (text : String) (time : ℤ) (rows : List ChallengeRow)
    → All (λ r. r.challenge ≡ text → r.expires_at ≤ℤ to_seconds time) rows
    → any (is_live_challenge text time) rows ≡ false
none_live text time [] h = refl
none_live text time (r ∷ rs) (h, hs) =
    ground (arith, eq_iff r.challenge text, none_live text time rs hs)

-- If no call of the database fails: a text of which no challenge is stored, or only challenges that
-- have expired by the clock of the database in whole seconds, gives no token: VerifyAndCreateToken
-- ends with "challenge not found", whatever the agent, the key and the signature, and the tables
-- are as before.
pub expired_or_missing :
    (env : Env) (s : Service) (agent alg public_key text signature : String) (w : World)
    → IsUp env
    → All (λ r. r.challenge ≡ text → r.expires_at ≤ℤ to_seconds (env.now w.step)) w.db.challenges
    → ((verify_and_create_token env s agent alg public_key text signature w).0
        ≡ err challenge_not_found)
      × ((verify_and_create_token env s agent alg public_key text signature w).1.db ≡ w.db)
unfolding verify_and_create_token redeem get_challenge query ◌>>=◌
expired_or_missing env s agent alg public_key text signature w up h =
    rw (up (w.step + 1), none_selected _ _ (none_live text (env.now w.step) w.db.challenges h))
      (refl, refl)

module _ (P : ChallengeRow → Type 0) (keep : ChallengeRow → Bool) where
  absent_text :
      (text : String) (rows : List ChallengeRow)
      → any (λ r. text_of r == text) rows ≡ false
      → All (λ x. x.challenge ≡ text → P x) (select keep rows)
  absent_text text [] h = tt
  absent_text text (r ∷ rs) h =
      let rest = absent_text text rs (ground arith) in
      elim (Bool-cases (keep r)) [
        | inl kept ↦ rw kept ((λ e. absurd (ground (arith, eq_iff r.challenge text))), rest)
        | inr gone_too ↦ rw gone_too rest
      ]

  removed_text :
      (row : ChallengeRow) (rows : List ChallengeRow)
      → keep row ≡ false
      → IsIn row rows
      → HasDistinct text_of rows
      → All (λ x. x.challenge ≡ row.challenge → P x) (select keep rows)
  removed_text row [] gone i d = absurd i
  removed_text row (x ∷ xs) gone (inl e) d =
      rw (e, gone)
        (absent_text row.challenge xs
          (subst (λ y. any (λ r. text_of r == text_of y) xs ≡ false) e d.0))
  removed_text row (x ∷ xs) gone (inr i) d =
      let rest = removed_text row xs gone i d.1 in
      let other : x.challenge ≡ row.challenge → P x = λ e. absurd (
        ground (
          arith,
          d.0,
          any-IsIn (λ r. text_of r == text_of x) row xs i,
          eq_iff row.challenge x.challenge,
        )) in
      elim (Bool-cases (keep x)) [
        | inl kept ↦ rw kept (other, rest)
        | inr gone_too ↦ rw gone_too rest
      ]

not_found_again :
    (env : Env) (agent alg public_key text signature : String) (time : ℤ) (db db' : Db)
    → HasDistinct text_of db.challenges
    → Redeemed env agent alg public_key text signature db db'
    → All (λ r. r.challenge ≡ text → r.expires_at ≤ℤ to_seconds time) db'.challenges
not_found_again env agent alg public_key text signature time db db' d h =
    rw (h.removed, ← h.is_text)
      (removed_text _ (λ r. not (is_challenge h.row.id r)) h.row db.challenges
        (rw (eq_refl h.row.id) refl) h.stored d)

Redeemed-by :
    (env : Env) (agent alg public_key text signature : String) (db db' : Db)
    (r : Result Error Token) (token : Token)
    → r ≡ ok token
    → Post
        (λ token d.
          (mid : Db) × Redeemed env agent alg public_key text signature db mid
          × Issued agent token mid d)
        (λ _ d. (d ≡ db) ⊎ Redeemed env agent alg public_key text signature db d)
        r
        db'
    → (mid : Db) × Redeemed env agent alg public_key text signature db mid
      × (db'.challenges ≡ mid.challenges)
Redeemed-by env agent alg public_key text signature db db' (ok u) token e (mid, red, iss) =
    (mid, red, rw iss.stored refl)
Redeemed-by env agent alg public_key text signature db db' (err x) token e h = cc

-- A challenge gives one token: where no two stored challenges have the same text and no call of the
-- database fails, once VerifyAndCreateToken has given a token for a text, every call with that text
-- on the challenges it left, at any time and for any agent, key and signature, ends with "challenge
-- not found" and changes no table.
pub challenge_serves_once :
    (env : Env) (s s' : Service) (agent alg public_key signature text : String)
    (agent' alg' public_key' signature' : String) (w w' : World) (token : Token)
    → IsUp env
    → HasDistinct text_of w.db.challenges
    → (verify_and_create_token env s agent alg public_key text signature w).0 ≡ ok token
    → w'.db.challenges
      ≡ (verify_and_create_token env s agent alg public_key text signature w).1.db.challenges
    → ((verify_and_create_token env s' agent' alg' public_key' text signature' w').0
        ≡ err challenge_not_found)
      × ((verify_and_create_token env s' agent' alg' public_key' text signature' w').1.db ≡ w'.db)
challenge_serves_once env s s' agent alg public_key signature text agent' alg' public_key'
      signature' w w' token up d given left =
    let (mid, red, same) =
      Redeemed-by env agent alg public_key text signature w.db _ _ token given (
        (verify_and_create_token-Issued env s agent alg public_key text signature w.db up).at w
          refl) in
    expired_or_missing env s' agent' alg' public_key' text signature' w' up (
      rw (left, same)
        (not_found_again env agent alg public_key text signature (env.now w'.step) w.db mid d red))
