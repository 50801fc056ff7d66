-- ===== src/Exec/Clocked.antt =====
-- Triples that also speak of the number of the draws so far, and so of which reading of the clock an
-- action has seen.
use slashclaw.Prelude.{ℕ, ◌+◌, ap, ◌∙◌, ◌≡◌, refl, Bool, true, false, Option, some, none}
use slashclaw.Store.Rows.{Db}
use slashclaw.Exec.{World, Result, ok, err, Exec, lift, or_fail, fail_if, ◌>>=◌, ◌>>◌}
use slashclaw.Exec.Triple.{Post, Triple}

module _ {E A : Type 0} where
  abbrev pub PostW : (A → World → Type 0) → (E → Db → Type 0) → Result E A → World → Type 0
  PostW R X (ok a) w = R a w
  PostW R X (err e) w = X e w.db

  pub record TripleW (P : World → Type 0) (m : Exec E A) (R : A → World → Type 0)
      (X : E → Db → Type 0) : Type 0 where
    pub at : (w : World) → P w → PostW R X (m w).0 (m w).1

  -- What holds of the tables, with a fact about the state after the action.
  pub PostW-of_Post :
      (R : A → Db → Type 0) (X : E → Db → Type 0) (K : World → Type 0) (r : Result E A) (w : World)
      → Post R X r w.db
      → K w
      → PostW (λ a w. R a w.db × K w) X r w
  PostW-of_Post R X K (ok a) w h k = (h, k)
  PostW-of_Post R X K (err e) w h k = h

  pub TripleW-Triple :
      {P : Db → Type 0} {m : Exec E A} {R : A → Db → Type 0} {X : E → Db → Type 0}
      → Triple P m R X
      → TripleW (λ w. P w.db) m (λ a w. R a w.db × Unit) X
  TripleW-Triple {m = m} t = record {
    at = λ w h. PostW-of_Post _ _ (λ _. Unit) (m w).0 (m w).1 (t.at w h) tt;
  }

  pub TripleW-pre :
      {P : World → Type 0} {m : Exec E A} {R : A → World → Type 0} {X : E → Db → Type 0}
      (P' : World → Type 0)
      → ((w : World) → P' w → P w)
      → TripleW P m R X
      → TripleW P' m R X
  TripleW-pre P' k t = record { at = λ w h. t.at w (k w h) }

  PostW-map :
      (R R' : A → World → Type 0) (X : E → Db → Type 0) (r : Result E A) (w : World)
      → ((a : A) (w : World) → R a w → R' a w)
      → PostW R X r w
      → PostW R' X r w
  PostW-map R R' X (ok a) w k h = k a w h
  PostW-map R R' X (err e) w k h = h

  pub TripleW-post :
      {P : World → Type 0} {m : Exec E A} (R : A → World → Type 0) {R' : A → World → Type 0}
      {X : E → Db → Type 0}
      → ((a : A) (w : World) → R a w → R' a w)
      → TripleW P m R X
      → TripleW P m R' X
  TripleW-post {m = m} R {R'} {X} k t = record {
    at = λ w h. PostW-map R R' X (m w).0 (m w).1 k (t.at w h);
  }

  -- An action of which the number of draws is known.
  pub TripleW-steps :
      {P : Db → Type 0} {m : Exec E A} {R : A → Db → Type 0} {X : E → Db → Type 0} (n k : ℕ)
      → Triple P m R X
      → ((w : World) → (m w).1.step ≡ w.step + k)
      → TripleW (λ w. P w.db × (w.step ≡ n)) m (λ a w. R a w.db × (w.step ≡ n + k)) X
  TripleW-steps {m = m} n k t s = record {
    at = λ w h.
        PostW-of_Post _ _ (λ w'. w'.step ≡ n + k) (m w).0 (m w).1 (t.at w h.0)
          (s w ∙ ap (λ i. i + k) h.1);
  }

  pub TripleW-fact :
      {P : World → Type 0} {m : Exec E A} {R : A → World → Type 0} {X : E → Db → Type 0}
      (K : Type 0)
      → (K → TripleW P m R X)
      → TripleW (λ w. P w × K) m R X
  TripleW-fact K t = record { at = λ w h. (t h.1).at w h.0 }

module _ {E A B : Type 0} where
  lifted-step :
      (r : Result E A) (f : A → Exec E B) (w : World)
      → ((a : A) → (f a w).1.step ≡ w.step)
      → ((lift r >>= f) w).1.step ≡ w.step
  unfolding ◌>>=◌
  lifted-step (ok a) f w k = k a
  lifted-step (err e) f w k = refl

  -- What follows without a draw.
  pub bind-step :
      (m : Exec E A) (f : A → Exec E B) (w : World)
      → ((a : A) (w : World) → (f a w).1.step ≡ w.step)
      → ((m >>= f) w).1.step ≡ (m w).1.step
  unfolding ◌>>=◌
  bind-step m f w k = lifted-step (m w).0 f (m w).1 (λ a. k a (m w).1)

  PostW-bind :
      (R : A → World → Type 0) (S : B → World → Type 0) (X : E → Db → Type 0) (r : Result E A)
      (f : A → Exec E B) (w : World)
      → PostW R X r w
      → ((a : A) → TripleW (R a) (f a) S X)
      → PostW S X ((lift r >>= f) w).0 ((lift r >>= f) w).1
  unfolding ◌>>=◌
  PostW-bind R S X (ok a) f w h k = (k a).at w h
  PostW-bind R S X (err e) f w h k = h

  pub TripleW-bind :
      {P : World → Type 0} {m : Exec E A} (R : A → World → Type 0) {S : B → World → Type 0}
      {X : E → Db → Type 0} {f : A → Exec E B}
      → TripleW P m R X
      → ((a : A) → TripleW (R a) (f a) S X)
      → TripleW P (m >>= f) S X
  unfolding ◌>>=◌
  TripleW-bind {m = m} R {S = S} {X = X} {f = f} t k = record {
    at = λ w h. let (r, w') = m w in PostW-bind R S X r f w' (t.at w h) k;
  }

module _ {E A B : Type 0} {P : World → Type 0} {S : B → World → Type 0} {X : Db → Type 0}
    (weaken : (w : World) → P w → X w.db) where
  pub TripleW-given :
      (o : Option A) (e : E) (f : A → Exec E B)
      → ((a : A) → o ≡ some a → TripleW P (f a) S (λ _. X))
      → TripleW P (or_fail o e >>= f) S (λ _. X)
  unfolding ◌>>=◌
  TripleW-given none e f rest = record { at = λ w h. weaken w h }
  TripleW-given (some a) e f rest = record { at = λ w h. (rest a refl).at w h }

module _ {E B : Type 0} {P : World → Type 0} {S : B → World → Type 0} {X : Db → Type 0}
    (weaken : (w : World) → P w → X w.db) where
  pub TripleW-test :
      (b : Bool) (e : E) (m : Exec E B)
      → (b ≡ false → TripleW P m S (λ _. X))
      → TripleW P (fail_if b e >> m) S (λ _. X)
  unfolding ◌>>=◌
  TripleW-test true e m rest = record { at = λ w h. weaken w h }
  TripleW-test false e m rest = record { at = λ w h. (rest refl).at w h }
