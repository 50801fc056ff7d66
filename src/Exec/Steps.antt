-- ===== src/Exec/Steps.antt =====
-- The first step of a do block, in the order of the block: what it tests is known in the rest.
use slashclaw.Prelude.{◌≡◌, refl, Bool, true, false, Option, some, none}
use slashclaw.Store.Rows.{Db}
use slashclaw.Exec.{Exec, or_fail, fail_if, ◌>>=◌, ◌>>◌}
use slashclaw.Exec.Keeps.{Keeps}
use slashclaw.Exec.Triple.{Triple, Triple-bind, Triple-keep}

module _ {E A B : Type 0} {P : Db → Type 0} {S : B → Db → Type 0} {X : Db → Type 0}
    (weaken : (db : Db) → P db → X db) where
  -- A step that keeps the precondition.
  pub Triple-skip :
      {m : Exec E A} {f : A → Exec E B}
      → Keeps P m
      → ((a : A) → Triple P (f a) S (λ _. X))
      → Triple P (m >>= f) S (λ _. X)
  Triple-skip k rest = Triple-bind (λ _. P) (Triple-keep X weaken k) rest

  pub Triple-given :
      (o : Option A) (e : E) (f : A → Exec E B)
      → ((a : A) → o ≡ some a → Triple P (f a) S (λ _. X))
      → Triple P (or_fail o e >>= f) S (λ _. X)
  unfolding ◌>>=◌
  Triple-given none e f rest = record { at = λ w h. weaken w.db h }
  Triple-given (some a) e f rest = record { at = λ w h. (rest a refl).at w h }

module _ {E B : Type 0} {P : Db → Type 0} {S : B → Db → Type 0} {X : Db → Type 0}
    (weaken : (db : Db) → P db → X db) where
  -- A test that stops the block if it holds.
  pub Triple-test :
      (b : Bool) (e : E) (m : Exec E B)
      → (b ≡ false → Triple P m S (λ _. X))
      → Triple P (fail_if b e >> m) S (λ _. X)
  unfolding ◌>>=◌
  Triple-test true e m rest = record { at = λ w h. weaken w.db h }
  Triple-test false e m rest = record { at = λ w h. (rest refl).at w h }
