-- ===== src/Exec/Keeps.antt =====
-- Invariants of the tables under an action, one rule for each way to build an action. `Keeps Q m`
-- holds however `m` ends.
use slashclaw.Prelude.{◌≡◌, refl, sym, subst, Bool, true, false, Option, none, some, if◌then◌else◌}
use slashclaw.Env.{Env}
use slashclaw.Store.Rows.{Db}
use slashclaw.Exec.{
  World, Result, ok, err, Exec, pure, fail, or_fail, lift, fail_if, when, on_err, ignore_err,
  attempt, now, new_uuid, ◌>>=◌,
}

pub record Keeps {E A : Type 0} (Q : Db → Type 0) (m : Exec E A) : Type 0 where
  pub at : (w : World) → Q w.db → Q (m w).1.db

module _ {E A : Type 0} {Q : Db → Type 0} where
  pub Keeps-pure : (a : A) → Keeps Q (pure {E = E} a)
  unfolding pure
  Keeps-pure a = record { at = λ w h. h }

  pub Keeps-fail : (e : E) → Keeps Q (fail {A = A} e)
  unfolding fail
  Keeps-fail e = record { at = λ w h. h }

  pub Keeps-or_fail : (o : Option A) (e : E) → Keeps Q (or_fail o e)
  unfolding or_fail
  Keeps-or_fail none e = record { at = λ w h. h }
  Keeps-or_fail (some a) e = record { at = λ w h. h }

  pub Keeps-lift : (r : Result E A) → Keeps Q (lift r)
  unfolding lift
  Keeps-lift r = record { at = λ w h. h }

  pub Keeps-if : (b : Bool) (m n : Exec E A) → Keeps Q m → Keeps Q n → Keeps Q (if b then m else n)
  Keeps-if true m n km kn = km
  Keeps-if false m n km kn = kn

module _ {E : Type 0} {Q : Db → Type 0} where
  pub Keeps-fail_if : (b : Bool) (e : E) → Keeps Q (fail_if b e)
  unfolding fail_if
  Keeps-fail_if true e = record { at = λ w h. h }
  Keeps-fail_if false e = record { at = λ w h. h }

  pub Keeps-when : (b : Bool) (m : Exec E Unit) → Keeps Q m → Keeps Q (when b m)
  unfolding when
  Keeps-when true m k = k
  Keeps-when false m k = Keeps-pure tt

module _ {E F A : Type 0} {Q : Db → Type 0} where
  pub Keeps-on_err : (f : E → F) (m : Exec E A) → Keeps Q m → Keeps Q (on_err f m)
  unfolding on_err
  Keeps-on_err f m k = record { at = k.at }

  pub Keeps-ignore_err : (m : Exec E A) → Keeps Q m → Keeps Q (ignore_err {F = F} m)
  unfolding ignore_err
  Keeps-ignore_err m k = record { at = k.at }

  pub Keeps-attempt : (m : Exec E A) → Keeps Q m → Keeps Q (attempt {F = F} m)
  unfolding attempt
  Keeps-attempt m k = record { at = k.at }

module _ (env : Env) {E : Type 0} {Q : Db → Type 0} where
  pub Keeps-now : Keeps Q (now env {E = E})
  unfolding now
  Keeps-now = record { at = λ w h. h }

  pub Keeps-new_uuid : Keeps Q (new_uuid env {E = E})
  unfolding new_uuid
  Keeps-new_uuid = record { at = λ w h. h }

module _ {E A B : Type 0} (Q : Db → Type 0) where
  Keeps-continue :
      (r : Result E A) (f : A → Exec E B) (w : World)
      → ((a : A) → r ≡ ok a → Q (f a w).1.db)
      → Q w.db
      → Q ((lift r >>= f) w).1.db
  unfolding ◌>>=◌
  Keeps-continue (ok a) f w k h = k a refl
  Keeps-continue (err e) f w k h = h

module _ {E A B : Type 0} {Q : Db → Type 0} where
  pub Keeps-bind :
      (m : Exec E A) (f : A → Exec E B) → Keeps Q m → ((a : A) → Keeps Q (f a)) → Keeps Q (m >>= f)
  unfolding ◌>>=◌
  Keeps-bind m f km kf = record {
    at = λ w h.
        let (r, w') = m w in Keeps-continue Q r f w' (λ a e. (kf a).at w' (km.at w h)) (km.at w h);
  }

  -- The rest of the block may use what the action found in the tables, which it leaves alone.
  pub Keeps-bind_found :
      (R : A → Db → Type 0) (m : Exec E A) (f : A → Exec E B)
      → ((w : World) → (m w).1.db ≡ w.db)
      → ((w : World) (a : A) → (m w).0 ≡ ok a → R a w.db)
      → ((a : A) (w : World) → R a w.db → Q w.db → Q (f a w).1.db)
      → Keeps Q (m >>= f)
  unfolding ◌>>=◌
  Keeps-bind_found R m f same finds kf = record {
    at = λ w h.
        let (r, w') = m w in
        Keeps-continue Q r f w'
          (λ a e. kf a w' (subst (R a) (sym (same w)) (finds w a e)) (subst Q (sym (same w)) h))
          (subst Q (sym (same w)) h);
  }

-- What keeps every property leaves the tables as they are.
pub Keeps-same :
    {E A : Type 0} (m : Exec E A)
    → ((Q : Db → Type 0) → Keeps Q m)
    → (w : World) → (m w).1.db ≡ w.db
Keeps-same m k w = (k (λ db. db ≡ w.db)).at w refl

pub ruleset keeps_rules = (
  Keeps-pure, Keeps-fail, Keeps-or_fail, Keeps-lift, Keeps-if, Keeps-fail_if, Keeps-when,
  Keeps-on_err, Keeps-ignore_err, Keeps-attempt, Keeps-now, Keeps-new_uuid, Keeps-bind,
)
