-- ===== src/Exec/Triple.antt =====
-- Preconditions and postconditions of actions, on the tables. A triple says what holds after a
-- result and what holds after an error.
use slashclaw.Prelude.{◌≡◌, refl, sym, subst, Bool, true, false}
use slashclaw.Store.Rows.{Db}
use slashclaw.Exec.{World, Result, ok, err, Exec, pure, lift, on_err, fail_if, ignore_err, ◌>>=◌}
use slashclaw.Exec.Keeps.{Keeps}

module _ {E A : Type 0} where
  abbrev pub Post : (A → Db → Type 0) → (E → Db → Type 0) → Result E A → Db → Type 0
  Post R X (ok a) db = R a db
  Post R X (err e) db = X e db

pub record Triple {E A : Type 0} (P : Db → Type 0) (m : Exec E A) (R : A → Db → Type 0)
    (X : E → Db → Type 0) : Type 0 where
  pub at : (w : World) → P w.db → Post R X (m w).0 (m w).1.db

module _ {E A : Type 0} where
  pub Triple-pure :
      {P : Db → Type 0} (R : A → Db → Type 0) (X : E → Db → Type 0) (a : A)
      → ((db : Db) → P db → R a db)
      → Triple P (pure a) R X
  unfolding pure
  Triple-pure R X a k = record { at = λ w h. k w.db h }

  Post-both : (Q : Db → Type 0) (r : Result E A) (db : Db) → Q db → Post (λ _. Q) (λ _. Q) r db
  Post-both Q (ok a) db h = h
  Post-both Q (err e) db h = h

  both-post : (Q : Db → Type 0) (r : Result E A) (db : Db) → Post (λ _. Q) (λ _. Q) r db → Q db
  both-post Q (ok a) db h = h
  both-post Q (err e) db h = h

  pub Triple-Keeps : {Q : Db → Type 0} {m : Exec E A} → Keeps Q m → Triple Q m (λ _. Q) (λ _. Q)
  Triple-Keeps {Q} {m} k = record { at = λ w h. Post-both Q (m w).0 (m w).1.db (k.at w h) }

  pub Keeps-Triple : {Q : Db → Type 0} {m : Exec E A} → Triple Q m (λ _. Q) (λ _. Q) → Keeps Q m
  Keeps-Triple {Q} {m} t = record { at = λ w h. both-post Q (m w).0 (m w).1.db (t.at w h) }

  Post-found :
      (R : A → Db → Type 0) (X : E → Db → Type 0) (r : Result E A) (db : Db)
      → ((a : A) → r ≡ ok a → R a db)
      → ((e : E) → r ≡ err e → X e db)
      → Post R X r db
  Post-found R X (ok a) db k l = k a refl
  Post-found R X (err e) db k l = l e refl

  Post-map :
      (R R' : A → Db → Type 0) (X X' : E → Db → Type 0) (r : Result E A) (db : Db)
      → ((a : A) (db : Db) → R a db → R' a db)
      → ((e : E) (db : Db) → X e db → X' e db)
      → Post R X r db
      → Post R' X' r db
  Post-map R R' X X' (ok a) db k l h = k a db h
  Post-map R R' X X' (err e) db k l h = l e db h

  -- A query: what it returns is a fact about the tables, which stay.
  pub Triple-read :
      (P : Db → Type 0) (m : Exec E A) (R : A → Db → Type 0) (X : E → Db → Type 0)
      → ((w : World) → (m w).1.db ≡ w.db)
      → ((w : World) (a : A) → P w.db → (m w).0 ≡ ok a → R a w.db)
      → ((w : World) (e : E) → P w.db → (m w).0 ≡ err e → X e w.db)
      → Triple P m R X
  Triple-read P m R X same k l = record {
    at = λ w h.
        Post-found R X (m w).0 (m w).1.db (λ a e. subst (R a) (sym (same w)) (k w a h e))
          (λ x e. subst (X x) (sym (same w)) (l w x h e));
  }

module _ {E A B : Type 0} where
  Post-bind :
      (R : A → Db → Type 0) (S : B → Db → Type 0) (X : E → Db → Type 0) (r : Result E A)
      (f : A → Exec E B) (w : World)
      → Post R X r w.db
      → ((a : A) → Triple (R a) (f a) S X)
      → Post S X ((lift r >>= f) w).0 ((lift r >>= f) w).1.db
  unfolding ◌>>=◌
  Post-bind R S X (ok a) f w h k = (k a).at w h
  Post-bind R S X (err e) f w h k = h

  pub Triple-bind :
      {P : Db → Type 0} {m : Exec E A} (R : A → Db → Type 0) {S : B → Db → Type 0}
      {X : E → Db → Type 0} {f : A → Exec E B}
      → Triple P m R X
      → ((a : A) → Triple (R a) (f a) S X)
      → Triple P (m >>= f) S X
  unfolding ◌>>=◌
  Triple-bind {m = m} R {S = S} {X = X} {f = f} t k = record {
    at = λ w h. let (r, w') = m w in Post-bind R S X r f w' (t.at w h) k;
  }

module _ {E F A : Type 0} where
  Post-on_err :
      (R : A → Db → Type 0) (X : F → Db → Type 0) (f : E → F) (r : Result E A) (w : World)
      → Post R (λ e. X (f e)) r w.db
      → Post R X (on_err f (lift r) w).0 w.db
  unfolding ◌>>=◌
  Post-on_err R X f (ok a) w h = h
  Post-on_err R X f (err e) w h = h

  pub Triple-on_err :
      {P : Db → Type 0} {m : Exec E A} {R : A → Db → Type 0} (X : F → Db → Type 0) (f : E → F)
      → Triple P m R (λ e. X (f e))
      → Triple P (on_err f m) R X
  unfolding ◌>>=◌
  Triple-on_err {m = m} {R = R} X f t = record {
    at = λ w h. let (r, w') = m w in Post-on_err R X f r w' (t.at w h);
  }

module _ {E : Type 0} where
  -- After the test the rest knows that it failed.
  pub Triple-fail_if :
      {P : Db → Type 0} (R : Unit → Db → Type 0) (X : E → Db → Type 0) (b : Bool) (e : E)
      → ((db : Db) → b ≡ false → P db → R tt db)
      → ((db : Db) → b ≡ true → P db → X e db)
      → Triple P (fail_if b e) R X
  unfolding fail_if
  Triple-fail_if R X true e k l = record { at = λ w h. l w.db refl h }
  Triple-fail_if R X false e k l = record { at = λ w h. k w.db refl h }

module _ {E F A : Type 0} where
  pub Triple-ignore_err :
      {P : Db → Type 0} {m : Exec E A} (R : Db → Type 0) (X : F → Db → Type 0)
      → Triple P m (λ _. R) (λ _. R)
      → Triple P (ignore_err m) (λ _. R) X
  unfolding ignore_err
  Triple-ignore_err {m = m} R X t = record { at = λ w h. both-post R (m w).0 (m w).1.db (t.at w h) }

module _ {E A : Type 0} where
  -- An action that keeps the precondition, which is more than the errors ask for.
  pub Triple-keep :
      {P : Db → Type 0} {m : Exec E A} (Q : Db → Type 0)
      → ((db : Db) → P db → Q db)
      → Keeps P m
      → Triple P m (λ _. P) (λ _. Q)
  Triple-keep {P} {m} Q weaken k = record {
    at = λ w h.
        Post-found (λ _. P) (λ _. Q) (m w).0 (m w).1.db (λ a e. k.at w h)
          (λ x e. weaken _ (k.at w h));
  }

  pub Triple-pre :
      {P : Db → Type 0} {m : Exec E A} {R : A → Db → Type 0} {X : E → Db → Type 0}
      (P' : Db → Type 0)
      → ((db : Db) → P' db → P db)
      → Triple P m R X
      → Triple P' m R X
  Triple-pre P' k t = record { at = λ w h. t.at w (k w.db h) }

  -- A fact that is not about the tables is a hypothesis.
  pub Triple-fact :
      {P : Db → Type 0} {m : Exec E A} {R : A → Db → Type 0} {X : E → Db → Type 0} (K : Type 0)
      → (K → Triple P m R X)
      → Triple (λ db. P db × K) m R X
  Triple-fact K t = record { at = λ w h. (t h.1).at w h.0 }

  pub Triple-post :
      {P : Db → Type 0} {m : Exec E A} (R : A → Db → Type 0) (X : E → Db → Type 0)
      {R' : A → Db → Type 0} {X' : E → Db → Type 0}
      → ((a : A) (db : Db) → R a db → R' a db)
      → ((e : E) (db : Db) → X e db → X' e db)
      → Triple P m R X
      → Triple P m R' X'
  Triple-post {m = m} R X {R'} {X'} k l t = record {
    at = λ w h. Post-map R R' X X' (m w).0 (m w).1.db k l (t.at w h);
  }

  -- The tables at the start have a name in the rest.
  pub Triple-from :
      {P : Db → Type 0} {m : Exec E A} {R : A → Db → Type 0} {X : E → Db → Type 0}
      → ((db : Db) → P db → Triple (λ d. d ≡ db) m R X)
      → Triple P m R X
  Triple-from k = record { at = λ w h. (k w.db h).at w refl }
