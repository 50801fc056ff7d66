-- ===== src/Store/Triples.antt =====
-- A write of a database that is up: it succeeds if its change does.
use slashclaw.Prelude.{◌≡◌, refl, Bool, true, false, ◌||◌, arith, if◌then◌else◌}
use slashclaw.Env.{Env}
use slashclaw.Env.Laws.{IsUp}
use slashclaw.Exec.{World, Result, ok, err}
use slashclaw.Exec.Triple.{Post, Triple}
use slashclaw.Store.Rows.{Db}
use slashclaw.Store.Sql.{Error, settle, query, execute}

module _ (env : Env) (up : IsUp env) where
  settle-Post :
      (P : Db → Type 0) (R : Unit → Db → Type 0) (X : Error → Db → Type 0) (b : Bool)
      (r : Result Error Db) (w : World)
      → b ≡ false
      → ((db : Db) → r ≡ ok db → R tt db)
      → ((e : Error) → r ≡ err e → X e w.db)
      → Post R X (settle env b r w).0 (settle env b r w).1.db
  unfolding settle
  settle-Post P R X true r w h k l = cc
  settle-Post P R X false (ok db) w h k l = k db refl
  settle-Post P R X false (err e) w h k l = l e refl

  pub Triple-execute :
      (P : Db → Type 0) (f : Db → Result Error Db) (R : Unit → Db → Type 0)
      (X : Error → Db → Type 0)
      → ((db db' : Db) → P db → f db ≡ ok db' → R tt db')
      → ((db : Db) (e : Error) → P db → f db ≡ err e → X e db)
      → Triple P (execute env f) R X
  unfolding execute
  Triple-execute P f R X k l = record {
    at = λ w h.
        settle-Post P R X (env.down w.step) (f w.db) w (up w.step) (λ db e. k w.db db h e)
          (λ x e. l w.db x h e);
  }

-- The same where the database may fail: an error leaves what the precondition gives.
module _ (env : Env) where
  settle-write :
      (X R : Db → Type 0) (b : Bool) (r : Result Error Db) (w : World)
      → X w.db
      → ((db : Db) → r ≡ ok db → R db)
      → Post (λ _. R) (λ _. X) (settle env b r w).0 (settle env b r w).1.db
  unfolding settle
  settle-write X R true r w h k = h
  settle-write X R false (ok db) w h k = k db refl
  settle-write X R false (err e) w h k = h

  pub Triple-write :
      (P R X : Db → Type 0) (f : Db → Result Error Db)
      → ((db : Db) → P db → X db)
      → ((db db' : Db) → P db → f db ≡ ok db' → R db')
      → Triple P (execute env f) (λ _. R) (λ _. X)
  unfolding execute
  Triple-write P R X f weaken k = record {
    at = λ w h.
        settle-write X R (env.down w.step) (f w.db) w (weaken w.db h) (λ db e. k w.db db h e);
  }

-- What an insertion that succeeds has tested.
pub inserted :
    (b : Bool) (e : Error) (db db' : Db)
    → (if b then err e else ok db) ≡ ok db'
    → (b ≡ false) × (db ≡ db')
inserted true e db db' h = cc
inserted false e db db' h = (refl, cc)

pub or-eq_false : (a b : Bool) → (a || b) ≡ false → (a ≡ false) × (b ≡ false)
or-eq_false a b h = ground arith

pub ok_injective : {E A : Type 0} {a b : A} → ◌≡◌ {A = Result E A} (ok a) (ok b) → a ≡ b
ok_injective e = cc

-- What a query returns, it found in the tables.
pub query_found :
    (env : Env) {A : Type 0} (f : Db → Result Error A) (w : World) (a : A)
    → (query env f w).0 ≡ ok a
    → f w.db ≡ ok a
unfolding query
query_found env f w a e = ground arith
