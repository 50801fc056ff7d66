-- ===== src/Exec.antt =====
-- The state of the server, and actions on it that may fail. What was written before a failure stays
-- written, so the state comes back beside the error too.
pub mod Keeps
pub mod Triple
pub mod Steps
pub mod Clocked
use slashclaw.Prelude.{ℕ, ◌+◌, String, Bool, true, false, Option, none, some, List, ℤ}
use slashclaw.Store.Rows.{Db}
use slashclaw.Env.{Env}

-- `bucket` of internal/ratelimit/ratelimit.go
pub record Bucket : Type 0 where
  pub count : ℕ
  pub reset_time : ℤ

-- `step` counts the draws from outside; `buckets` is the map of the rate limiter.
pub record World : Type 0 where
  pub step : ℕ
  pub db : Db
  pub buckets : List (String × Bucket)

pub data Result (E A : Type 0) : Type 0 where
  ok : A → Result E A
  err : E → Result E A

abbrev pub Exec : Type 0 → Type 0 → Type 0
Exec E A = World → Result E A × World

abbrev pub tick : World → World
tick w = record w { step = w.step + 1 }

module _ {E A : Type 0} where
  unfoldable pub pure : A → Exec E A
  pure a w = (ok a, w)

  unfoldable pub fail : E → Exec E A
  fail e w = (err e, w)

  -- `if v == nil { return e }`
  unfoldable pub or_fail : Option A → E → Exec E A
  or_fail none e w = (err e, w)
  or_fail (some a) e w = (ok a, w)

  -- the outcome of a pure function
  unfoldable pub lift : Result E A → Exec E A
  lift r w = (r, w)

module _ {E : Type 0} where
  -- `if bad { return e }`
  unfoldable pub fail_if : Bool → E → Exec E Unit
  fail_if true e w = (err e, w)
  fail_if false e w = (ok tt, w)

  -- a step that runs only under a test
  unfoldable pub when : Bool → Exec E Unit → Exec E Unit
  unfolding pure
  when true m = m
  when false m = pure tt

module _ {E F A : Type 0} where
  abbrev map_err : (E → F) → Result E A → Result F A
  map_err f (ok a) = ok a
  map_err f (err e) = err (f e)

  -- `if err != nil { … return }`, the answer depending on the error
  unfoldable pub on_err : (E → F) → Exec E A → Exec F A
  on_err f m w = let (r, w') = m w in (map_err f r, w')

  -- a call whose error is dropped
  unfoldable pub ignore_err : Exec E A → Exec F Unit
  ignore_err m w = let (r, w') = m w in (ok tt, w')

  -- a call of which both outcomes are looked at
  unfoldable pub attempt : Exec E A → Exec F (Result E A)
  attempt m w = let (r, w') = m w in (ok r, w')

module _ (env : Env) {E : Type 0} where
  unfoldable pub now : Exec E ℤ
  now w = (ok (env.now w.step), tick w)

  unfoldable pub new_uuid : Exec E String
  new_uuid w = (ok (env.uuid w.step), tick w)

module _ {E A B : Type 0} where
  abbrev continue : Result E A → (A → Exec E B) → Exec E B
  continue (ok a) f w = f a w
  continue (err e) f w = (err e, w)

  infixl 5 ◌>>=◌ ◌>>◌
  -- opening this opens the combinators above too
  unfoldable pub ◌>>=◌ : Exec E A → (A → Exec E B) → Exec E B
  unfolding pure fail or_fail lift fail_if when on_err ignore_err attempt now new_uuid
  ◌>>=◌ m f w = let (r, w') = m w in continue r f w'

  abbrev pub ◌>>◌ : Exec E A → Exec E B → Exec E B
  m >> k = m >>= λ _. k
