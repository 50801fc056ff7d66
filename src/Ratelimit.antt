-- ===== src/Ratelimit.antt =====
-- internal/ratelimit/ratelimit.go. Each method runs under the limiter's mutex, so it is one step on
-- the map of buckets.
pub mod Answers
pub mod Buckets
pub mod Window
pub mod Cleanup
pub mod Calls
pub mod Refinement
use slashclaw.Prelude.{
  ◌+◌, String, Bool, true, false, not, Option, none, some, List, [], ◌∷◌, ℤ, pos, ◌+ℤ◌, ◌-ℤ◌, ltb_ℤ,
  leb_ℤ, ◌==◌, select, if◌then◌else◌,
}
use slashclaw.Env.{Env}
use slashclaw.Exec.{Bucket, Exec, ok}

abbrev pub BucketMap : Type 0
BucketMap = List (String × Bucket)

-- `NewMemoryLimiter`
unfoldable pub new_memory_limiter : BucketMap
new_memory_limiter = []

unfoldable pub lookup : String → BucketMap → Option Bucket
lookup key [] = none
lookup key ((k, b) ∷ bs) = if k == key then some b else lookup key bs

unfoldable pub insert : String → Bucket → BucketMap → BucketMap
insert key b [] = (key, b) ∷ []
insert key b ((k, c) ∷ bs) = if k == key then (key, b) ∷ bs else (k, c) ∷ insert key b bs

-- `now.After(b.resetTime)`
abbrev pub is_over : ℤ → Bucket → Bool
is_over time b = ltb_ℤ b.reset_time time

-- `Allow` on the bucket that the map holds
unfoldable pub allow_bucket : ℤ → ℤ → ℤ → Option Bucket → Option Bucket
allow_bucket time limit window none = some (record { count = 1; reset_time = time +ℤ window })
allow_bucket time limit window (some b) =
    if is_over time b
    then some (record { count = 1; reset_time = time +ℤ window })
    else if leb_ℤ limit (pos b.count)
    then none
    else some (record b { count = b.count + 1 })

-- The bucket to store, if the action is allowed.
unfoldable pub store_bucket : String → Option Bucket → BucketMap → Bool × BucketMap
store_bucket key none bs = (false, bs)
store_bucket key (some b) bs = (true, insert key b bs)

unfoldable pub allow_at : ℤ → String → ℤ → ℤ → BucketMap → Bool × BucketMap
unfolding allow_bucket store_bucket lookup insert
allow_at time key limit window bs =
    store_bucket key (allow_bucket time limit window (lookup key bs)) bs

unfoldable pub remaining_of : ℤ → ℤ → Option Bucket → ℤ
remaining_of time limit none = limit
remaining_of time limit (some b) =
    if is_over time b
    then limit
    else if ltb_ℤ (limit -ℤ pos b.count) (pos 0)
    then pos 0
    else limit -ℤ pos b.count

unfoldable pub remaining_at : ℤ → String → ℤ → BucketMap → ℤ
unfolding remaining_of
remaining_at time key limit bs = remaining_of time limit (lookup key bs)

unfoldable pub retry_of : ℤ → Option Bucket → ℤ
retry_of time none = pos 0
retry_of time (some b) = if is_over time b then pos 0 else b.reset_time -ℤ time

unfoldable pub retry_after_at : ℤ → String → BucketMap → ℤ
unfolding retry_of
retry_after_at time key bs = retry_of time (lookup key bs)

unfoldable pub cleanup_at : ℤ → BucketMap → BucketMap
cleanup_at time bs = select (λ e. not (is_over time e.1)) bs

module _ (env : Env) {E : Type 0} where
  unfoldable pub allow : String → ℤ → ℤ → Exec E Bool
  unfolding allow_at
  allow key limit window w =
      let (answer, bs) = allow_at (env.now w.step) key limit window w.buckets in
      (ok answer, record w { step = w.step + 1; buckets = bs })

  unfoldable pub remaining : String → ℤ → ℤ → Exec E ℤ
  unfolding remaining_at
  remaining key limit window w =
      (ok (remaining_at (env.now w.step) key limit w.buckets), record w { step = w.step + 1 })

  unfoldable pub retry_after : String → ℤ → Exec E ℤ
  unfolding retry_after_at
  retry_after key window w =
      (ok (retry_after_at (env.now w.step) key w.buckets), record w { step = w.step + 1 })

  -- `Cleanup`, which the goroutine of `StartCleanup` calls at each tick
  unfoldable pub cleanup : Exec E Unit
  unfolding cleanup_at
  cleanup w =
      (ok tt, record w { step = w.step + 1; buckets = cleanup_at (env.now w.step) w.buckets })
