-- ===== src/Ratelimit/Calls.antt =====
-- A run of calls of the limiter, and the plain specification of it: for each key, how many calls
-- were let through in the window that is running, and when that window ends.
use slashclaw.Prelude.{
  ℕ, ◌+◌, ltb, String, Bool, true, List, [], ◌∷◌, ℤ, pos, ◌+ℤ◌, ◌-ℤ◌, ◌≤ℤ◌, ltb_ℤ, ◌==◌,
  if◌then◌else◌,
}
use slashclaw.Ratelimit.{BucketMap, allow_at, remaining_at, retry_after_at, cleanup_at}

pub data Call : Type 0 where
  call_allow : String → ℤ → ℤ → Call
  call_remaining : String → ℤ → Call
  call_retry_after : String → Call
  call_cleanup : Call

pub data Answer : Type 0 where
  allowed : Bool → Answer
  remains : ℤ → Answer
  waits : ℤ → Answer
  swept : Answer

-- The code: one call at an instant.
unfoldable pub answer : ℤ → Call → BucketMap → Answer
answer t (call_allow key limit window) bs = allowed (allow_at t key limit window bs).0
answer t (call_remaining key limit) bs = remains (remaining_at t key limit bs)
answer t (call_retry_after key) bs = waits (retry_after_at t key bs)
answer t call_cleanup bs = swept

unfoldable pub after : ℤ → Call → BucketMap → BucketMap
after t (call_allow key limit window) bs = (allow_at t key limit window bs).1
after t (call_remaining key limit) bs = bs
after t (call_retry_after key) bs = bs
after t call_cleanup bs = cleanup_at t bs

unfoldable pub answers : List (ℤ × Call) → BucketMap → List Answer
unfolding answer after
answers [] bs = []
answers ((t, c) ∷ cs) bs = answer t c bs ∷ answers cs (after t c bs)

-- The specification: what is used of the window that ends at `ends`.
pub record Window : Type 0 where
  pub used : ℕ
  pub ends : ℤ

abbrev pub Windows : Type 0
Windows = String → Window

abbrev pub unused : Windows
unused key = record { used = 0; ends = pos 0 }

-- Once the window is over nothing of it is used.
unfoldable pub used_at : ℤ → Window → ℕ
used_at t w = if ltb_ℤ w.ends t then 0 else w.used

-- Is nothing used yet?
abbrev pub is_new : ℕ → Bool
is_new n = ltb n 1

-- A call is let through when nothing is used yet or less than the limit.
abbrev pub may_pass : ℕ → ℤ → Bool
may_pass n limit = if is_new n then true else ltb_ℤ (pos n) limit

-- The first call opens a window; the later ones are counted in it.
abbrev pub count_in : ℤ → ℤ → ℕ → Window → Window
count_in t window n w =
    if is_new n
    then record { used = 1; ends = t +ℤ window }
    else record { used = n + 1; ends = w.ends }

abbrev pub left_of : ℕ → ℤ → ℤ
left_of n limit = if is_new n then limit else if ltb_ℤ limit (pos n) then pos 0 else limit -ℤ pos n

abbrev pub wait_of : ℤ → ℕ → Window → ℤ
wait_of t n w = if is_new n then pos 0 else w.ends -ℤ t

unfoldable pub ideal_answer : ℤ → Call → Windows → Answer
ideal_answer t (call_allow key limit window) ws = allowed (may_pass (used_at t (ws key)) limit)
ideal_answer t (call_remaining key limit) ws = remains (left_of (used_at t (ws key)) limit)
ideal_answer t (call_retry_after key) ws = waits (wait_of t (used_at t (ws key)) (ws key))
ideal_answer t call_cleanup ws = swept

unfoldable pub pass : ℤ → ℤ → ℤ → Window → Window
pass t limit window w =
    if may_pass (used_at t w) limit then count_in t window (used_at t w) w else w

unfoldable pub ideal_after : ℤ → Call → Windows → Windows
ideal_after t (call_allow key limit window) ws k =
    if key == k then pass t limit window (ws k) else ws k
ideal_after t (call_remaining key limit) ws k = ws k
ideal_after t (call_retry_after key) ws k = ws k
ideal_after t call_cleanup ws k = ws k

unfoldable pub ideal_answers : List (ℤ × Call) → Windows → List Answer
unfolding ideal_answer ideal_after
ideal_answers [] ws = []
ideal_answers ((t, c) ∷ cs) ws = ideal_answer t c ws ∷ ideal_answers cs (ideal_after t c ws)

-- The instants do not go back, from `t` on.
abbrev pub InOrder : ℤ → List (ℤ × Call) → Type 0
InOrder t [] = Unit
InOrder t ((u, c) ∷ cs) = (t ≤ℤ u) × InOrder u cs
