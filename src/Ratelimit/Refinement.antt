-- ===== src/Ratelimit/Refinement.antt =====
-- The limiter implements the specification of `Calls`, whatever is called and in whatever order.
use slashclaw.Prelude.{
  ℕ, ◌+◌, ◌≤◌, String, true, false, Option, none, some, List, [], ◌∷◌, ◌≡◌, refl, ℤ, pos, ◌+ℤ◌,
  ◌≤ℤ◌, leb_ℤ, ◌==◌, arith, eq_iff, ap, sym, ◌∙◌, if◌then◌else◌, -ℤ_parts, Bool-cases, inl, inr,
  subst,
}
use slashclaw.Exec.{Bucket}
use slashclaw.Ratelimit.{
  BucketMap, new_memory_limiter, lookup, is_over, allow_bucket, store_bucket, allow_at,
  remaining_of, remaining_at, retry_of, retry_after_at, cleanup_at,
}
use slashclaw.Ratelimit.Buckets.{IsMap, lookup-insert}
use slashclaw.Ratelimit.Answers.{is_allowed, store_bucket-is_allowed, stored_IsMap}
use slashclaw.Ratelimit.Cleanup.{live, lookup-cleanup, cleanup-IsMap}
use slashclaw.Ratelimit.Calls.{
  Call, call_allow, call_remaining, call_retry_after, call_cleanup, answer, after, answers, Answer,
  Window, Windows, unused, used_at, may_pass, left_of, wait_of, ideal_answer, pass, ideal_after,
  ideal_answers, InOrder,
}

-- The bucket and the window say the same from the instant `t` on.
unfoldable Shows : ℤ → Option Bucket → Window → Type 0
Shows t none w = used_at t w ≡ 0
Shows t (some b) w =
    (is_over t b ≡ true → used_at t w ≡ 0)
    × (is_over t b ≡ false → (1 ≤ b.count) × ((w.used ≡ b.count) × (w.ends ≡ b.reset_time)))

Shows-later : (t u : ℤ) (o : Option Bucket) (w : Window) → t ≤ℤ u → Shows t o w → Shows u o w
unfolding Shows used_at
Shows-later t u none w h s = ground arith
Shows-later t u (some b) w h s = ground arith

Shows-live : (t : ℤ) (o : Option Bucket) (w : Window) → Shows t o w → Shows t (live t o) w
unfolding Shows live
Shows-live t none w s = s
Shows-live t (some b) w s = ground arith

-- what a running bucket says
used_at-some :
    (t : ℤ) (b : Bucket) (w : Window)
    → is_over t b ≡ false
    → Shows t (some b) w
    → used_at t w ≡ b.count
unfolding Shows used_at
used_at-some t b w h s = ground arith

allow-Shows :
    (t limit window : ℤ) (o : Option Bucket) (w : Window)
    → Shows t o w
    → is_allowed (allow_bucket t limit window o) ≡ may_pass (used_at t w) limit
unfolding Shows allow_bucket is_allowed
allow-Shows t limit window none w s = ground arith
allow-Shows t limit window (some b) w s = ground (arith, used_at-some t b w)

remaining-Shows :
    (t limit : ℤ) (o : Option Bucket) (w : Window)
    → Shows t o w
    → remaining_of t limit o ≡ left_of (used_at t w) limit
unfolding Shows remaining_of
remaining-Shows t limit none w s = ground arith
remaining-Shows t limit (some b) w s =
    ground (arith, used_at-some t b w, -ℤ_parts limit (pos b.count))

retry-Shows :
    (t : ℤ) (o : Option Bucket) (w : Window)
    → Shows t o w
    → retry_of t o ≡ wait_of t (used_at t w) w
unfolding Shows retry_of
retry-Shows t none w s = ground arith
retry-Shows t (some b) w s = ground (arith, used_at-some t b w)

-- the bucket after a call of `Allow`, as the map holds it
stored : Option Bucket → Option Bucket → Option Bucket
stored none o = o
stored (some b) o = some b

opened-Shows :
    (t window : ℤ)
    → Shows t
        (some (record { count = 1; reset_time = t +ℤ window }))
        (record { used = 1; ends = t +ℤ window })
unfolding Shows used_at
opened-Shows t window = ground arith

pass_new :
    (t limit window : ℤ) (w : Window)
    → used_at t w ≡ 0
    → pass t limit window w ≡ record { used = 1; ends = t +ℤ window }
unfolding pass
pass_new t limit window w h = rw h refl

pass_full :
    (t limit window : ℤ) (w : Window) (n : ℕ)
    → used_at t w ≡ n
    → 1 ≤ n
    → leb_ℤ limit (pos n) ≡ true
    → pass t limit window w ≡ w
unfolding pass
pass_full t limit window w n h new full = ground arith

pass_room :
    (t limit window : ℤ) (w : Window) (n : ℕ)
    → used_at t w ≡ n
    → 1 ≤ n
    → leb_ℤ limit (pos n) ≡ false
    → pass t limit window w ≡ record { used = n + 1; ends = w.ends }
unfolding pass
pass_room t limit window w n h new room = ground arith

stored-Shows :
    (t limit window : ℤ) (o : Option Bucket) (w : Window)
    → Shows t o w
    → Shows t (stored (allow_bucket t limit window o) o) (pass t limit window w)
unfolding Shows stored allow_bucket pass
stored-Shows t limit window none w s = rw (pass_new t limit window w s) (opened-Shows t window)
stored-Shows t limit window (some b) w s = elim (Bool-cases (is_over t b)) [
  | inl over ↦ rw (over, pass_new t limit window w (s.0 over)) (opened-Shows t window)
  | inr running ↦
      let used = used_at-some t b w running s in
      let parts = s.1 running in
      elim (Bool-cases (leb_ℤ limit (pos b.count))) [
        | inl full ↦
            let same = pass_full t limit window w b.count used (omega arith) (ground arith) in
            rw (running, full, same) s
        | inr room ↦
            let next = pass_room t limit window w b.count used (ground arith) (ground arith) in
            rw (running, room, next) (λ over. ground arith, λ run. (omega arith, (refl, parts.1.1)))
      ]
]

lookup-stored :
    (key k : String) (o : Option Bucket) (bs : BucketMap)
    → lookup k (store_bucket key o bs).1
      ≡ (if key == k then stored o (lookup k bs) else lookup k bs)
unfolding store_bucket stored
lookup-stored key k none bs = ground arith
lookup-stored key k (some b) bs = ground (arith, lookup-insert key k b bs)

-- the map and the windows, at every key
Refines : ℤ → BucketMap → Windows → Type 0
Refines t bs ws = (k : String) → Shows t (lookup k bs) (ws k)

answer-Refines :
    (t : ℤ) (c : Call) (bs : BucketMap) (ws : Windows)
    → Refines t bs ws
    → answer t c bs ≡ ideal_answer t c ws
unfolding Refines answer ideal_answer allow_at remaining_at retry_after_at
answer-Refines t (call_allow key limit window) bs ws h = ap Answer.allowed (
    store_bucket-is_allowed key (allow_bucket t limit window (lookup key bs)) bs
    ∙ allow-Shows t limit window (lookup key bs) (ws key) (h key))
answer-Refines t (call_remaining key limit) bs ws h =
    ap Answer.remains (remaining-Shows t limit (lookup key bs) (ws key) (h key))
answer-Refines t (call_retry_after key) bs ws h =
    ap Answer.waits (retry-Shows t (lookup key bs) (ws key) (h key))
answer-Refines t call_cleanup bs ws h = refl

allowed-Refines :
    (t : ℤ) (key : String) (limit window : ℤ) (bs : BucketMap) (ws : Windows)
    → Refines t bs ws
    → Refines t (allow_at t key limit window bs).1 (ideal_after t (call_allow key limit window) ws)
unfolding Refines ideal_after allow_at
allowed-Refines t key limit window bs ws h k = elim (Bool-cases (key == k)) [
  | inl same ↦
      rw (lookup-stored key k (allow_bucket t limit window (lookup key bs)) bs, same)
        (subst
          (λ j.
            Shows t (stored (allow_bucket t limit window (lookup j bs)) (lookup k bs))
              (pass t limit window (ws k)))
          (sym ((eq_iff key k).0 same)) (stored-Shows t limit window (lookup k bs) (ws k) (h k)))
  | inr other ↦
      rw (lookup-stored key k (allow_bucket t limit window (lookup key bs)) bs, other) (h k)
]

allow_at-IsMap :
    (t : ℤ) (key : String) (limit window : ℤ) (bs : BucketMap)
    → IsMap bs
    → IsMap (allow_at t key limit window bs).1
unfolding allow_at
allow_at-IsMap t key limit window bs m = stored_IsMap key _ bs m

swept-Refines :
    (t : ℤ) (bs : BucketMap) (ws : Windows)
    → IsMap bs
    → Refines t bs ws
    → Refines t (cleanup_at t bs) ws
unfolding Refines
swept-Refines t bs ws m h k = rw (lookup-cleanup k t bs m) (Shows-live t (lookup k bs) (ws k) (h k))

Refines-later :
    (t u : ℤ) (bs : BucketMap) (ws : Windows) → t ≤ℤ u → Refines t bs ws → Refines u bs ws
unfolding Refines
Refines-later t u bs ws order h k = Shows-later t u (lookup k bs) (ws k) order (h k)

new-Refines : (t : ℤ) → Refines t new_memory_limiter unused
unfolding Refines new_memory_limiter lookup Shows used_at
new-Refines t k = ground arith

after-Refines :
    (t : ℤ) (c : Call) (bs : BucketMap) (ws : Windows)
    → IsMap bs
    → Refines t bs ws
    → IsMap (after t c bs) × Refines t (after t c bs) (ideal_after t c ws)
unfolding after ideal_after Refines
after-Refines t (call_allow key limit window) bs ws m h =
    (allow_at-IsMap t key limit window bs m, allowed-Refines t key limit window bs ws h)
after-Refines t (call_remaining key limit) bs ws m h = (m, h)
after-Refines t (call_retry_after key) bs ws m h = (m, h)
after-Refines t call_cleanup bs ws m h = (cleanup-IsMap t bs m, swept-Refines t bs ws m h)

answers-Refines :
    (t : ℤ) (cs : List (ℤ × Call)) (bs : BucketMap) (ws : Windows)
    → InOrder t cs
    → IsMap bs
    → Refines t bs ws
    → answers cs bs ≡ ideal_answers cs ws
unfolding answers ideal_answers
answers-Refines t [] bs ws order m h = refl
answers-Refines t ((u, c) ∷ cs) bs ws (first, order) m h =
    let now : Refines u bs ws = Refines-later t u bs ws first h in
    let (m', h') = after-Refines u c bs ws m now in
    rw
      (
        answer-Refines u c bs ws now,
        answers-Refines u cs (after u c bs) (ideal_after u c ws) order m' h',
      )
      refl

new-IsMap : IsMap new_memory_limiter
unfolding new_memory_limiter
new-IsMap = tt

-- A new limiter answers any sequence of calls of Allow, Remaining, RetryAfter and Cleanup, with any
-- keys, limits and windows and at instants that do not go back, as the specification does, which
-- keeps for each key how much of its running window is used and when that window ends, and for
-- which a cleanup does nothing.
pub limiter_refines :
    (t : ℤ) (calls : List (ℤ × Call))
    → InOrder t calls
    → answers calls new_memory_limiter ≡ ideal_answers calls unused
limiter_refines t calls order = answers-Refines t calls _ _ order new-IsMap (new-Refines t)
