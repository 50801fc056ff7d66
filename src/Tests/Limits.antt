-- ===== src/Tests/Limits.antt =====
-- The limiter on concrete buckets.
use slashclaw.Prelude.{
  String, List, [], ◌∷◌, Option, some, none, Bool, true, false, ℤ, pos, ◌≡◌, refl, subst, arith,
  ◌==◌, length, pos_part, ltb_ℤ, ◌≤ℤ◌,
}
use slashclaw.Exec.{Bucket, World, err}
use slashclaw.Prelude.{◌+◌}
use slashclaw.Api.Http.{rate_key}
use slashclaw.Api.Limited.{IsFull, wait, too_many, Post, post_handler, post_handler-IsFull}
use slashclaw.Tests.Setup.{test_env, test_config, plain, start}
use slashclaw.Ratelimit.{
  BucketMap, new_memory_limiter, lookup, is_over, allow_at, remaining_at, retry_after_at,
  cleanup_at,
}
use slashclaw.Ratelimit.Buckets.{IsMap}
use slashclaw.Ratelimit.Window.{granted, granted_in_window}
use slashclaw.Ratelimit.Answers.{allow-remaining, allow-other_key}
use slashclaw.Ratelimit.Cleanup.{cleanup-keeps_answers}
use slashclaw.Ratelimit.Calls.{
  Call, call_allow, call_remaining, call_cleanup, answers, Answer, allowed, remains, ideal_answers,
  unused,
}
use slashclaw.Ratelimit.Refinement.{limiter_refines}

abbrev used : BucketMap
used =
    ("vote:a", record { count = 2; reset_time = pos 50 })
    ∷ ("vote:b", record { count = 1; reset_time = pos 9 })
    ∷ []

abbrev used_IsMap : IsMap used
used_IsMap = (refl, (refl, tt))

the_bucket :
    (b : Bucket)
    → lookup "vote:b" used ≡ some b
    → ◌≡◌ {A = Bucket} (record { count = 1; reset_time = pos 9 }) b
unfolding lookup
the_bucket b e = cc

granted_in_window_example :
    granted "vote:b" (pos 2) (pos 100) (pos 10 ∷ pos 20 ∷ pos 30 ∷ pos 110 ∷ []) used ≡ 2
unfolding slashclaw.Prelude.◌+ℤ◌
granted_in_window_example =
    granted_in_window "vote:b" (pos 2) (pos 100) (pos 10) (pos 20 ∷ pos 30 ∷ pos 110 ∷ []) used
      (λ b e. subst (λ x. is_over (pos 10) x ≡ true) (the_bucket b e) refl)
      (omega arith, (omega arith, (omega arith, tt)))

allow-remaining_example :
    ((allow_at (pos 20) "vote:a" (pos 2) (pos 100) used).0
      ≡ ltb_ℤ (pos 0) (remaining_at (pos 20) "vote:a" (pos 2) used))
    × ((allow_at (pos 20) "vote:a" (pos 2) (pos 100) used).0 ≡ false
        → ((allow_at (pos 20) "vote:a" (pos 2) (pos 100) used).1 ≡ used)
          × (pos 0 ≤ℤ retry_after_at (pos 20) "vote:a" used))
allow-remaining_example = allow-remaining (pos 20) "vote:a" (pos 2) (pos 100) used (omega arith)

allow-other_key_example :
    let after = (allow_at (pos 20) "vote:a" (pos 3) (pos 100) used).1 in
    IsMap after
    × ((allow_at (pos 20) "vote:b" (pos 3) (pos 100) after).0
        ≡ (allow_at (pos 20) "vote:b" (pos 3) (pos 100) used).0)
    × (remaining_at (pos 20) "vote:b" (pos 3) after ≡ remaining_at (pos 20) "vote:b" (pos 3) used)
    × (retry_after_at (pos 20) "vote:b" after ≡ retry_after_at (pos 20) "vote:b" used)
allow-other_key_example =
    allow-other_key (pos 20) "vote:a" (pos 3) (pos 100) used (pos 20) "vote:b" (pos 3) (pos 100)
      used_IsMap refl

cleanup-keeps_answers_example :
    ((allow_at (pos 25) "vote:b" (pos 1) (pos 100) (cleanup_at (pos 20) used)).0
      ≡ (allow_at (pos 25) "vote:b" (pos 1) (pos 100) used).0)
    × (remaining_at (pos 25) "vote:b" (pos 1) (cleanup_at (pos 20) used)
        ≡ remaining_at (pos 25) "vote:b" (pos 1) used)
    × (retry_after_at (pos 25) "vote:b" (cleanup_at (pos 20) used)
        ≡ retry_after_at (pos 25) "vote:b" used)
cleanup-keeps_answers_example =
    cleanup-keeps_answers (pos 20) (pos 25) "vote:b" (pos 1) (pos 100) used used_IsMap (omega arith)

-- two calls for one key in a window of a limit of one, a clean-up, and a call in the next window
abbrev calls : List (ℤ × Call)
calls =
    (pos 10, call_allow "vote:a" (pos 1) (pos 5))
    ∷ (pos 12, call_allow "vote:a" (pos 1) (pos 5))
    ∷ (pos 13, call_remaining "vote:a" (pos 1))
    ∷ (pos 20, call_cleanup)
    ∷ (pos 21, call_allow "vote:a" (pos 1) (pos 5))
    ∷ []

calls_run :
    answers calls new_memory_limiter
    ≡ allowed true ∷ allowed false ∷ remains (pos 0) ∷ Answer.swept ∷ allowed true ∷ []
unfolding answers new_memory_limiter allow_at remaining_at cleanup_at slashclaw.Prelude.◌+ℤ◌
    slashclaw.Prelude.◌-ℤ◌
calls_run = refl

limiter_refines_example : answers calls new_memory_limiter ≡ ideal_answers calls unused
limiter_refines_example =
    limiter_refines (pos 0) calls
      (omega arith, (omega arith, (omega arith, (omega arith, (omega arith, tt)))))

-- A client that has used up its votes.
abbrev busy : World
busy = record start {
  buckets =
      (rate_key plain "vote", record { count = 120; reset_time = pos 1800000000000000000 }) ∷ [];
}

busy-IsFull : IsFull test_env plain "vote" (pos 120) busy
unfolding lookup rate_key
busy-IsFull = record {
  bucket = record { count = 120; reset_time = pos 1800000000000000000 };
  held = refl;
  runs = refl;
  full = refl;
}

post_handler-IsFull_example :
    post_handler test_env test_config (Post.vote none) plain busy
    ≡ (err (too_many (wait busy-IsFull)), record busy { step = busy.step + 1 + 1 })
post_handler-IsFull_example =
    post_handler-IsFull test_env test_config (Post.vote none) plain busy busy-IsFull
