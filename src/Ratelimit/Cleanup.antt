-- ===== src/Ratelimit/Cleanup.antt =====
-- `Cleanup` drops only buckets that no later call would look at.
use slashclaw.Prelude.{
  String, true, false, Option, none, some, [], ◌∷◌, ◌≡◌, refl, ℤ, ◌≤ℤ◌, ◌==◌, eq_iff, arith, any,
  if◌then◌else◌, Bool-cases, inl, inr, subst,
}
use slashclaw.Exec.{Bucket}
use slashclaw.Ratelimit.{
  BucketMap, lookup, is_over, allow_bucket, store_bucket, allow_at, remaining_of, remaining_at,
  retry_of, retry_after_at, cleanup_at,
}
use slashclaw.Ratelimit.Buckets.{key_of, IsMap}

-- The bucket, unless its window is over.
unfoldable pub live : ℤ → Option Bucket → Option Bucket
live t none = none
live t (some b) = if is_over t b then none else some b

lookup-none :
    (k : String) (bs : BucketMap) → any (λ e. key_of e == k) bs ≡ false → lookup k bs ≡ none
unfolding lookup
lookup-none k [] h = refl
lookup-none k ((i, c) ∷ bs) h = ground (arith, lookup-none k bs)

pub lookup-cleanup :
    (k : String) (t : ℤ) (bs : BucketMap)
    → IsMap bs
    → lookup k (cleanup_at t bs) ≡ live t (lookup k bs)
unfolding lookup cleanup_at live
lookup-cleanup k t [] h = refl
lookup-cleanup k t ((i, c) ∷ bs) (fresh, h) =
    let rest = lookup-cleanup k t bs h in
    let missing : i ≡ k → lookup k bs ≡ none =
      λ same. subst (λ j. lookup j bs ≡ none) same (lookup-none i bs fresh) in
    elim (Bool-cases (is_over t c)) [
      | inl over ↦ rw over (ground (arith, eq_iff i k))
      | inr running ↦ rw running (ground (arith, eq_iff i k))
    ]

any-cleanup :
    (k : String) (t : ℤ) (bs : BucketMap)
    → any (λ e. key_of e == k) bs ≡ false
    → any (λ e. key_of e == k) (cleanup_at t bs) ≡ false
unfolding cleanup_at
any-cleanup k t [] h = refl
any-cleanup k t ((i, c) ∷ bs) h = ground (arith, any-cleanup k t bs)

pub cleanup-IsMap : (t : ℤ) (bs : BucketMap) → IsMap bs → IsMap (cleanup_at t bs)
unfolding cleanup_at
cleanup-IsMap t [] h = h
cleanup-IsMap t ((i, c) ∷ bs) (fresh, h) =
    let rest = cleanup-IsMap t bs h in
    let new = any-cleanup i t bs fresh in
    elim (Bool-cases (is_over t c)) [
      | inl over ↦ rw over rest
      | inr running ↦ rw running (new, rest)
    ]

module _ (t later : ℤ) (order : t ≤ℤ later) where
  is_over_later : (b : Bucket) → is_over t b ≡ true → is_over later b ≡ true
  is_over_later b h = ground arith

  allow_bucket-live :
      (limit window : ℤ) (o : Option Bucket)
      → allow_bucket later limit window (live t o) ≡ allow_bucket later limit window o
  unfolding allow_bucket live
  allow_bucket-live limit window none = refl
  allow_bucket-live limit window (some b) = ground (arith, is_over_later b)

  remaining_of-live :
      (limit : ℤ) (o : Option Bucket)
      → remaining_of later limit (live t o) ≡ remaining_of later limit o
  unfolding remaining_of live
  remaining_of-live limit none = refl
  remaining_of-live limit (some b) = ground (arith, is_over_later b)

  retry_of-live : (o : Option Bucket) → retry_of later (live t o) ≡ retry_of later o
  unfolding retry_of live
  retry_of-live none = refl
  retry_of-live (some b) = ground (arith, is_over_later b)

store_bucket-answer :
    (key : String) (o : Option Bucket) (bs cs : BucketMap)
    → (store_bucket key o bs).0 ≡ (store_bucket key o cs).0
unfolding store_bucket
store_bucket-answer key none bs cs = refl
store_bucket-answer key (some b) bs cs = refl

-- In a map in which no key occurs twice, a cleanup changes no answer of Allow, Remaining or
-- RetryAfter at that instant or later, for any key and limit.
pub cleanup-keeps_answers :
    (t later : ℤ) (key : String) (limit window : ℤ) (bs : BucketMap)
    → IsMap bs
    → t ≤ℤ later
    → ((allow_at later key limit window (cleanup_at t bs)).0
        ≡ (allow_at later key limit window bs).0)
      × (remaining_at later key limit (cleanup_at t bs) ≡ remaining_at later key limit bs)
      × (retry_after_at later key (cleanup_at t bs) ≡ retry_after_at later key bs)
unfolding allow_at remaining_at retry_after_at
cleanup-keeps_answers t later key limit window bs h order =
    rw (lookup-cleanup key t bs h, allow_bucket-live t later order limit window (lookup key bs))
      (
        store_bucket-answer key (allow_bucket later limit window (lookup key bs)) (cleanup_at t bs)
            bs,
        remaining_of-live t later order limit (lookup key bs),
        retry_of-live t later order (lookup key bs),
      )
