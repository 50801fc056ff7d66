-- ===== src/Ratelimit/Answers.antt =====
-- How the answers of the limiter fit together, and that keys do not disturb each other.
use slashclaw.Prelude.{
  String, Bool, true, false, Option, none, some, ◌≡◌, refl, ℤ, pos, ◌≤ℤ◌, ltb_ℤ, ◌==◌, arith,
  -ℤ_parts, ◌∙◌, sym, ap,
}
use slashclaw.Exec.{Bucket}
use slashclaw.Ratelimit.{
  BucketMap, lookup, allow_bucket, store_bucket, allow_at, remaining_of, remaining_at, retry_of,
  retry_after_at,
}
use slashclaw.Ratelimit.Buckets.{IsMap, lookup-insert, insert-IsMap}

unfoldable pub is_allowed : Option Bucket → Bool
is_allowed none = false
is_allowed (some b) = true

pub store_bucket-is_allowed :
    (key : String) (o : Option Bucket) (bs : BucketMap) → (store_bucket key o bs).0 ≡ is_allowed o
unfolding store_bucket is_allowed
store_bucket-is_allowed key none bs = refl
store_bucket-is_allowed key (some b) bs = refl

allowed_remaining :
    (t limit window : ℤ) (o : Option Bucket)
    → pos 1 ≤ℤ limit
    → is_allowed (allow_bucket t limit window o) ≡ ltb_ℤ (pos 0) (remaining_of t limit o)
unfolding is_allowed allow_bucket remaining_of
allowed_remaining t limit window none h = ground arith
allowed_remaining t limit window (some b) h = ground (arith, -ℤ_parts limit (pos b.count))

refused_retry :
    (t limit window : ℤ) (o : Option Bucket)
    → is_allowed (allow_bucket t limit window o) ≡ false
    → pos 0 ≤ℤ retry_of t o
unfolding is_allowed allow_bucket retry_of
refused_retry t limit window none h = ground arith
refused_retry t limit window (some b) h = ground (arith, -ℤ_parts b.reset_time t)

refused_same :
    (key : String) (o : Option Bucket) (bs : BucketMap)
    → (store_bucket key o bs).0 ≡ false
    → (store_bucket key o bs).1 ≡ bs
unfolding store_bucket
refused_same key none bs h = refl
refused_same key (some b) bs h = ground arith

-- With a limit of at least one, Allow lets a call through exactly when Remaining is positive at
-- that instant; and a refused call leaves the map as it is, with a RetryAfter that is not negative.
pub allow-remaining :
    (t : ℤ) (key : String) (limit window : ℤ) (bs : BucketMap)
    → pos 1 ≤ℤ limit
    → ((allow_at t key limit window bs).0 ≡ ltb_ℤ (pos 0) (remaining_at t key limit bs))
      × ((allow_at t key limit window bs).0 ≡ false
          → ((allow_at t key limit window bs).1 ≡ bs) × (pos 0 ≤ℤ retry_after_at t key bs))
unfolding allow_at remaining_at retry_after_at
allow-remaining t key limit window bs h =
    let o = lookup key bs in
    let allowed = store_bucket-is_allowed key (allow_bucket t limit window o) bs in
    (
      allowed ∙ allowed_remaining t limit window o h,
      λ no. (
        refused_same key (allow_bucket t limit window o) bs no,
        refused_retry t limit window o (sym allowed ∙ no),
      ),
    )

stored_lookup :
    (key other : String) (o : Option Bucket) (bs : BucketMap)
    → (key == other) ≡ false
    → lookup other (store_bucket key o bs).1 ≡ lookup other bs
unfolding store_bucket
stored_lookup key other none bs h = refl
stored_lookup key other (some b) bs h = ground (arith, lookup-insert key other b bs)

pub stored_IsMap :
    (key : String) (o : Option Bucket) (bs : BucketMap) → IsMap bs → IsMap (store_bucket key o bs).1
unfolding store_bucket
stored_IsMap key none bs h = h
stored_IsMap key (some b) bs h = insert-IsMap key b bs h

-- In a map in which no key occurs twice, a call of Allow for one key changes neither Allow,
-- Remaining nor RetryAfter for another key, at any instant and limit, and keeps the keys of the map
-- distinct.
pub allow-other_key :
    (t : ℤ) (key : String) (limit window : ℤ) (bs : BucketMap) (u : ℤ) (other : String)
    (limit' window' : ℤ)
    → IsMap bs
    → (key == other) ≡ false
    → let after = (allow_at t key limit window bs).1 in
      IsMap after
      × ((allow_at u other limit' window' after).0 ≡ (allow_at u other limit' window' bs).0)
      × (remaining_at u other limit' after ≡ remaining_at u other limit' bs)
      × (retry_after_at u other after ≡ retry_after_at u other bs)
unfolding allow_at remaining_at retry_after_at
allow-other_key t key limit window bs u other limit' window' m h =
    let o = allow_bucket t limit window (lookup key bs) in
    let same = stored_lookup key other o bs h in
    (
      stored_IsMap key o bs m,
      store_bucket-is_allowed other _ _
          ∙ ap (λ x. is_allowed (allow_bucket u limit' window' x)) same
          ∙ sym (store_bucket-is_allowed other _ _),
      ap (remaining_of u limit') same,
      ap (retry_of u) same,
    )
