-- ===== src/Ratelimit/Window.antt =====
-- How many calls of `Allow` a window lets through, against the plain specification by counting.
use slashclaw.Prelude.{
  ℕ, suc, ◌+◌, ◌-◌, String, true, false, Option, none, some, List, [], ◌∷◌, ◌≡◌, refl, ℤ, pos,
  pos_part, ◌+ℤ◌, ◌≤ℤ◌, leb_ℤ, arith, All, length, if◌then◌else◌, Bool-cases, subst, sym, inl, inr,
}
use text.Mathlib.TextPositions.{eq_refl}
use Prim.Native.Nat.{min, max}
use slashclaw.Exec.{Bucket}
use slashclaw.Ratelimit.{BucketMap, lookup, insert, is_over, allow_bucket, store_bucket, allow_at}
use slashclaw.Ratelimit.Buckets.{lookup-insert}

-- The number of calls that are let through, at the given instants, for one key.
pub granted : String → ℤ → ℤ → List ℤ → BucketMap → ℕ
granted key limit window [] bs = 0
granted key limit window (t ∷ ts) bs =
    let rest = granted key limit window ts (allow_at t key limit window bs).1 in
    if (allow_at t key limit window bs).0 then suc rest else rest

lookup-insert_same : (k : String) (b : Bucket) (bs : BucketMap) → lookup k (insert k b bs) ≡ some b
lookup-insert_same k b bs = ground (arith, lookup-insert k k b bs, eq_refl k)

allow_bucket_full :
    (t limit window : ℤ) (b : Bucket)
    → t ≤ℤ b.reset_time
    → leb_ℤ limit (pos b.count) ≡ true
    → allow_bucket t limit window (some b) ≡ none
unfolding allow_bucket
allow_bucket_full t limit window b h full = ground arith

allow_bucket_open :
    (t limit window : ℤ) (b : Bucket)
    → t ≤ℤ b.reset_time
    → leb_ℤ limit (pos b.count) ≡ false
    → allow_bucket t limit window (some b) ≡ some (record b { count = b.count + 1 })
unfolding allow_bucket
allow_bucket_open t limit window b h full = ground arith

granted_refused :
    (key : String) (t limit window : ℤ) (ts : List ℤ) (bs : BucketMap)
    → allow_bucket t limit window (lookup key bs) ≡ none
    → granted key limit window (t ∷ ts) bs ≡ granted key limit window ts bs
unfolding granted allow_at store_bucket
granted_refused key t limit window ts bs e = rw e refl

granted_allowed :
    (key : String) (t limit window : ℤ) (ts : List ℤ) (bs : BucketMap) (b : Bucket)
    → allow_bucket t limit window (lookup key bs) ≡ some b
    → granted key limit window (t ∷ ts) bs ≡ suc (granted key limit window ts (insert key b bs))
unfolding granted allow_at store_bucket
granted_allowed key t limit window ts bs b e = rw e refl

-- While a window lasts, the calls beyond those counted are let through up to the limit.
granted_within :
    (key : String) (limit window : ℤ) (ts : List ℤ) (b : Bucket) (bs : BucketMap)
    → lookup key bs ≡ some b
    → All (λ t. t ≤ℤ b.reset_time) ts
    → granted key limit window ts bs ≡ min (length ts) (pos_part limit - b.count)
unfolding granted
granted_within key limit window [] b bs e h = omega arith
granted_within key limit window (t ∷ ts) b bs e (h, hs) =
    elim (Bool-cases (leb_ℤ limit (pos b.count))) [
      | inl full ↦
          let now =
            subst (λ o. allow_bucket t limit window o ≡ none) (sym e)
              (allow_bucket_full t limit window b h full) in
          let rest = granted_within key limit window ts b bs e hs in
          let step = granted_refused key t limit window ts bs now in ground arith
      | inr room ↦
          let b' : Bucket = record b { count = b.count + 1 } in
          let now =
            subst (λ o. allow_bucket t limit window o ≡ some b') (sym e)
              (allow_bucket_open t limit window b h room) in
          let rest =
            granted_within key limit window ts b' (insert key b' bs) (lookup-insert_same key b' bs)
              hs in
          let step = granted_allowed key t limit window ts bs b' now in ground arith
    ]

-- A bucket that is absent or past its reset time starts a new window.
allow_bucket_new :
    (t limit window : ℤ) (o : Option Bucket)
    → ((b : Bucket) → o ≡ some b → is_over t b ≡ true)
    → allow_bucket t limit window o ≡ some (record { count = 1; reset_time = t +ℤ window })
unfolding allow_bucket
allow_bucket_new t limit window none h = refl
allow_bucket_new t limit window (some b) h = rw (h b refl) refl

-- Of the calls of Allow for one key, the first at an instant at which the key has no running window
-- and the others no later than the end of the window that starts there, exactly the calls up to the
-- limit are let through: all of them if they are no more than the limit, else as many as the limit.
-- The first call is let through whatever the limit is, so that a limit below one counts as one.
pub granted_in_window :
    (key : String) (limit window t : ℤ) (ts : List ℤ) (bs : BucketMap)
    → ((b : Bucket) → lookup key bs ≡ some b → is_over t b ≡ true)
    → All (λ u. u ≤ℤ t +ℤ window) ts
    → granted key limit window (t ∷ ts) bs ≡ min (length (t ∷ ts)) (max 1 (pos_part limit))
granted_in_window key limit window t ts bs over h =
    let b : Bucket = record { count = 1; reset_time = t +ℤ window } in
    let step =
      granted_allowed key t limit window ts bs b
        (allow_bucket_new t limit window (lookup key bs) over) in
    let rest =
      granted_within key limit window ts b (insert key b bs) (lookup-insert_same key b bs) h in
    ground arith
