-- ===== src/Ratelimit/Buckets.antt =====
-- The map of buckets: a write is seen at its key and nowhere else, and keys stay distinct.
use slashclaw.Prelude.{
  String, false, some, [], ◌∷◌, ◌≡◌, refl, ◌==◌, eq_iff, arith, any, HasDistinct, if◌then◌else◌,
}
use slashclaw.Exec.{Bucket}
use slashclaw.Ratelimit.{BucketMap, lookup, insert}

abbrev pub key_of : String × Bucket → String
key_of e = e.0

-- No key occurs twice.
abbrev pub IsMap : BucketMap → Type 0
IsMap bs = HasDistinct key_of bs

pub lookup-insert :
    (k j : String) (b : Bucket) (bs : BucketMap)
    → lookup j (insert k b bs) ≡ (if k == j then some b else lookup j bs)
unfolding lookup insert
lookup-insert k j b [] = refl
lookup-insert k j b ((i, c) ∷ bs) =
    ground (arith, eq_iff k j, eq_iff i k, eq_iff i j, lookup-insert k j b bs)

pub any-insert :
    (k j : String) (b : Bucket) (bs : BucketMap)
    → (k == j) ≡ false
    → any (λ e. key_of e == j) (insert k b bs) ≡ any (λ e. key_of e == j) bs
unfolding insert
any-insert k j b [] h = rw h refl
any-insert k j b ((i, c) ∷ bs) h =
    ground (arith, eq_iff i k, eq_iff i j, eq_iff k j, any-insert k j b bs h)

pub insert-IsMap : (k : String) (b : Bucket) (bs : BucketMap) → IsMap bs → IsMap (insert k b bs)
unfolding insert
insert-IsMap k b [] h = (refl, tt)
insert-IsMap k b ((i, c) ∷ bs) h =
    ground (arith, eq_iff i k, eq_iff k i, any-insert k i b bs, insert-IsMap k b bs h.1)
