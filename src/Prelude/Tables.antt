-- ===== src/Prelude/Tables.antt =====
-- Laws of `WHERE`, `UPDATE` and insertion at the end, and keys that are distinct.
use Prim.Native.String.{String}
use mathlib.Core.Path.{◌≡◌, refl, subst}
use mathlib.Core.Logic.{◌⊎◌, inl, inr}
use mathlib.Core.Bool.{Bool, true, false, ◌||◌}
use mathlib.Core.Option.{some}
use mathlib.Core.List.{List, [], ◌∷◌, ◌++◌}
use native.Mathlib.Omega.{arith}
use text.Mathlib.Text.{◌==◌}
use text.Mathlib.TextEquality.{eq_iff}
use slashclaw.Prelude.Tests.{Bool-cases}
use slashclaw.Prelude.Lists.{select, update, any, first, All, All-append}

module _ {A : Type 0} where
  -- Membership, by recursion.
  abbrev pub IsIn : A → List A → Type 0
  IsIn a [] = ⊥
  IsIn a (x ∷ xs) = (x ≡ a) ⊎ IsIn a xs

  pub All-IsIn : (P : A → Type 0) (a : A) (xs : List A) → All P xs → IsIn a xs → P a
  All-IsIn P a [] h i = absurd i
  All-IsIn P a (x ∷ xs) h (inl e) = rw (← e) h.0
  All-IsIn P a (x ∷ xs) h (inr i) = All-IsIn P a xs h.1 i

  pub All-of_IsIn : (P : A → Type 0) (xs : List A) → ((a : A) → IsIn a xs → P a) → All P xs
  All-of_IsIn P [] h = tt
  All-of_IsIn P (x ∷ xs) h = (h x (inl refl), All-of_IsIn P xs (λ a i. h a (inr i)))

  pub IsIn-select :
      (p : A → Bool) (a : A) (xs : List A) → IsIn a (select p xs) → IsIn a xs × (p a ≡ true)
  IsIn-select p a [] i = absurd i
  IsIn-select p a (x ∷ xs) i = ground (arith, IsIn-select p a xs)

  pub IsIn-first : (a : A) (xs : List A) → first xs ≡ some a → IsIn a xs
  IsIn-first a [] e = cc
  IsIn-first a (x ∷ xs) e = inl (cc)

  pub any-IsIn : (p : A → Bool) (a : A) (xs : List A) → IsIn a xs → p a ≡ true → any p xs ≡ true
  any-IsIn p a [] i e = absurd i
  any-IsIn p a (x ∷ xs) (inl q) e = rw (q, e) refl
  any-IsIn p a (x ∷ xs) (inr i) e = ground (arith, any-IsIn p a xs i e)

  pub any-append : (p : A → Bool) (xs ys : List A) → any p (xs ++ ys) ≡ (any p xs || any p ys)
  any-append p [] ys = refl
  any-append p (x ∷ xs) ys = ground (arith, any-append p xs ys)

  pub any-update :
      (p q : A → Bool) (f : A → A) (xs : List A)
      → ((x : A) → p (f x) ≡ p x)
      → any p (update q f xs) ≡ any p xs
  any-update p q f [] h = refl
  any-update p q f (x ∷ xs) h = ground (arith, h x, any-update p q f xs h)

  pub All-update :
      (P : A → Type 0) (q : A → Bool) (f : A → A) (xs : List A)
      → ((x : A) → P x → P (f x))
      → All P xs
      → All P (update q f xs)
  All-update P q f [] k h = tt
  All-update P q f (x ∷ xs) k h = elim (Bool-cases (q x)) [
    | inl e ↦ rw e (k x h.0, All-update P q f xs k h.1)
    | inr e ↦ rw e (h.0, All-update P q f xs k h.1)
  ]

  -- Where the test holds the replacement has to earn the property, elsewhere the old row.
  pub All-update_test :
      (P P' : A → Type 0) (q : A → Bool) (f : A → A) (xs : List A)
      → ((x : A) → q x ≡ true → P x → P' (f x))
      → ((x : A) → q x ≡ false → P x → P' x)
      → All P xs
      → All P' (update q f xs)
  All-update_test P P' q f [] k l h = tt
  All-update_test P P' q f (x ∷ xs) k l h = elim (Bool-cases (q x)) [
    | inl e ↦ rw e (k x e h.0, All-update_test P P' q f xs k l h.1)
    | inr e ↦ rw e (l x e h.0, All-update_test P P' q f xs k l h.1)
  ]

  pub All-map : (P P' : A → Type 0) (xs : List A) → ((x : A) → P x → P' x) → All P xs → All P' xs
  All-map P P' [] k h = tt
  All-map P P' (x ∷ xs) k h = (k x h.0, All-map P P' xs k h.1)

  pub All-snoc : (P : A → Type 0) (xs : List A) (x : A) → All P xs → P x → All P (xs ++ x ∷ [])
  All-snoc P xs x h p = All-append P xs (x ∷ []) h (p, tt)

module _ {A : Type 0} (key : A → String) where
  -- No two rows have the same key.
  abbrev pub HasDistinct : List A → Type 0
  HasDistinct [] = Unit
  HasDistinct (x ∷ xs) = (any (λ r. key r == key x) xs ≡ false) × HasDistinct xs

  -- A key that occurs in the rest of the rows is not that of the first.
  pub head_ne :
      (k : String) (x : A) (xs : List A)
      → any (λ r. key r == key x) xs ≡ false
      → any (λ r. key r == k) xs ≡ true
      → (key x == k) ≡ false
  head_ne k x xs fresh there = elim (Bool-cases (key x == k)) [
    | inl same ↦
        let gone =
          subst (λ j. any (λ r. key r == j) xs ≡ false) ((eq_iff (key x) k).0 same) fresh in
        ground arith
    | inr other ↦ other
  ]

  pub HasDistinct-snoc :
      (xs : List A) (x : A)
      → any (λ r. key r == key x) xs ≡ false
      → HasDistinct xs
      → HasDistinct (xs ++ x ∷ [])
  HasDistinct-snoc [] x e h = (refl, tt)
  HasDistinct-snoc (y ∷ ys) x e h = (
    ground (
      arith,
      h.0,
      any-append (λ r. key r == key y) ys (x ∷ []),
      eq_iff (key x) (key y),
      eq_iff (key y) (key x),
    ),
    HasDistinct-snoc ys x (ground arith) h.1,
  )

  pub HasDistinct-update :
      (q : A → Bool) (f : A → A) (xs : List A)
      → ((x : A) → key (f x) ≡ key x)
      → HasDistinct xs
      → HasDistinct (update q f xs)
  HasDistinct-update q f [] k h = tt
  HasDistinct-update q f (x ∷ xs) k h = (
    ground (arith, h.0, k x, any-update (λ r. key r == key x) q f xs (λ y. rw (k y) refl)),
    HasDistinct-update q f xs k h.1,
  )

module _ {A : Type 0} where
  -- A row that a query found shows that there is one.
  pub any-first-select :
      (p : A → Bool) (xs : List A) (a : A) → first (select p xs) ≡ some a → any p xs ≡ true
  any-first-select p xs a e =
      let (i, q) = IsIn-select p a xs (IsIn-first a (select p xs) e) in any-IsIn p a xs i q

  pub any-weaken :
      (p q : A → Bool) (xs : List A)
      → ((x : A) → p x ≡ true → q x ≡ true)
      → any p xs ≡ true
      → any q xs ≡ true
  any-weaken p q [] k h = h
  any-weaken p q (x ∷ xs) k h = ground (arith, k x, any-weaken p q xs k)
