-- ===== src/Prelude/Perms.antt =====
-- What a selection, a map and a permutation of a list keep.
use Prim.Native.String.{String}
use mathlib.Core.Path.{◌≡◌, refl, sym, ap, subst, ◌∙◌}
use mathlib.Core.Logic.{inl, inr}
use mathlib.Core.Bool.{Bool, false}
use mathlib.Core.List.Permᴰ
use mathlib.Core.List.{List, [], ◌∷◌, map, Permᴰ}
use native.Mathlib.Omega.{arith}
use text.Mathlib.Text.{◌==◌}
use text.Mathlib.TextEquality.{eq_iff}
use slashclaw.Prelude.Lists.{any, select, All, length}
use slashclaw.Prelude.Tests.{Bool-cases}
use slashclaw.Prelude.Tables.{IsIn, HasDistinct, All-IsIn, All-of_IsIn}

pub any-select-false :
    {A : Type 0} (p q : A → Bool) (xs : List A) → any p xs ≡ false → any p (select q xs) ≡ false
any-select-false p q [] h = refl
any-select-false p q (x ∷ xs) h = ground (arith, any-select-false p q xs)

pub HasDistinct-select :
    {A : Type 0} (key : A → String) (q : A → Bool) (xs : List A)
    → HasDistinct key xs
    → HasDistinct key (select q xs)
HasDistinct-select key q [] h = tt
HasDistinct-select key q (x ∷ xs) h =
    let rest = HasDistinct-select key q xs h.1 in
    elim (Bool-cases (q x)) [ inl e ↦ rw e (any-select-false _ q xs h.0, rest) | inr e ↦ rw e rest ]

module _ {A B : Type 0} (f : A → B) where
  pub any-map : (p : B → Bool) (xs : List A) → any p (map f xs) ≡ any (λ x. p (f x)) xs
  any-map p [] = refl
  any-map p (x ∷ xs) = rw (any-map p xs) refl

  pub HasDistinct-map :
      (key : B → String) (xs : List A)
      → HasDistinct (λ x. key (f x)) xs
      → HasDistinct key (map f xs)
  HasDistinct-map key [] h = tt
  HasDistinct-map key (x ∷ xs) h =
      (any-map (λ r. key r == key (f x)) xs ∙ h.0, HasDistinct-map key xs h.1)

  pub IsIn-of_map : (b : B) (xs : List A) → IsIn b (map f xs) → (a : A) × IsIn a xs × (f a ≡ b)
  IsIn-of_map b [] i = absurd i
  IsIn-of_map b (x ∷ xs) (inl e) = (x, inl refl, e)
  IsIn-of_map b (x ∷ xs) (inr i) = let (a, there, e) = IsIn-of_map b xs i in (a, inr there, e)

  pub Perm-map : {xs ys : List A} → Permᴰ xs ys → Permᴰ (map f xs) (map f ys)
  Perm-map Permᴰ.nil = Permᴰ.nil
  Perm-map (Permᴰ.cons e k) = Permᴰ.cons (ap f e) (Perm-map k)
  Perm-map (Permᴰ.swap e g) = Permᴰ.swap (ap f e) (ap f g)
  Perm-map (Permᴰ.trans k l) = Permᴰ.trans (Perm-map k) (Perm-map l)

module _ {A : Type 0} where
  pub any-Perm : (p : A → Bool) {xs ys : List A} → Permᴰ xs ys → any p xs ≡ any p ys
  any-Perm p Permᴰ.nil = refl
  any-Perm p (Permᴰ.cons e k) = rw (e, any-Perm p k) refl
  any-Perm p (Permᴰ.swap e f) = rw (e, f) (ground arith)
  any-Perm p (Permᴰ.trans k l) = any-Perm p k ∙ any-Perm p l

  pub IsIn-Perm : (a : A) {xs ys : List A} → Permᴰ xs ys → IsIn a xs → IsIn a ys
  IsIn-Perm a Permᴰ.nil i = i
  IsIn-Perm a (Permᴰ.cons e k) (inl q) = inl (sym e ∙ q)
  IsIn-Perm a (Permᴰ.cons e k) (inr i) = inr (IsIn-Perm a k i)
  IsIn-Perm a (Permᴰ.swap e f) (inl q) = inr (inl (sym e ∙ q))
  IsIn-Perm a (Permᴰ.swap e f) (inr (inl q)) = inl (sym f ∙ q)
  IsIn-Perm a (Permᴰ.swap e f) (inr (inr i)) = inr (inr i)
  IsIn-Perm a (Permᴰ.trans k l) i = IsIn-Perm a l (IsIn-Perm a k i)

  pub HasDistinct-Perm :
      (key : A → String) {xs ys : List A} → Permᴰ xs ys → HasDistinct key xs → HasDistinct key ys
  HasDistinct-Perm key Permᴰ.nil h = h
  HasDistinct-Perm key (Permᴰ.cons {a} {b} {l₁} {l₂} e k) h =
      (rw (← e, ← any-Perm (λ r. key r == key a) k) h.0, HasDistinct-Perm key k h.1)
  HasDistinct-Perm key (Permᴰ.swap {a} {b} {a'} {b'} {l} e f) h =
      subst (λ x. HasDistinct key (x ∷ b' ∷ l)) f
        (subst (λ y. HasDistinct key (b ∷ y ∷ l)) e
          (ground (arith, h.0, h.1.0, h.1.1, eq_iff (key a) (key b), eq_iff (key b) (key a))))
  HasDistinct-Perm key (Permᴰ.trans k l) h = HasDistinct-Perm key l (HasDistinct-Perm key k h)

  pub length-Perm : {xs ys : List A} → Permᴰ xs ys → length xs ≡ length ys
  length-Perm Permᴰ.nil = refl
  length-Perm (Permᴰ.cons e k) = omega (arith, length-Perm k)
  length-Perm (Permᴰ.swap e f) = omega arith
  length-Perm (Permᴰ.trans k l) = length-Perm k ∙ length-Perm l

  pub All-Perm : (P : A → Type 0) {xs ys : List A} → Permᴰ xs ys → All P xs → All P ys
  All-Perm P k h = All-of_IsIn P _ (λ a i. All-IsIn P a _ h (IsIn-Perm a (Permᴰ.symm k) i))
