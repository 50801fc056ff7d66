-- ===== src/Web/Numerals.antt =====
-- The text that `FormatScore` prints: the numeral of a score, and the words beside it.
use Prim.Native.Char.{Char, code}
use Prim.Native.String.append
use Prim.Native.String.{String}
use text.Mathlib.TextLemmas.{append-nil, append_assoc}
use slashclaw.Prelude.{
  ℕ, suc, ◌+◌, ◌*◌, ◌/◌, ◌%◌, ◌<◌, ◌≡◌, refl, ◌∙◌, ap, true, false, ltb, leb, nat_eq, eq_ℤ, ◌||◌,
  sub_ℕ, ℤ, pos, negsuc, pos_part, neg_part, ◌≤◌, some, Bool-cases, inl, inr, arith,
}
use slashclaw.Strings.{cat, digits, numeral, at_most, atoi}
use slashclaw.Web.{digit, decimal, itoa, format_score}
use slashclaw.Web.Digits.{tens, weight, digit-IsDigit, append-digit, digits-decimal}

-- A numeral has a digit.
numeral-digit :
    (d : ℕ) (t : String) → ltb d 10 ≡ true → numeral (cat (digit d) t) ≡ digits 0 (cat (digit d) t)
unfolding numeral
numeral-digit d t h = let (c, same, coded) = digit-IsDigit d h in rw (same, append-digit c t) refl

numeral-append :
    (s : String) (d : ℕ) (t : String)
    → ltb d 10 ≡ true
    → numeral (cat s (cat (digit d) t)) ≡ digits 0 (cat s (cat (digit d) t))
unfolding numeral
numeral-append String.[] d t h = rw (append.nil (cat (digit d) t)) (numeral-digit d t h)
numeral-append (String.◌∷◌ c s) d t h = rw (append.cons c s (cat (digit d) t)) refl

numeral-decimal :
    (f n : ℕ) (t : String)
    → numeral (cat (decimal (suc f) n) t) ≡ digits 0 (cat (decimal (suc f) n) t)
unfolding decimal
numeral-decimal f n t = elim (Bool-cases (ltb n 10)) [
  | inl small ↦ rw small (numeral-digit n t small)
  | inr large ↦
      let low : ltb (n % 10) 10 ≡ true = ground arith in
      rw (large, append_assoc (decimal f (n / 10)) (digit (n % 10)) t)
        (numeral-append (decimal f (n / 10)) (n % 10) t low)
]

from_zero : (w n : ℕ) → 0 * w + n ≡ n
from_zero w n = omega arith

-- Enough fuel gives a numeral of the number.
read_decimal : (f n : ℕ) → n < tens (suc f) → numeral (cat (decimal (suc f) n) "") ≡ some n
unfolding digits
read_decimal f n h =
    numeral-decimal f n ""
    ∙ (digits-decimal (suc f) n 0 "" h ∙ ap some (from_zero (weight (suc f) n) n))

-- What a numeral without a sign reads as.
no_sign :
    (c : Char) (s : String) (n : ℕ)
    → numeral (String.◌∷◌ c s) ≡ some n
    → (nat_eq (code c) b'-' ≡ false) × (nat_eq (code c) b'+' ≡ false)
unfolding numeral digits
no_sign c s n e = (ground arith, ground arith)

atoi_unsigned :
    (s : String) (n : ℕ)
    → numeral s ≡ some n
    → leb n 9223372036854775807 ≡ true
    → atoi s ≡ some (pos n)
unfolding atoi numeral at_most
atoi_unsigned String.[] n e h = cc
atoi_unsigned (String.◌∷◌ c s) n e h =
    let (minus, plus) = no_sign c s n e in rw (minus, plus, e, h) refl

itoa-pos : (n : ℕ) → itoa (pos n) ≡ decimal 20 n
unfolding itoa
itoa-pos n = refl

itoa-negsuc : (n : ℕ) → itoa (negsuc n) ≡ cat "-" (decimal 20 (suc n))
unfolding itoa
itoa-negsuc n = refl

zero-sub_ℕ : (n : ℕ) → sub_ℕ 0 (suc n) ≡ negsuc n
zero-sub_ℕ n = ground arith

atoi_minus :
    (s : String) (n : ℕ)
    → numeral s ≡ some (suc n)
    → leb (suc n) 9223372036854775808 ≡ true
    → atoi (String.◌∷◌ "-" s) ≡ some (negsuc n)
unfolding atoi at_most
atoi_minus s n e h = rw (e, h, zero-sub_ℕ n) refl

pub atoi-itoa :
    (x : ℤ)
    → pos_part x ≤ 9223372036854775807
    → neg_part x ≤ 9223372036854775808
    → atoi (itoa x) ≡ some x
atoi-itoa (pos n) h k =
    rw (itoa-pos n, ← append-nil (decimal 20 n))
      (atoi_unsigned (cat (decimal 20 n) "") n (read_decimal 19 n (omega arith)) (ground arith))
atoi-itoa (negsuc n) h k =
    rw
      (
        itoa-negsuc n,
        ← append-nil (decimal 20 (suc n)),
        append-digit "-" (cat (decimal 20 (suc n)) ""),
      )
      (atoi_minus (cat (decimal 20 (suc n)) "") n (read_decimal 19 (suc n) (omega arith))
        (ground arith))

one_point : (x : ℤ) → (eq_ℤ x (pos 1) || eq_ℤ x (negsuc 0)) ≡ true → pos_part x + neg_part x ≡ 1
one_point (pos n) h = ground arith
one_point (negsuc n) h = ground arith

more_points :
    (x : ℤ) → (eq_ℤ x (pos 1) || eq_ℤ x (negsuc 0)) ≡ false → pos_part x + neg_part x ≡ 1 → ⊥
more_points (pos n) h e = ground arith
more_points (negsuc n) h e = ground arith

-- For a score in the range of a 64-bit `int`, FormatScore gives a text that strconv.Atoi reads as the
-- score, followed by " point" if the score is 1 or -1, its absolute value being 1, and by " points"
-- for any other.
pub format_score_lem :
    (score : ℤ)
    → pos_part score ≤ 9223372036854775807
    → neg_part score ≤ 9223372036854775808
    → (text : String) × (atoi text ≡ some score)
      × (pos_part score + neg_part score ≡ 1 → format_score score ≡ cat text " point")
      × ((pos_part score + neg_part score ≡ 1 → ⊥) → format_score score ≡ cat text " points")
unfolding format_score
format_score_lem score h k = elim (Bool-cases (eq_ℤ score (pos 1) || eq_ℤ score (negsuc 0))) [
  | inl one ↦ (
    itoa score,
    atoi-itoa score h k,
    λ _. rw one refl,
    λ other. absurd (other (one_point score one)),
  )
  | inr more ↦ (
    itoa score,
    atoi-itoa score h k,
    λ single. absurd (more_points score more single),
    λ _. rw more refl,
  )
]
