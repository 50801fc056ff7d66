-- ===== src/Web/Digits.antt =====
-- The digits that `strconv.Itoa` prints.
use Prim.Native.Char.{Char, code}
use Prim.Native.String.append
use Prim.Native.String.{String}
use text.Mathlib.TextLemmas.{append_assoc}
use native.Mathlib.Nat.{mul_assoc}
use slashclaw.Prelude.{
  ℕ, zero, suc, ◌+◌, ◌*◌, ◌/◌, ◌%◌, ◌<◌, ◌≡◌, refl, ap, true, ltb, leb, ◌-◌, Bool-cases, inl, inr,
  arith, if◌then◌else◌,
}
use slashclaw.Strings.{cat, digits}
use slashclaw.Web.{digit, decimal}

-- The first number with more digits than the fuel.
abbrev pub tens : ℕ → ℕ
tens zero = 1
tens (suc f) = 10 * tens f

-- The weight of the digits in front of a numeral.
abbrev pub weight : ℕ → ℕ → ℕ
weight zero n = 1
weight (suc f) n = let higher = weight f (n / 10) in if ltb n 10 then 10 else higher * 10

-- A digit is one character, and its code says which.
abbrev IsDigit : ℕ → String → Type 0
IsDigit d s = (c : Char) × (s ≡ String.◌∷◌ c String.[]) × (code c ≡ b'0' + d)

pub digit-IsDigit : (d : ℕ) → ltb d 10 ≡ true → IsDigit d (digit d)
unfolding digit
digit-IsDigit zero h = ("0", refl, refl)
digit-IsDigit (suc zero) h = ("1", refl, refl)
digit-IsDigit (suc (suc zero)) h = ("2", refl, refl)
digit-IsDigit (suc (suc (suc zero))) h = ("3", refl, refl)
digit-IsDigit (suc (suc (suc (suc zero)))) h = ("4", refl, refl)
digit-IsDigit (suc (suc (suc (suc (suc zero))))) h = ("5", refl, refl)
digit-IsDigit (suc (suc (suc (suc (suc (suc zero)))))) h = ("6", refl, refl)
digit-IsDigit (suc (suc (suc (suc (suc (suc (suc zero))))))) h = ("7", refl, refl)
digit-IsDigit (suc (suc (suc (suc (suc (suc (suc (suc zero)))))))) h = ("8", refl, refl)
digit-IsDigit (suc (suc (suc (suc (suc (suc (suc (suc (suc zero))))))))) h = ("9", refl, refl)
digit-IsDigit (suc (suc (suc (suc (suc (suc (suc (suc (suc (suc n)))))))))) h = ground arith

pub append-digit : (c : Char) (t : String) → cat (String.◌∷◌ c String.[]) t ≡ String.◌∷◌ c t
append-digit c t = rw (append.cons c String.[] t, append.nil t) refl

digits-digit :
    (d acc : ℕ) (t : String)
    → ltb d 10 ≡ true
    → digits acc (cat (digit d) t) ≡ digits (acc * 10 + d) t
unfolding digits
digits-digit d acc t h =
    let (c, same, coded) = digit-IsDigit d h in
    let low : leb b'0' (b'0' + d) ≡ true = ground arith in
    let high : leb (b'0' + d) b'9' ≡ true = ground arith in
    let value : b'0' + d - b'0' ≡ d = omega arith in
    rw (same, append-digit c t, coded, low, high, value) refl

smaller : (f n : ℕ) → n < 10 * tens f → n / 10 < tens f
smaller f n h = omega arith

shift : (a w n : ℕ) → (a * w + n / 10) * 10 + n % 10 ≡ a * (w * 10) + n
shift a w n = rw (← mul_assoc a w 10) (omega arith)

pub digits-decimal :
    (f n acc : ℕ) (t : String)
    → n < tens f
    → digits acc (cat (decimal f n) t) ≡ digits (acc * weight f n + n) t
unfolding decimal
digits-decimal zero n acc t h = rw (append.nil t) (ap (λ a. digits a t) (omega arith))
digits-decimal (suc f) n acc t h =
    let rest = digits-decimal f (n / 10) acc (cat (digit (n % 10)) t) (smaller f n h) in
    elim (Bool-cases (ltb n 10)) [
      | inl small ↦ rw small (digits-digit n acc t small)
      | inr large ↦
          let low : ltb (n % 10) 10 ≡ true = ground arith in
          rw
            (
              large,
              append_assoc (decimal f (n / 10)) (digit (n % 10)) t,
              rest,
              digits-digit (n % 10) (acc * weight f (n / 10) + n / 10) t low,
            )
            (ap (λ a. digits a t) (shift acc (weight f (n / 10)) n))
    ]
