-- ===== src/Strings.antt =====
-- What the program uses of Go's packages `strings` and `strconv`, on texts of Unicode characters.
use Prim.Native.Char.{code}
use Prim.Native.String
use Prim.Native.String.{String, [], ◌∷◌}
use slashclaw.Prelude.{
  ℕ, ◌+◌, ◌-◌, ◌*◌, Bool, true, false, ◌&&◌, ◌||◌, Option, none, some, ℤ, pos, sub_ℕ, leb, nat_eq,
  ◌==◌, if◌then◌else◌,
}

abbrev pub cat : String → String → String
cat s t = String.◌++◌ s t

-- `unicode.IsSpace`
unfoldable pub is_space : ℕ → Bool
is_space c =
    (leb 9 c && leb c 13)
    || nat_eq c 32
    || nat_eq c 0x85
    || nat_eq c 0xa0
    || nat_eq c 0x1680
    || (leb 0x2000 c && leb c 0x200a)
    || nat_eq c 0x2028
    || nat_eq c 0x2029
    || nat_eq c 0x202f
    || nat_eq c 0x205f
    || nat_eq c 0x3000

unfoldable pub trim_left : String → String
unfolding is_space
trim_left [] = []
trim_left (c ∷ s) = let rest = trim_left s in if is_space (code c) then rest else c ∷ s

unfoldable pub trim_right : String → String
unfolding is_space
trim_right [] = []
trim_right (c ∷ s) =
    let rest = trim_right s in if is_space (code c) && rest == "" then [] else c ∷ rest

-- `strings.TrimSpace`
unfoldable pub trim_space : String → String
unfolding trim_left trim_right
trim_space s = trim_right (trim_left s)

-- `strings.Split(s, sep)[0]` for a separator of one character
unfoldable pub before_first : ℕ → String → String
before_first sep [] = []
before_first sep (c ∷ s) =
    let rest = before_first sep s in if nat_eq (code c) sep then [] else c ∷ rest

-- `s[:strings.LastIndex(s, sep)]`, if the separator occurs
unfoldable pub before_last : ℕ → String → Option String
before_last sep [] = none
before_last sep (c ∷ s) = elim (before_last sep s) [
  | some t ↦ some (c ∷ t)
  | none ↦ if nat_eq (code c) sep then some [] else none
]

-- `strings.TrimPrefix(s, prefix)`, if `strings.HasPrefix(s, prefix)`
unfoldable pub cut_prefix : String → String → Option String
cut_prefix [] s = some s
cut_prefix (p ∷ ps) [] = none
cut_prefix (p ∷ ps) (c ∷ s) =
    let rest = cut_prefix ps s in if nat_eq (code p) (code c) then rest else none

unfoldable pub is_some : Option String → Bool
is_some none = false
is_some (some s) = true

-- `strings.Contains(s, part)`
unfoldable pub contains : String → String → Bool
unfolding cut_prefix is_some
contains [] part = is_some (cut_prefix part [])
contains (c ∷ s) part = is_some (cut_prefix part (c ∷ s)) || contains s part

-- the digits of a decimal numeral, at least one
unfoldable pub digits : ℕ → String → Option ℕ
digits n [] = some n
digits n (c ∷ s) =
    let rest = digits (n * 10 + (code c - b'0')) s in
    if leb b'0' (code c) && leb (code c) b'9' then rest else none

unfoldable pub numeral : String → Option ℕ
unfolding digits
numeral [] = none
numeral (c ∷ s) = digits 0 (c ∷ s)

unfoldable pub at_most : ℕ → (ℕ → ℤ) → Option ℕ → Option ℤ
at_most bound f none = none
at_most bound f (some n) = if leb n bound then some (f n) else none

-- `strconv.Atoi` on a 64-bit machine; `none` is its error
unfoldable pub atoi : String → Option ℤ
unfolding numeral at_most
atoi [] = none
atoi (c ∷ s) =
    if nat_eq (code c) b'-'
    then at_most 9223372036854775808 (sub_ℕ 0) (numeral s)
    else if nat_eq (code c) b'+'
    then at_most 9223372036854775807 pos (numeral s)
    else at_most 9223372036854775807 pos (numeral (c ∷ s))
