-- ===== src/Base/Text.antt =====
-- Go strings as the lists of their characters, and the functions of strings and strconv that the code uses.
use Prim.Native.Nat.{ℕ, zero, suc, ◌+◌, ◌-◌, ◌*◌, ◌/◌, ◌%◌}
use Prim.Native.Char.{code}
use Prim.Native.String.{String}
use mathlib.Core.Path.{◌≡◌, refl}
use mathlib.Core.Logic.{◌↔◌, inl, inr}
use mathlib.Core.Bool.{Bool, true, false, ◌&&◌, ◌||◌}
use mathlib.Core.Option.{Option, none, some}
use mathlib.Core.List.{List, [], ◌∷◌, ◌++◌, reverse}
use native.Mathlib.Omega.{arith}
use warpbox.Base.Tests.{ltb, leb, ◌==◌, if◌then◌else◌, Bool-cases}
use warpbox.Base.Int.{ℤ, pos, negsuc, sub_ℕ, IsInt64}

abbrev pub Text : Type 0
Text = List ℕ

-- The characters of a literal.
abbrev pub codes : String → Text
codes String.[] = []
codes (String.◌∷◌ c s) = code c ∷ codes s

unfoldable pub text_eq : Text → Text → Bool
text_eq [] [] = true
text_eq [] (d ∷ t) = false
text_eq (c ∷ s) [] = false
text_eq (c ∷ s) (d ∷ t) = (c == d) && text_eq s t

pub text_eq_sound : (s t : Text) → text_eq s t ≡ true → s ≡ t
unfolding text_eq
text_eq_sound [] [] h = refl
text_eq_sound [] (d ∷ t) h = ground arith
text_eq_sound (c ∷ s) [] h = ground arith
text_eq_sound (c ∷ s) (d ∷ t) h = ground (arith, text_eq_sound s t)

pub text_eq_refl : (s : Text) → text_eq s s ≡ true
unfolding text_eq
text_eq_refl [] = refl
text_eq_refl (c ∷ s) = ground (arith, text_eq_refl s)

pub text_eq_iff : (s t : Text) → (text_eq s t ≡ true) ↔ (s ≡ t)
text_eq_iff s t = (text_eq_sound s t, λ e. ground (arith, text_eq_refl s))

-- strings.IndexByte
unfoldable pub index_byte : Text → ℕ → Option ℕ
index_byte [] b = none
index_byte (c ∷ s) b =
    if c == b then some 0 else elim (index_byte s b) [ none ↦ none | some i ↦ some (suc i) ]

-- strings.LastIndexByte
unfoldable pub last_index_byte : Text → ℕ → Option ℕ
last_index_byte [] b = none
last_index_byte (c ∷ s) b = elim (last_index_byte s b) [
  | none ↦ if c == b then some 0 else none
  | some i ↦ some (suc i)
]

-- strings.HasPrefix
unfoldable pub has_prefix : Text → Text → Bool
has_prefix s [] = true
has_prefix [] (p ∷ ps) = false
has_prefix (c ∷ s) (p ∷ ps) = (c == p) && has_prefix s ps

-- unicode.ToLower where the result is ASCII: the code compares its results with ASCII words alone.
abbrev lower : ℕ → ℕ
lower c =
    if leb b'A' c && leb c b'Z'
    then c + 32
    else if c == 0x130
    then b'i'
    else if c == 0x212a
    then b'k'
    else c

-- strings.ToLower
unfoldable pub to_lower : Text → Text
to_lower [] = []
to_lower (c ∷ s) = lower c ∷ to_lower s

-- strings.TrimPrefix
unfoldable pub trim_prefix : Text → Text → Text
unfolding has_prefix
trim_prefix s p = if has_prefix s p then go s p else s
  where
    go : Text → Text → Text
    go s [] = s
    go [] (p ∷ ps) = []
    go (c ∷ s) (p ∷ ps) = go s ps

-- strings.Contains
unfoldable pub contains : Text → Text → Bool
unfolding has_prefix
contains [] sub = has_prefix [] sub
contains (c ∷ s) sub = has_prefix (c ∷ s) sub || contains s sub

-- strings.Index, past `n` characters
unfoldable pub index_from : ℕ → Text → Text → Option ℕ
unfolding has_prefix
index_from n [] sub = if has_prefix [] sub then some n else none
index_from n (c ∷ s) sub = if has_prefix (c ∷ s) sub then some n else index_from (suc n) s sub

-- unicode.IsSpace
unfoldable pub is_space : ℕ → Bool
is_space c =
    (leb 9 c && leb c 13)
    || (c == 32)
    || (c == 0x85)
    || (c == 0xa0)
    || (c == 0x1680)
    || (leb 0x2000 c && leb c 0x200a)
    || (c == 0x2028)
    || (c == 0x2029)
    || (c == 0x202f)
    || (c == 0x205f)
    || (c == 0x3000)

unfoldable pub trim_left : Text → Text
unfolding is_space
trim_left [] = []
trim_left (c ∷ s) = let rest = trim_left s in if is_space c then rest else c ∷ s

-- strings.TrimSpace
unfoldable pub trim_space : Text → Text
unfolding trim_left
trim_space s = reverse (trim_left (reverse (trim_left s)))

-- The decimal digits of a number, behind `n`.
unfoldable pub parse_digits : ℕ → Text → Option ℕ
parse_digits n [] = some n
parse_digits n (c ∷ s) =
    if leb b'0' c && leb c b'9' then parse_digits (n * 10 + (c - b'0')) s else none

-- One digit at least.
unfoldable pub parse_magnitude : Text → Option ℕ
unfolding parse_digits
parse_magnitude [] = none
parse_magnitude (c ∷ s) = parse_digits 0 (c ∷ s)

abbrev pub signed : Bool → Option ℕ → Option ℤ
signed negative none = none
signed false (some n) = if ltb n 9223372036854775808 then some (pos n) else none
signed true (some n) = if leb n 9223372036854775808 then some (sub_ℕ 0 n) else none

-- strconv.ParseInt(s, 10, 64); strconv.Atoi on a 64-bit machine
unfoldable pub parse_int : Text → Option ℤ
unfolding parse_magnitude
parse_int [] = none
parse_int (c ∷ s) =
    if c == b'-'
    then signed true (parse_magnitude s)
    else if c == b'+'
    then signed false (parse_magnitude s)
    else signed false (parse_magnitude (c ∷ s))

signed-IsInt64 : (negative : Bool) (o : Option ℕ) (z : ℤ) → signed negative o ≡ some z → IsInt64 z
signed-IsInt64 negative none z e = cc
signed-IsInt64 false (some n) (pos m) e = ground arith
signed-IsInt64 false (some n) (negsuc m) e = ground arith
signed-IsInt64 true (some n) (pos m) e = ground arith
signed-IsInt64 true (some n) (negsuc m) e = ground arith

pub parse_int-IsInt64 : (s : Text) (z : ℤ) → parse_int s ≡ some z → IsInt64 z
unfolding parse_int
parse_int-IsInt64 [] z e = cc
parse_int-IsInt64 (c ∷ s) z e = elim (Bool-cases (c == b'-')) [
  | inl minus ↦ signed-IsInt64 true (parse_magnitude s) z (rw (minus, parse_int) at e)
  | inr other ↦ elim (Bool-cases (c == b'+')) [
    | inl plus ↦ signed-IsInt64 false (parse_magnitude s) z (rw (other, plus, parse_int) at e)
    | inr digit ↦
        signed-IsInt64 false (parse_magnitude (c ∷ s)) z (rw (other, digit, parse_int) at e)
  ]
]

-- The decimal digits of `n` in front of `rest`; the fuel is at least the number of digits.
unfoldable pub digits_onto : ℕ → ℕ → Text → Text
digits_onto zero n rest = rest
digits_onto (suc fuel) n rest =
    let more = digits_onto fuel (n / 10) ((b'0' + n % 10) ∷ rest) in
    if ltb n 10 then (b'0' + n) ∷ rest else more

-- strconv.FormatInt(z, 10) of an int64, which has 19 digits at most
unfoldable pub format_int : ℤ → Text
unfolding digits_onto
format_int (pos n) = digits_onto 20 n []
format_int (negsuc n) = b'-' ∷ digits_onto 20 (suc n) []

-- A text that contains `sub` still does behind a prefix.
pub contains-append : (r s sub : Text) → contains s sub ≡ true → contains (r ++ s) sub ≡ true
unfolding contains
contains-append [] s sub h = h
contains-append (c ∷ r) s sub h = ground (arith, contains-append r s sub h)
