-- ===== src/Base/Digits.antt =====
-- strconv: the digits of an int64 read back, and hold no colon.
use Prim.Native.Nat.{ℕ, zero, suc, ◌+◌, ◌*◌, ◌/◌, ◌%◌, ◌≤◌, ◌<◌}
use mathlib.Core.Path.{◌≡◌, refl, ap, ◌∙◌}
use mathlib.Core.Logic.{inl, inr}
use mathlib.Core.Bool.{false}
use mathlib.Core.Option.{some}
use mathlib.Core.List.{[], ◌∷◌}
use native.Mathlib.Omega.{arith}
use warpbox.Base.Tests.{ltb, ltb→lt, lt→ltb, ◌==◌, Bool-cases}
use warpbox.Base.Lists.{All}
use warpbox.Base.Int.{ℤ, pos, negsuc, IsInt64}
use warpbox.Base.Text.{
  Text, parse_digits, parse_magnitude, signed, parse_int, digits_onto, format_int,
}

abbrev pow10 : ℕ → ℕ
pow10 zero = 1
pow10 (suc f) = 10 * pow10 f

parse_digits-digits_onto :
    (fuel n : ℕ) (rest : Text)
    → n < pow10 fuel
    → parse_digits 0 (digits_onto fuel n rest) ≡ parse_digits n rest
unfolding parse_digits digits_onto
parse_digits-digits_onto zero n rest h = ap (λ m. parse_digits m rest) (omega arith)
parse_digits-digits_onto (suc fuel) n rest h = elim (Bool-cases (ltb n 10)) [
  | inl one ↦ ground arith
  | inr more ↦
      let ih = parse_digits-digits_onto fuel (n / 10) ((b'0' + n % 10) ∷ rest) (omega arith) in
      ground arith
]

-- The digits start with a digit.
digits_head :
    (fuel n : ℕ) (rest : Text)
    → (c : ℕ) × (s : Text) × (digits_onto (suc fuel) n rest ≡ c ∷ s) × (b'0' ≤ c) × (c ≤ b'9')
unfolding digits_onto
digits_head zero n rest = elim (Bool-cases (ltb n 10)) [
  | inl one ↦ (b'0' + n, rest, rw one refl, omega arith, omega (arith, ltb→lt n 10 one))
  | inr more ↦ (b'0' + n % 10, rest, rw more refl, omega arith, omega arith)
]
digits_head (suc fuel) n rest = elim (Bool-cases (ltb n 10)) [
  | inl one ↦ (b'0' + n, rest, rw one refl, omega arith, omega (arith, ltb→lt n 10 one))
  | inr more ↦
      let (c, s, e, low, high) = digits_head fuel (n / 10) ((b'0' + n % 10) ∷ rest) in
      (c, s, rw more e, low, high)
]

no_colon_digits :
    (fuel n : ℕ) (rest : Text)
    → All (λ c. (c == b':') ≡ false) rest
    → All (λ c. (c == b':') ≡ false) (digits_onto fuel n rest)
unfolding digits_onto
no_colon_digits zero n rest h = h
no_colon_digits (suc fuel) n rest h = elim (Bool-cases (ltb n 10)) [
  | inl one ↦ rw one (ground (arith, ltb→lt n 10 one), h)
  | inr more ↦ rw more (no_colon_digits fuel (n / 10) ((b'0' + n % 10) ∷ rest) (ground arith, h))
]

-- A colon does not stand in an int64.
pub format_int_no_colon : (z : ℤ) → All (λ c. (c == b':') ≡ false) (format_int z)
unfolding format_int
format_int_no_colon (pos n) = no_colon_digits 20 n [] tt
format_int_no_colon (negsuc n) = (refl, no_colon_digits 20 (suc n) [] tt)

magnitude-digits : (n : ℕ) → n < pow10 20 → parse_magnitude (digits_onto 20 n []) ≡ some n
unfolding parse_magnitude parse_digits
magnitude-digits n h =
    let (c, s, e, low, high) = digits_head 19 n [] in
    let whole = parse_digits-digits_onto 20 n [] h in rw e (rw e at whole)

parse_int_digit :
    (c : ℕ) (s : Text) → b'0' ≤ c → parse_int (c ∷ s) ≡ signed false (parse_magnitude (c ∷ s))
unfolding parse_int
parse_int_digit c s low =
    let no_minus : (c == b'-') ≡ false = ground arith in
    let no_plus : (c == b'+') ≡ false = ground arith in rw (no_minus, no_plus) refl

small-signed : (n : ℕ) → n < 9223372036854775808 → signed false (some n) ≡ some (pos n)
small-signed n h = rw (lt→ltb n 9223372036854775808 h) refl

-- Reading back what FormatInt writes gives the same int64.
pub parse_int-format_int : (z : ℤ) → IsInt64 z → parse_int (format_int z) ≡ some z
unfolding format_int parse_int
parse_int-format_int (pos n) h =
    let (c, s, e, low, high) = digits_head 19 n [] in
    let read = magnitude-digits n (omega arith) in
    rw e
      (parse_int_digit c s low ∙ (ap (signed false) (rw e at read) ∙ small-signed n (omega arith)))
parse_int-format_int (negsuc n) h =
    let read = magnitude-digits (suc n) (omega arith) in rw read (ground arith)
