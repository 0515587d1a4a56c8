-- ===== src/Server/Range/Bounds.antt =====
-- Where the bytes of a parsed range lie.
use warpbox.Base.{
  ℕ, zero, suc, ◌+◌, ◌-◌, ◌≤◌, ◌<◌, ◌≡◌, refl, sym, ◌∙◌, subst, ◌||◌, true, false, Option, some, [],
  ◌∷◌, arith, Bool-cases, Option-cases, inl, inr,
}
use warpbox.Base.Int.{ℤ, pos, negsuc, lt_int, le_int, ◌+ℤ◌, ◌-ℤ◌, ◌≤ℤ◌, ◌<ℤ◌, IsInt64}
use warpbox.Base.Text.{
  Text, codes, has_prefix, trim_prefix, index_byte, parse_int, parse_int-IsInt64,
}
use warpbox.Server.Range.{
  HttpRange, sub64, range_between, suffix_range, bounded_range, range_from, range_of, parse_range,
}

-- The range lies within a file of `n` bytes, and its length counts its bytes.
abbrev pub IsWithin : ℕ → HttpRange → Type 0
IsWithin n h =
    (pos 0 ≤ℤ h.start)
    × (h.start ≤ℤ h.end)
    × (h.end <ℤ pos n)
    × (h.length ≡ (h.end -ℤ h.start) +ℤ pos 1)

sub64_pos : (a b : ℕ) → b ≤ a → a < 9223372036854775808 → sub64 (pos a) (pos b) ≡ pos (a - b)
sub64_pos a b le small = ground arith

range_between-length :
    (a b : ℕ)
    → a ≤ b
    → b + 1 < 9223372036854775808
    → (range_between (pos a) (pos b)).length ≡ pos (b - a + 1)
range_between-length a b le small = rw (sub64_pos b a le (omega arith)) (ground arith)

range_between-IsWithin :
    (n a b : ℕ)
    → a ≤ b
    → b < n
    → n < 9223372036854775808
    → IsWithin n (range_between (pos a) (pos b))
range_between-IsWithin n a b le lt small = (
  omega arith,
  omega arith,
  omega arith,
  range_between-length a b le (omega arith) ∙ ground arith,
)

-- A suffix of n + m bytes, and one byte and more too far: the length is not positive.
beyond_end :
    (n m : ℕ)
    → n < 9223372036854775808
    → m < 9223372036854775808
    → (range_between (sub64 (pos n) (negsuc m)) (sub64 (pos n) (pos 1))).length ≤ℤ pos 0
beyond_end n m small hm = ground arith

last_byte : (n : ℕ) → n < 9223372036854775808 → sub64 (pos (suc n)) (pos 1) ≡ pos n
last_byte n small = ground arith

suffix_range-whole :
    (size suffix : ℤ)
    → le_int size suffix ≡ true
    → suffix_range size suffix ≡ range_between (pos 0) (sub64 size (pos 1))
unfolding suffix_range
suffix_range-whole size suffix whole = rw (whole, suffix_range) refl

suffix_range-part :
    (size suffix : ℤ)
    → le_int size suffix ≡ false
    → suffix_range size suffix ≡ range_between (sub64 size suffix) (sub64 size (pos 1))
unfolding suffix_range
suffix_range-part size suffix part = rw (part, suffix_range) refl

-- The last m + 1 bytes of n + 1, with m below n.
suffix_part-IsWithin :
    (n m : ℕ)
    → m < suc n
    → suc n < 9223372036854775808
    → pos 1 ≤ℤ (range_between (sub64 (pos (suc n)) (pos m)) (sub64 (pos (suc n)) (pos 1))).length
    → IsWithin (suc n) (range_between (sub64 (pos (suc n)) (pos m)) (sub64 (pos (suc n)) (pos 1)))
suffix_part-IsWithin n zero lt small long = ground arith
suffix_part-IsWithin n (suc m) lt small long =
    rw (last_byte n (omega arith), sub64_pos (suc n) (suc m) (omega arith) small)
      (range_between-IsWithin (suc n) (suc n - suc m) n (omega arith) (omega arith) small)

suffix_range-IsWithin :
    (n : ℕ) (suffix : ℤ)
    → n < 9223372036854775808
    → IsInt64 suffix
    → pos 1 ≤ℤ (suffix_range (pos n) suffix).length
    → IsWithin n (suffix_range (pos n) suffix)
suffix_range-IsWithin zero (pos m) small h long =
    let long' = rw (suffix_range-whole (pos zero) (pos m) (ground arith)) at long in
    absurd (omega arith)
suffix_range-IsWithin (suc n) (pos m) small h long =
    elim (Bool-cases (le_int (pos (suc n)) (pos m))) [
      | inl whole ↦
          rw (suffix_range-whole (pos (suc n)) (pos m) whole, last_byte n (omega arith))
            (range_between-IsWithin (suc n) 0 n (omega arith) (omega arith) small)
      | inr part ↦
          let long' = rw (suffix_range-part (pos (suc n)) (pos m) part) at long in
          rw (suffix_range-part (pos (suc n)) (pos m) part)
            (suffix_part-IsWithin n m (ground arith) small long')
    ]
suffix_range-IsWithin n (negsuc m) small (h, h') long =
    let over = beyond_end n m small (omega arith) in
    let long' = rw (suffix_range-part (pos n) (negsuc m) (ground arith)) at long in
    absurd (omega arith)

inside_bounds :
    (n : ℕ) (start end : ℤ)
    → (lt_int end start || lt_int start (pos 0) || le_int (pos n) end) ≡ false
    → n < 9223372036854775808
    → IsWithin n (range_between start end)
inside_bounds n (pos a) (pos b) e small =
    range_between-IsWithin n a b (ground arith) (ground arith) small
inside_bounds n (pos a) (negsuc b) e small = absurd (ground arith)
inside_bounds n (negsuc a) end e small = absurd (ground arith)

bounded_range-IsWithin :
    (n : ℕ) (start end : ℤ) (h : HttpRange)
    → n < 9223372036854775808
    → bounded_range (pos n) start end ≡ some h
    → IsWithin n h
unfolding bounded_range
bounded_range-IsWithin n start end h small e =
    elim (Bool-cases (lt_int end start || lt_int start (pos 0) || le_int (pos n) end)) [
      | inl out ↦ let e' = rw (out, bounded_range) at e in cc
      | inr within ↦
          let e' : ◌≡◌ {A = Option HttpRange} (some (range_between start end)) (some h) =
            rw (within, bounded_range) at e in
          let same : range_between start end ≡ h = cc in
          subst (IsWithin n) same (inside_bounds n start end within small)
    ]

range_from-IsWithin :
    (n : ℕ) (start : ℤ) (b : Text) (h : HttpRange)
    → n < 9223372036854775808
    → range_from (pos n) start b ≡ some h
    → IsWithin n h
unfolding range_from
range_from-IsWithin n start [] h small e =
    bounded_range-IsWithin n start (sub64 (pos n) (pos 1)) h small e
range_from-IsWithin n start (c ∷ b) h small e = elim (Option-cases (parse_int (c ∷ b))) [
  | inl bad ↦ let e' = rw (bad, range_from) at e in cc
  | inr (end, good) ↦ bounded_range-IsWithin n start end h small (rw (good, range_from) at e)
]

range_of-IsWithin :
    (n : ℕ) (a b : Text) (h : HttpRange)
    → n < 9223372036854775808
    → range_of (pos n) a b ≡ some h
    → pos 1 ≤ℤ h.length
    → IsWithin n h
unfolding range_of
range_of-IsWithin n [] b h small e long = elim (Option-cases (parse_int b)) [
  | inl bad ↦ let e' = rw (bad, range_of) at e in cc
  | inr (suffix, good) ↦
      let e' : ◌≡◌ {A = Option HttpRange} (some (suffix_range (pos n) suffix)) (some h) =
        rw (good, range_of) at e in
      let same : suffix_range (pos n) suffix ≡ h = cc in
      subst (IsWithin n) same (
        suffix_range-IsWithin n suffix small (parse_int-IsInt64 b suffix good)
          (subst (λ r. pos 1 ≤ℤ r.length) (sym same) long))
]
range_of-IsWithin n (c ∷ a) b h small e long = elim (Option-cases (parse_int (c ∷ a))) [
  | inl bad ↦ let e' = rw (bad, range_of) at e in cc
  | inr (start, good) ↦ range_from-IsWithin n start b h small (rw (good, range_of) at e)
]

-- A range that parse_range accepts for a file of n bytes and that is not empty lies within the file,
-- and its length is the number of its bytes.
pub parse_range-IsWithin :
    (rang : Text) (n : ℕ) (h : HttpRange)
    → n < 9223372036854775808
    → parse_range rang (pos n) ≡ some h
    → pos 1 ≤ℤ h.length
    → IsWithin n h
unfolding parse_range
parse_range-IsWithin rang n h small e long = elim (Bool-cases (has_prefix rang (codes "bytes="))) [
  | inr other ↦ let e' = rw (other, parse_range) at e in cc
  | inl bytes ↦ elim (Option-cases (index_byte (trim_prefix rang (codes "bytes=")) b'-')) [
    | inl whole ↦ let e' = rw (bytes, whole, parse_range) at e in cc
    | inr (i, dash) ↦ range_of-IsWithin n _ _ h small (rw (bytes, dash, parse_range) at e) long
  ]
]
