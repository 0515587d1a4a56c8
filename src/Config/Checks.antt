-- ===== src/Config/Checks.antt =====
-- What single checks of a configuration accept, in raw fields that may be left out.
use warpbox.Base.{
  ℕ, ◌≤◌, ◌≡◌, ◌≢◌, refl, ap, ◌↔◌, ◌⊎◌, inl, inr, true, Option, none, some, List, [], ◌∷◌, ◌++◌,
  arith, Bool-cases,
}
use warpbox.Base.Int.{ℤ, pos, negsuc, ◌≤ℤ◌, eq_int, eq_int_sound}
use warpbox.Base.Text.{Text}
use warpbox.Config.Defaults.{or_int, or_nil}
use warpbox.Config.Validate.{
  first_failure, is_within, check_range, check_pointer, check_timeout, prefixed, required,
}

abbrev pub IsRange : ℕ → ℕ → ℤ → Type 0
IsRange lo hi n = (pos lo ≤ℤ n) × (n ≤ℤ pos hi)

-- Zero stands for a field that is left out.
abbrev pub IsGiven : ℕ → ℕ → ℤ → Type 0
IsGiven lo hi n = (n ≡ pos 0) ⊎ IsRange lo hi n

abbrev pub IsPointed : ℕ → ℕ → Option ℤ → Type 0
IsPointed lo hi none = Unit
IsPointed lo hi (some n) = IsRange lo hi n

abbrev pub AllNone : List (Option Text) → Type 0
AllNone [] = Unit
AllNone (check ∷ checks) = (check ≡ none) × AllNone checks

pub first_error_iff : (checks : List (Option Text)) → (first_failure checks ≡ none) ↔ AllNone checks
unfolding first_failure
first_error_iff [] = (λ h. tt, λ h. refl)
first_error_iff (none ∷ checks) =
    (λ h. (refl, (first_error_iff checks).0 h), λ h. (first_error_iff checks).1 h.1)
first_error_iff (some e ∷ checks) = (λ h. absurd cc, λ h. absurd (let no = h.0 in cc))

pub AllNone-append : (xs ys : List (Option Text)) → AllNone (xs ++ ys) ↔ (AllNone xs × AllNone ys)
AllNone-append [] ys = (λ h. (tt, h), λ h. h.1)
AllNone-append (x ∷ xs) ys = (
  λ h. ((h.0, ((AllNone-append xs ys).0 h.1).0), ((AllNone-append xs ys).0 h.1).1),
  λ h. (h.0.0, (AllNone-append xs ys).1 (h.0.1, h.1)),
)

pub is_within_iff : (lo hi : ℕ) (n : ℤ) → (is_within lo hi n ≡ true) ↔ IsRange lo hi n
is_within_iff lo hi (pos n) = ground arith
is_within_iff lo hi (negsuc n) = ground arith

pub check_range_iff :
    (message : Text) (lo hi : ℕ) (n : ℤ) → (check_range message lo hi n ≡ none) ↔ IsRange lo hi n
unfolding check_range
check_range_iff message lo hi n = elim (Bool-cases (is_within lo hi n)) [
  | inl good ↦ (λ h. (is_within_iff lo hi n).0 good, λ h. rw good refl)
  | inr bad ↦ (
    λ h. absurd (let no = (rw (bad, check_range) at h) in cc),
    λ h. absurd (let yes = (is_within_iff lo hi n).1 h in cc),
  )
]

-- A field whose default is in the range.
pub or_int_iff :
    (message : Text) (lo hi d : ℕ) (n : ℤ)
    → lo ≤ d
    → d ≤ hi
    → (check_range message lo hi (or_int (pos d) n) ≡ none) ↔ IsGiven lo hi n
or_int_iff message lo hi d n low high = elim (Bool-cases (eq_int n (pos 0))) [
  | inl zero ↦ (
    λ h. inl (eq_int_sound n (pos 0) zero),
    λ h. rw zero ((check_range_iff message lo hi (pos d)).1 (omega arith, omega arith)),
  )
  | inr set ↦ (
    λ h. inr ((check_range_iff message lo hi n).0 (rw set at h)),
    λ h. elim h [
      | inl zero ↦ absurd (let same = ap (λ m. eq_int m (pos 0)) zero in cc)
      | inr range ↦ rw set ((check_range_iff message lo hi n).1 range)
    ],
  )
]

pub or_nil_iff :
    (message : Text) (lo hi d : ℕ) (n : Option ℤ)
    → lo ≤ d
    → d ≤ hi
    → (check_pointer message lo hi (or_nil (pos d) n) ≡ none) ↔ IsPointed lo hi n
unfolding check_pointer
or_nil_iff message lo hi d none low high =
    (λ h. tt, λ h. (check_range_iff message lo hi (pos d)).1 (omega arith, omega arith))
or_nil_iff message lo hi d (some n) low high = check_range_iff message lo hi n

pub check_timeout_iff : (n : ℤ) → (check_timeout n ≡ none) ↔ IsGiven 30 3600 n
unfolding check_timeout
check_timeout_iff n = elim (Bool-cases (eq_int n (pos 0))) [
  | inl zero ↦ (λ h. inl (eq_int_sound n (pos 0) zero), λ h. rw zero refl)
  | inr set ↦ (
    λ h. inr ((check_range_iff _ 30 3600 n).0 (rw (set, check_timeout) at h)),
    λ h. elim h [
      | inl zero ↦ absurd (let same = ap (λ m. eq_int m (pos 0)) zero in cc)
      | inr range ↦ rw set ((check_range_iff _ 30 3600 n).1 range)
    ],
  )
]

pub prefixed_iff : (prefix : Text) (o : Option Text) → (prefixed prefix o ≡ none) ↔ (o ≡ none)
prefixed_iff prefix none = (λ h. refl, λ h. refl)
prefixed_iff prefix (some e) = (λ h. absurd cc, λ h. absurd cc)

pub required_iff : (message s : Text) → (required message s ≡ none) ↔ (s ≢ [])
required_iff message [] = (λ h. absurd cc, λ h. absurd (h refl))
required_iff message (c ∷ s) = (λ h e. (let no = e in cc), λ h. refl)
