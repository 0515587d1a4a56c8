-- ===== src/Base/Lists.antt =====
-- Lists over the native numbers: length, a Boolean filter, predicates by recursion.
use Prim.Native.Nat.{ℕ, zero, suc, ◌+◌, ◌-◌, ◌≤◌, ◌<◌, min}
use mathlib.Core.Path.{◌≡◌, refl, sym, ap}
use mathlib.Core.Logic.{◌≢◌, ◌⊎◌, inl, inr}
use mathlib.Core.Bool.{Bool, true, false, ◌||◌}
use mathlib.Core.List.{List, [], ◌∷◌, ◌++◌}
use native.Mathlib.Nat.{zero-add, add-zero, suc-add}
use native.Mathlib.Omega.{arith}
use warpbox.Base.Tests.{if◌then◌else◌, Bool-cases}

module _ {ℓ} {A : Type ℓ} where
  abbrev pub length : List A → ℕ
  length [] = 0
  length (x ∷ xs) = suc (length xs)

  abbrev pub take : ℕ → List A → List A
  take zero xs = []
  take (suc n) [] = []
  take (suc n) (x ∷ xs) = x ∷ take n xs

  abbrev pub drop : ℕ → List A → List A
  drop zero xs = xs
  drop (suc n) [] = []
  drop (suc n) (x ∷ xs) = drop n xs

  pub length-append : (xs ys : List A) → length (xs ++ ys) ≡ length xs + length ys
  length-append [] ys = omega arith
  length-append (x ∷ xs) ys = omega (arith, length-append xs ys)

  pub take-append-drop : (n : ℕ) (xs : List A) → take n xs ++ drop n xs ≡ xs
  take-append-drop zero xs = refl
  take-append-drop (suc n) [] = refl
  take-append-drop (suc n) (x ∷ xs) = rw (take-append-drop n xs)

  pub length-take : (n : ℕ) (xs : List A) → length (take n xs) ≡ min n (length xs)
  length-take zero xs = omega arith
  length-take (suc n) [] = omega arith
  length-take (suc n) (x ∷ xs) = omega (arith, length-take n xs)

  pub length-drop : (n : ℕ) (xs : List A) → length (drop n xs) ≡ length xs - n
  length-drop zero xs = omega arith
  length-drop (suc n) [] = omega arith
  length-drop (suc n) (x ∷ xs) = omega (arith, length-drop n xs)

  pub take_all : (n : ℕ) (xs : List A) → length xs ≤ n → take n xs ≡ xs
  take_all zero [] h = refl
  take_all zero (x ∷ xs) h = absurd (omega arith)
  take_all (suc n) [] h = refl
  take_all (suc n) (x ∷ xs) h = rw (take_all n xs (omega arith))

  pub drop-drop : (m n : ℕ) (xs : List A) → drop m (drop n xs) ≡ drop (n + m) xs
  drop-drop m zero xs = rw (zero-add)
  drop-drop zero (suc n) [] = rw (add-zero)
  drop-drop (suc m) (suc n) [] = rw (suc-add)
  drop-drop m (suc n) (x ∷ xs) = rw (suc-add) (drop-drop m n xs)

  -- The elements that pass a test, in order.
  unfoldable pub keep : (A → Bool) → List A → List A
  keep p [] = []
  keep p (x ∷ xs) = let rest = keep p xs in if p x then x ∷ rest else rest

  unfoldable pub any : (A → Bool) → List A → Bool
  any p [] = false
  any p (x ∷ xs) = p x || any p xs

module _ {ℓ κ} {A : Type ℓ} where
  -- Every element satisfies `P`.
  abbrev pub All : (A → Type κ) → List A → Type κ
  All P [] = Unit
  All P (x ∷ xs) = P x × All P xs

-- `a` is in the list: by recursion, so that case splits see through it.
abbrev pub Has : {A : Type 0} → A → List A → Type 0
Has a [] = ⊥
Has a (x ∷ xs) = (a ≡ x) ⊎ Has a xs

-- No element stands twice.
abbrev pub Distinct : {A : Type 0} → List A → Type 0
Distinct [] = Unit
Distinct (x ∷ xs) = (¬ (Has x xs)) × Distinct xs

module _ {A : Type 0} where
  pub Has-append_left : (a : A) (xs ys : List A) → Has a xs → Has a (xs ++ ys)
  Has-append_left a [] ys h = absurd h
  Has-append_left a (x ∷ xs) ys (inl e) = inl e
  Has-append_left a (x ∷ xs) ys (inr h) = inr (Has-append_left a xs ys h)

  pub Has-append_right : (a : A) (xs ys : List A) → Has a ys → Has a (xs ++ ys)
  Has-append_right a [] ys h = h
  Has-append_right a (x ∷ xs) ys h = inr (Has-append_right a xs ys h)

  pub Has-append_cases : (a : A) (xs ys : List A) → Has a (xs ++ ys) → Has a xs ⊎ Has a ys
  Has-append_cases a [] ys h = inr h
  Has-append_cases a (x ∷ xs) ys (inl e) = inl (inl e)
  Has-append_cases a (x ∷ xs) ys (inr h) = elim (Has-append_cases a xs ys h) [
    | inl m ↦ inl (inr m)
    | inr m ↦ inr m
  ]

  pub Distinct-append : (xs : List A) (a : A) → Distinct xs → ¬ (Has a xs) → Distinct (xs ++ a ∷ [])
  Distinct-append [] a d n = (λ h. h, tt)
  Distinct-append (x ∷ xs) a (nx, d) n = (
    λ h. elim (Has-append_cases x xs (a ∷ []) h) [
      | inl m ↦ nx m
      | inr (inl e) ↦ n (inl (sym e))
      | inr (inr m) ↦ m
    ],
    Distinct-append xs a d (λ h. n (inr h)),
  )

  pub Has-keep : (p : A → Bool) (a : A) (xs : List A) → Has a (keep p xs) → Has a xs × (p a ≡ true)
  unfolding keep
  Has-keep p a [] h = absurd h
  Has-keep p a (x ∷ xs) h = elim (Bool-cases (p x)) [
    | inl px ↦ elim (rw px at h) [
      | inl e ↦ (inl e, rw e px)
      | inr m ↦ let (hm, hp) = Has-keep p a xs m in (inr hm, hp)
    ]
    | inr px ↦ let (hm, hp) = Has-keep p a xs (rw px at h) in (inr hm, hp)
  ]

  pub keep-Has : (p : A → Bool) (a : A) (xs : List A) → Has a xs → p a ≡ true → Has a (keep p xs)
  unfolding keep
  keep-Has p a [] h pa = absurd h
  keep-Has p a (x ∷ xs) (inl e) pa = let px : p x ≡ true = rw (← e) pa in rw px (inl e)
  keep-Has p a (x ∷ xs) (inr m) pa = elim (Bool-cases (p x)) [
    | inl px ↦ rw px (inr (keep-Has p a xs m pa))
    | inr px ↦ rw px (keep-Has p a xs m pa)
  ]

  pub length-keep : (p : A → Bool) (xs : List A) → length (keep p xs) ≤ length xs
  unfolding keep
  length-keep p [] = omega arith
  length-keep p (x ∷ xs) = ground (arith, length-keep p xs)

pub All-append {ℓ κ} :
    {A : Type ℓ} (P : A → Type κ) (xs ys : List A) → All P xs → All P ys → All P (xs ++ ys)
All-append P [] ys hx hy = hy
All-append P (x ∷ xs) ys hx hy = (hx.0, All-append P xs ys hx.1 hy)

module _ {ℓ} {A : Type ℓ} where
  abbrev pub replicate : ℕ → A → List A
  replicate zero a = []
  replicate (suc n) a = a ∷ replicate n a

  -- xs[i], or `other` past the end
  unfoldable pub get_or : List A → ℕ → A → A
  get_or [] i other = other
  get_or (x ∷ xs) zero other = x
  get_or (x ∷ xs) (suc i) other = get_or xs i other

  -- xs[i] = a; past the end it changes nothing
  unfoldable pub set : List A → ℕ → A → List A
  set [] i a = []
  set (x ∷ xs) zero a = a ∷ xs
  set (x ∷ xs) (suc i) a = x ∷ set xs i a

  pub length-replicate : (n : ℕ) (a : A) → length (replicate n a) ≡ n
  length-replicate zero a = refl
  length-replicate (suc n) a = omega (arith, length-replicate n a)

  pub length-set : (xs : List A) (i : ℕ) (a : A) → length (set xs i a) ≡ length xs
  unfolding set
  length-set [] i a = refl
  length-set (x ∷ xs) zero a = refl
  length-set (x ∷ xs) (suc i) a = omega (arith, length-set xs i a)

  pub get_or-set_self :
      (xs : List A) (i : ℕ) (a other : A) → i < length xs → get_or (set xs i a) i other ≡ a
  unfolding get_or set
  get_or-set_self [] i a other h = absurd (omega arith)
  get_or-set_self (x ∷ xs) zero a other h = refl
  get_or-set_self (x ∷ xs) (suc i) a other h = get_or-set_self xs i a other (omega arith)

  pub get_or-set_ne :
      (xs : List A) (i j : ℕ) (a other : A)
      → i ≢ j
      → get_or (set xs i a) j other ≡ get_or xs j other
  unfolding get_or set
  get_or-set_ne [] i j a other h = refl
  get_or-set_ne (x ∷ xs) zero zero a other h = absurd (h refl)
  get_or-set_ne (x ∷ xs) zero (suc j) a other h = refl
  get_or-set_ne (x ∷ xs) (suc i) zero a other h = refl
  get_or-set_ne (x ∷ xs) (suc i) (suc j) a other h =
      get_or-set_ne xs i j a other (λ e. h (ap suc e))
