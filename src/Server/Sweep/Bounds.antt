-- ===== src/Server/Sweep/Bounds.antt =====
-- A sweep leaves no expired entry, and no more entries than the settings allow.
use warpbox.Base.{
  ℕ, zero, suc, ◌+◌, ◌-◌, ◌≤◌, ◌≡◌, refl, sym, ap, ap₂, ◌∙◌, Bool, true, false, not, ◌&&◌, ◌||◌,
  ◌==◌, List, [], ◌∷◌, any, ltb, length, take, keep, arith, Bool-cases, inl, inr,
}
use warpbox.Base.Int.{ℤ}
use warpbox.Base.Text.{Text}
use warpbox.Base.Assoc.{KeyEq, Assoc, remove, length-remove}
use warpbox.Metadata.Record.{text_keys, int_keys}
use mathlib.Core.List.{Permᴰ}
use mathlib.Core.List.Permᴰ
use warpbox.Server.State.{Server, Config}
use warpbox.Server.Sweep.{evict, deadlines, swept, sweep_negative_cache, sweep_circuit_breaker}

any-Perm : {A : Type 0} (p : A → Bool) {l l' : List A} → Permᴰ l l' → any p l ≡ any p l'
unfolding any
any-Perm p Permᴰ.nil = refl
any-Perm p (Permᴰ.cons same rest) = ap₂ (λ a b. p a || b) same (any-Perm p rest)
any-Perm p (Permᴰ.swap {l = l} x y) = rw (x, y) (ground arith)
any-Perm p (Permᴰ.trans first second) = any-Perm p first ∙ any-Perm p second

length-Perm : {A : Type 0} {l l' : List A} → Permᴰ l l' → length l ≡ length l'
length-Perm Permᴰ.nil = refl
length-Perm (Permᴰ.cons same rest) = ap suc (length-Perm rest)
length-Perm (Permᴰ.swap x y) = refl
length-Perm (Permᴰ.trans first second) = length-Perm first ∙ length-Perm second

module _ {K : Type 0} ⦃e : KeyEq K⦄ where
  abbrev pub has_key {ℓ} : {V : Type ℓ} → K → List (K × V) → Bool
  has_key k m = any (λ p. e.eqb p.0 k) m

  -- No key twice.
  abbrev pub Distinct {ℓ} : {V : Type ℓ} → List (K × V) → Type 0
  Distinct [] = Unit
  Distinct (p ∷ m) = (has_key p.0 m ≡ false) × Distinct m

  eqb_sym : (a b : K) → e.eqb a b ≡ e.eqb b a
  eqb_sym a b = ground (arith, e.eqb_iff a b, e.eqb_iff b a)

  Distinct-Perm : {l l' : List (K × ℕ)} → Permᴰ l l' → Distinct l → Distinct l'
  unfolding any
  Distinct-Perm Permᴰ.nil d = tt
  Distinct-Perm (Permᴰ.cons {b = b} {l₁ = l} same rest) (new, d) =
      let new' : has_key b.0 l ≡ false = rw same at new in
      (sym (any-Perm (λ p. e.eqb p.0 b.0) rest) ∙ new', Distinct-Perm rest d)
  Distinct-Perm (Permᴰ.swap {a = a} {b = b} {l = l} x y) (new, (new', d)) =
      let before : (e.eqb a.0 b.0 || has_key b.0 l) ≡ false = ground (arith, eqb_sym a.0 b.0) in
      let behind : has_key a.0 l ≡ false = ground arith in
      (rw (x, y) at before, (rw x at behind, d))
  Distinct-Perm (Permᴰ.trans first second) d = Distinct-Perm second (Distinct-Perm first d)

module _ {K : Type 0} {V : Type 0} ⦃e : KeyEq K⦄ where
  length-remove_known :
      (k : K) (m : Assoc K V) → has_key k m ≡ true → suc (length (remove k m)) ≤ length m
  unfolding remove any
  length-remove_known k [] h = absurd cc
  length-remove_known k ((j, v) ∷ m) h = ground (arith, length-remove_known k m, length-remove k m)

  has_key-remove :
      (k j : K) (m : Assoc K V) → e.eqb j k ≡ false → has_key j (remove k m) ≡ has_key j m
  unfolding remove any
  has_key-remove k j [] other = refl
  has_key-remove k j ((i, v) ∷ m) other =
      ground (arith, has_key-remove k j m other, e.eqb_iff i k, e.eqb_iff i j, e.eqb_iff j k)

  has_key-deadlines :
      (deadline : V → ℕ) (k : K) (m : Assoc K V) → has_key k (deadlines deadline m) ≡ has_key k m
  unfolding any
  has_key-deadlines deadline k [] = refl
  has_key-deadlines deadline k ((j, v) ∷ m) =
      ap (λ b. e.eqb j k || b) (has_key-deadlines deadline k m)

  length-deadlines : (deadline : V → ℕ) (m : Assoc K V) → length (deadlines deadline m) ≡ length m
  length-deadlines deadline [] = refl
  length-deadlines deadline (p ∷ m) = ap suc (length-deadlines deadline m)

  Distinct-deadlines :
      (deadline : V → ℕ) (m : Assoc K V) → Distinct m → Distinct (deadlines deadline m)
  Distinct-deadlines deadline [] d = tt
  Distinct-deadlines deadline ((j, v) ∷ m) (new, d) =
      (has_key-deadlines deadline j m ∙ new, Distinct-deadlines deadline m d)

  has_key-keep :
      (p : K × V → Bool) (k : K) (m : Assoc K V)
      → has_key k m ≡ false
      → has_key k (keep p m) ≡ false
  unfolding keep any
  has_key-keep p k [] h = refl
  has_key-keep p k (x ∷ m) h = ground (arith, has_key-keep p k m)

  Distinct-keep : (p : K × V → Bool) (m : Assoc K V) → Distinct m → Distinct (keep p m)
  unfolding keep
  Distinct-keep p [] d = tt
  Distinct-keep p (x ∷ m) (new, d) = elim (Bool-cases (p x)) [
    | inl kept ↦ rw kept (has_key-keep p x.0 m new, Distinct-keep p m d)
    | inr dropped ↦ rw dropped (Distinct-keep p m d)
  ]

  -- All entries of one list have their keys in another.
  abbrev Known : List (K × ℕ) → Assoc K V → Type 0
  Known l m = any (λ p. not (has_key p.0 m)) l ≡ false

  Known-remove :
      (k : K) (l : List (K × ℕ)) (m : Assoc K V)
      → has_key k l ≡ false
      → Known l m
      → Known l (remove k m)
  unfolding any
  Known-remove k [] m new known = refl
  Known-remove k ((j, t) ∷ l) m new known = ground (arith, has_key-remove k j m, Known-remove k l m)

  Known-cons : (x : K × V) (l : List (K × ℕ)) (m : Assoc K V) → Known l m → Known l (x ∷ m)
  unfolding any
  Known-cons x [] m known = refl
  Known-cons x ((j, t) ∷ l) m known = ground (arith, Known-cons x l m)

  Known-deadlines : (deadline : V → ℕ) (m : Assoc K V) → Known (deadlines deadline m) m
  unfolding any
  Known-deadlines deadline [] = refl
  Known-deadlines deadline ((k, v) ∷ m) =
      let later = Known-cons (k, v) (deadlines deadline m) m (Known-deadlines deadline m) in
      let own = (e.eqb_iff k k).1 refl in ground arith

  -- Deleting n distinct keys that are there.
  length-evict :
      (n : ℕ) (l : List (K × ℕ)) (m : Assoc K V)
      → Distinct l
      → Known l m
      → n ≤ length l
      → length (evict (take n l) m) + n ≤ length m
  unfolding evict any
  length-evict zero l m d known enough = omega arith
  length-evict (suc n) [] m d known enough = absurd (omega arith)
  length-evict (suc n) ((k, t) ∷ l) m (new, d) known enough =
      let here : has_key k m ≡ true = ground arith in
      let known' : Known l m = ground arith in
      let rest = length-evict n l (remove k m) d (Known-remove k l m new known') (omega arith) in
      let fewer = length-remove_known k m here in omega arith

  -- The sort moves entries about.
  swept-bounds :
      (sort : List (K × ℕ) → List (K × ℕ))
      → ((l : List (K × ℕ)) → Permᴰ (sort l) l)
      → (deadline : V → ℕ) (expired : V → Bool) (max_entries : ℕ) (m : Assoc K V) → Distinct m
      → length (swept sort deadline expired max_entries m) ≤ max_entries
  unfolding swept
  swept-bounds sort sorts deadline expired max_entries m d =
      let rest = keep (λ p. not (expired p.1)) m in
      let times = deadlines deadline rest in
      elim (Bool-cases (ltb max_entries (length rest))) [
        | inr fits ↦ rw (fits, swept) (ground arith)
        | inl over ↦
            let back = Permᴰ.symm (sorts times) in
            let distinct =
              Distinct-Perm back (Distinct-deadlines deadline rest (Distinct-keep _ m d)) in
            let known : Known (sort times) rest =
              any-Perm (λ p. not (has_key p.0 rest)) (sorts times)
              ∙ Known-deadlines deadline rest in
            let all_sorted = length-Perm (sorts times) ∙ length-deadlines deadline rest in
            let shorter =
              length-evict (length rest - max_entries) (sort times) rest distinct known
                (omega arith) in
            rw (over, swept) (ground arith)
      ]

  any-remove :
      (q : K × V → Bool) (k : K) (m : Assoc K V) → any q m ≡ false → any q (remove k m) ≡ false
  unfolding remove any
  any-remove q k [] h = refl
  any-remove q k (p ∷ m) h = ground (arith, any-remove q k m)

  any-evict :
      (q : K × V → Bool) (l : List (K × ℕ)) (m : Assoc K V)
      → any q m ≡ false
      → any q (evict l m) ≡ false
  unfolding evict
  any-evict q [] m h = h
  any-evict q ((k, t) ∷ l) m h = any-evict q l (remove k m) (any-remove q k m h)

  any-keep : (q p : K × V → Bool) (m : Assoc K V) → any q m ≡ false → any q (keep p m) ≡ false
  unfolding keep any
  any-keep q p [] h = refl
  any-keep q p (x ∷ m) h = ground (arith, any-keep q p m)

  any-kept : (q : K × V → Bool) (m : Assoc K V) → any q (keep (λ p. not (q p)) m) ≡ false
  unfolding keep any
  any-kept q [] = refl
  any-kept q (x ∷ m) = ground (arith, any-kept q m)

  -- Within the bound, none expired, and nothing that was not there before.
  abbrev pub IsSwept : (V → Bool) → ℕ → Assoc K V → Assoc K V → Type 0
  IsSwept expired max_entries m m' =
      (length m' ≤ max_entries)
      × (any (λ p. expired p.1) m' ≡ false)
      × ((q : K × V → Bool) → any q m ≡ false → any q m' ≡ false)

  swept-IsSwept :
      (sort : List (K × ℕ) → List (K × ℕ))
      → ((l : List (K × ℕ)) → Permᴰ (sort l) l)
      → (deadline : V → ℕ) (expired : V → Bool) (max_entries : ℕ) (m : Assoc K V) → Distinct m
      → IsSwept expired max_entries m (swept sort deadline expired max_entries m)
  unfolding swept
  swept-IsSwept sort sorts deadline expired max_entries m d =
      let rest = keep (λ p. not (expired p.1)) m in
      let over = take (length rest - max_entries) (sort (deadlines deadline rest)) in
      let none_expired = any-kept (λ p. expired p.1) m in
      (
        swept-bounds sort sorts deadline expired max_entries m d,
        elim (Bool-cases (ltb max_entries (length rest))) [
          | inl full ↦ rw (full, swept) (any-evict (λ p. expired p.1) over rest none_expired)
          | inr fits ↦ rw (fits, swept) none_expired
        ],
        λ q absent. elim (Bool-cases (ltb max_entries (length rest))) [
          | inl full ↦ rw (full, swept) (any-evict q over rest (any-keep q _ m absent))
          | inr fits ↦ rw (fits, swept) (any-keep q _ m absent)
        ],
      )

-- Sweeps of the negative cache and of the breaker's trackers, which are maps, with a sort that only
-- moves entries about: each leaves no more entries than the settings allow, none that is expired, and
-- none that was not there.
pub sweeps-IsSwept :
    (sort : List (Text × ℕ) → List (Text × ℕ)) (sort_ids : List (ℤ × ℕ) → List (ℤ × ℕ))
    (cfg : Config) (s : Server)
    → ((l : List (Text × ℕ)) → Permᴰ (sort l) l)
    → ((l : List (ℤ × ℕ)) → Permᴰ (sort_ids l) l)
    → Distinct s.negative_cache
    → Distinct s.torrent_failures
    → IsSwept
        (λ v. ltb v.expires_at s.clock)
        cfg.negative_cache_max_entries
        s.negative_cache
        (sweep_negative_cache sort cfg s).negative_cache
      × IsSwept
          (λ v. not (v.stale_until == 0) && ltb v.stale_until s.clock)
          cfg.circuit_breaker_max_entries
          s.torrent_failures
          (sweep_circuit_breaker sort_ids cfg s).torrent_failures
unfolding sweep_negative_cache sweep_circuit_breaker
sweeps-IsSwept sort sort_ids cfg s sorts sorts_ids keys ids = (
  swept-IsSwept sort sorts _ _ cfg.negative_cache_max_entries s.negative_cache keys,
  swept-IsSwept sort_ids sorts_ids _ _ cfg.circuit_breaker_max_entries s.torrent_failures ids,
)
