-- ===== src/Throttle/Limiter/Pace.antt =====
-- The starts that the limiter reserves, and the waits between them.
use warpbox.Base.{
  ℕ, ◌+◌, ◌*◌, ◌≤◌, ◌<◌, ◌≡◌, true, false, List, [], ◌∷◌, length, All, arith, Bool-cases, inl, inr,
}
use warpbox.Throttle.Limiter.{Limiter, is_due, wait_round, wait_time, starts}

-- Each time is at least `rate` after the one before it.
abbrev pub Spaced : ℕ → List ℕ → Type 0
Spaced rate [] = Unit
Spaced rate (a ∷ []) = Unit
Spaced rate (a ∷ b ∷ rest) = (a + rate ≤ b) × Spaced rate (b ∷ rest)

-- The same, behind a start at `last`.
abbrev From : ℕ → ℕ → List ℕ → Type 0
From rate last [] = Unit
From rate last (b ∷ rest) = (last + rate ≤ b) × From rate b rest

From-Spaced : (rate a : ℕ) (rest : List ℕ) → From rate a rest → Spaced rate (a ∷ rest)
From-Spaced rate a [] h = tt
From-Spaced rate a (b ∷ rest) (h, hs) = (h, From-Spaced rate b rest hs)

starts-From :
    (l : Limiter) (rounds : List ℕ)
    → 0 < l.last_call
    → All (λ now. 0 < now) rounds
    → From l.rate l.last_call (starts l rounds)
unfolding starts wait_round
starts-From l [] h all = tt
starts-From l (now ∷ rounds) h (pos_now, all) = elim (Bool-cases (is_due l now)) [
  | inl due ↦
      rw (due, starts)
        ((ground arith), starts-From (record l { last_call = now }) rounds pos_now all)
  | inr early ↦ rw (early, starts) (starts-From l rounds h all)
]

-- Whatever rounds the callers of a limiter make, at any times behind the zero time, each start is at
-- least the limiter's rate after the start before it.
pub starts-Spaced :
    (l : Limiter) (rounds : List ℕ) → All (λ now. 0 < now) rounds → Spaced l.rate (starts l rounds)
unfolding starts wait_round
starts-Spaced l [] all = tt
starts-Spaced l (now ∷ rounds) (pos_now, all) = elim (Bool-cases (is_due l now)) [
  | inl due ↦
      rw (due, starts)
        (From-Spaced l.rate now _ (starts-From (record l { last_call = now }) rounds pos_now all))
  | inr early ↦ rw (early, starts) (starts-Spaced l rounds all)
]

All-starts :
    (P : ℕ → Type 0) (l : Limiter) (rounds : List ℕ) → All P rounds → All P (starts l rounds)
unfolding starts wait_round
All-starts P l [] all = tt
All-starts P l (now ∷ rounds) (p, all) = elim (Bool-cases (is_due l now)) [
  | inl due ↦ rw (due, starts) (p, All-starts P (record l { last_call = now }) rounds all)
  | inr early ↦ rw (early, starts) (All-starts P l rounds all)
]

Spaced-count :
    (rate lo width a : ℕ) (rest : List ℕ)
    → Spaced rate (a ∷ rest)
    → All (λ t. (lo ≤ t) × (t < lo + width)) (a ∷ rest)
    → a + length rest * rate < lo + width
Spaced-count rate lo width a [] spaced (h, all) = omega arith
Spaced-count rate lo width a (b ∷ rest) (h, spaced) (within, all) =
    let more = Spaced-count rate lo width b rest spaced all in omega arith

count_starts :
    (rate lo width : ℕ) (times : List ℕ)
    → 0 < width
    → Spaced rate times
    → All (λ t. (lo ≤ t) × (t < lo + width)) times
    → length times * rate < width + rate
count_starts rate lo width [] some_time spaced all = omega arith
count_starts rate lo width (a ∷ rest) some_time spaced (h, all) =
    let last = Spaced-count rate lo width a rest spaced (h, all) in omega arith

All-positive :
    (lo width : ℕ) (rounds : List ℕ)
    → 0 < lo
    → All (λ t. (lo ≤ t) × (t < lo + width)) rounds
    → All (λ now. 0 < now) rounds
All-positive lo width [] h all = tt
All-positive lo width (now ∷ rounds) h (p, all) = (omega arith, All-positive lo width rounds h all)

-- The rate is a collective cap: rounds that all fall into one window of time that is not empty, behind the zero time,
-- reserve fewer starts than the window has room for at the limiter's rate, and one more.
pub starts_in_window :
    (l : Limiter) (lo width : ℕ) (rounds : List ℕ)
    → 0 < lo
    → 0 < width
    → All (λ t. (lo ≤ t) × (t < lo + width)) rounds
    → length (starts l rounds) * l.rate < width + l.rate
starts_in_window l lo width rounds h some_time all =
    count_starts l.rate lo width (starts l rounds) some_time
      (starts-Spaced l rounds (All-positive lo width rounds h all)) (All-starts _ l rounds all)

-- A caller that is turned away and waits for the time it is told, while no other caller reserves a
-- start, is let through then, and no sooner.
pub wait_round-wait_time :
    (l : Limiter) (now early : ℕ)
    → (wait_round l now).0 ≡ false
    → early < wait_time l now
    → ((wait_round l (now + wait_time l now)).0 ≡ true) × ((wait_round l (now + early)).0 ≡ false)
unfolding wait_round
wait_round-wait_time l now early refused soon = ground arith
