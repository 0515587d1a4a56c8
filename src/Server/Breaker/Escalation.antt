-- ===== src/Server/Breaker/Escalation.antt =====
-- The stale window of an item that keeps failing.
use warpbox.Base.{
  ap, ◌%◌, sym, ◌∙◌, refl, ℕ, zero, suc, ◌+◌, ◌*◌, ◌^◌, ◌≤◌, ◌<◌, ◌≡◌, ◌≢◌, if◌then◌else◌, ltb,
  arith,
}
use warpbox.Base.Int.{ℤ, pos, negsuc, wrap64, wrap64_id}
use native.Mathlib.Nat.{mul_assoc, pow-suc}
use warpbox.Server.Breaker.{escalated_minutes, clamped, effective_cap}

one≤pow : (e : ℕ) → 1 ≤ 2 ^ e
one≤pow zero = omega arith
one≤pow (suc e) = let h = one≤pow e in omega arith

le_mul_of_one : (a b : ℕ) → 1 ≤ b → a ≤ a * b
le_mul_of_one zero b h = omega arith
le_mul_of_one (suc a) b h = let r = le_mul_of_one a b h in omega arith

pub le_mul_pow : (base e : ℕ) → base ≤ base * 2 ^ e
le_mul_pow base e = le_mul_of_one base (2 ^ e) (one≤pow e)

-- While base << escalations fits in an int64, the window is the smaller of it and a cap that is set.
pub escalated_minutes_min :
    (base cap e : ℕ)
    → cap ≢ 0
    → base * 2 ^ e < 9223372036854775808
    → escalated_minutes base cap e ≡ (if ltb cap (base * 2 ^ e) then cap else base * 2 ^ e)
unfolding escalated_minutes clamped
escalated_minutes_min base cap e set fits =
    let grows = le_mul_pow base e in
    let exact = wrap64_id (pos (base * 2 ^ e)) (fits, omega arith) in rw exact (ground arith)

clamped_bounds :
    (base cap : ℕ) (w : ℤ) → base ≤ cap → (base ≤ clamped base cap w) × (clamped base cap w ≤ cap)
unfolding clamped
clamped_bounds base cap (pos n) le = ground arith
clamped_bounds base cap (negsuc n) le = ground arith

-- If the cap, where it is set, is not below the base, then whatever the shift does, the window lies
-- between the base and the cap; an unset cap counts as the base.
pub escalated_minutes_bounds :
    (base cap e : ℕ)
    → base ≤ effective_cap base cap
    → (base ≤ escalated_minutes base cap e)
      × (escalated_minutes base cap e ≤ effective_cap base cap)
unfolding escalated_minutes
escalated_minutes_bounds base cap e le =
    clamped_bounds base (effective_cap base cap) (wrap64 (pos (base * 2 ^ e))) le

suc_first : (k : ℕ) → suc k + 64 ≡ suc (k + 64)
suc_first k = omega arith

pow_split : (k : ℕ) → 2 ^ (k + 64) ≡ 2 ^ k * 18446744073709551616
pow_split zero = refl
pow_split (suc k) =
    let h = pow_split k in
    let up : 2 ^ (suc k + 64) ≡ 2 ^ (k + 64) * 2 =
      ap (λ n. 2 ^ n) (suc_first k) ∙ pow-suc 2 (k + 64) in
    let down = pow-suc 2 k in omega arith

shifted_out : (base k : ℕ) → base * 2 ^ (k + 64) % 18446744073709551616 ≡ 0
shifted_out base k =
    let whole : base * 2 ^ (k + 64) ≡ base * 2 ^ k * 18446744073709551616 =
      ap (λ p. base * p) (pow_split k) ∙ sym (mul_assoc base (2 ^ k) 18446744073709551616) in
    rw whole (omega arith)

-- If the cap, where it is set, is not below the base, then from the 64th escalation on the shift
-- gives 0 and the window is the base again, not the cap.
pub escalated_minutes_overflow :
    (base cap k : ℕ) → base ≤ effective_cap base cap → escalated_minutes base cap (k + 64) ≡ base
unfolding escalated_minutes clamped
escalated_minutes_overflow base cap k le = rw (shifted_out base k) (ground arith)
