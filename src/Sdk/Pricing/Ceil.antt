-- ===== src/Sdk/Pricing/Ceil.antt =====
-- `ceilDiv` of `pricing.ts`: the ceiling, and what a division by zero leaves of it.
use delta_x.Prelude.{
  ℕ, ◌+◌, ◌-◌, ◌/◌, ◌≤◌, ◌<◌, ◌≡◌, arith, ok, suc, Bool-cases, ap, zero, inl, inr, ◌==◌,
}
use delta_x.Prelude.Arith.{ceil, div_mono}
use native.Mathlib.Nat.{add-div_right, div-eq_of_lt}
use delta_x.Sdk.Pricing.{ceil_div}

-- Over a positive divisor it is the ceiling.
pub ceil_div-ceil : (a b : ℕ) → 0 < b → ceil_div a b ≡ ok (ceil a b)
unfolding ceil_div
ceil_div-ceil zero b p = ground (arith, div-eq_of_lt {n = 0 + b - 1} {m = b} (omega arith))
ceil_div-ceil (suc a) b p =
    let same : suc a - 1 + b ≡ suc a + b - 1 = omega arith in
    ground (arith, add-div_right (suc a - 1) p, ap (λ (t : ℕ). t / b) same)

pub ceil_div_mono :
    (m n d q : ℕ) → m ≤ n → ceil_div n d ≡ ok q → (q' : ℕ) × (ceil_div m d ≡ ok q') × (q' ≤ q)
unfolding ceil_div
ceil_div_mono m n d q h e = elim (Bool-cases (m == 0)) [
  | inl none_left ↦ (0, ground arith, ground arith)
  | inr some_left ↦
      let more = div_mono d {a = m - 1} {b = n - 1} (omega arith) in
      ((m - 1) / d + 1, ground arith, ground arith)
]
