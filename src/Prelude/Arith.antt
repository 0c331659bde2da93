-- ===== src/Prelude/Arith.antt =====
-- Division of native numbers: floors and ceilings of products, as the pricing code takes them.
use native.Mathlib.Nat.{
  div-mul-le_self, le_of_mul-le-mul_right, lt-div-mul-add, le-div_iff_mul-le, div-lt_iff_lt-mul,
  mul-le-mul_left, mul-le-mul_right, mul-div_left,
}
use delta_x.Prelude.{ℕ, ◌+◌, ◌-◌, ◌*◌, ◌/◌, ◌≤◌, ◌<◌, ◌↔◌, arith, ◌≡◌}

pub div_mono : (c : ℕ) {a b : ℕ} → a ≤ b → 0 < c → a / c ≤ b / c
div_mono c {a} {b} h p = (le-div_iff_mul-le p).1 (omega (arith, div-mul-le_self a c))

-- A share of at most the whole is at most the whole.
pub mul_div-le : (a b c : ℕ) → b ≤ c → 0 < c → a * b / c ≤ a
mul_div-le a b c h p =
    omega (arith, div_mono c {a = a * b} {b = a * c} (mul-le-mul_left a h) p, mul-div_left a p)

-- The floor of `n / d` is the largest `q` with `q * d ≤ n`.
pub le-div_iff : (q n d : ℕ) → 0 < d → (q ≤ n / d) ↔ (q * d ≤ n)
le-div_iff q n d p = le-div_iff_mul-le p

-- The ceiling, as the code writes it.
abbrev pub ceil : ℕ → ℕ → ℕ
ceil n d = (n + d - 1) / d

-- It is the least `q` with `n ≤ q * d`.
pub ceil-le_iff : (n d q : ℕ) → 0 < d → (ceil n d ≤ q) ↔ (n ≤ q * d)
ceil-le_iff n d q p = (
  λ h. omega (arith, lt-div-mul-add {a = n + d - 1} p, mul-le-mul_right d h),
  λ h. omega (arith, (div-lt_iff_lt-mul {x = n + d - 1} {y = q + 1} p).1 (omega arith)),
)

pub ceil_mono : (d : ℕ) {m n : ℕ} → m ≤ n → 0 < d → ceil m d ≤ ceil n d
ceil_mono d {m} {n} h p = div_mono d (omega arith) p

pub ceil_exact : (q d : ℕ) → 0 < d → ceil (q * d) d ≡ q
ceil_exact q d p = omega (
  arith,
  (ceil-le_iff (q * d) d q p).1 (omega arith),
  le_of_mul-le-mul_right {m = q} {n = ceil (q * d) d} {k = d}
      ((ceil-le_iff (q * d) d (ceil (q * d) d) p).0 (omega arith)) p,
)

pub ceil-zero : (d : ℕ) → 0 < d → ceil 0 d ≡ 0
ceil-zero d p = omega (arith, (ceil-le_iff 0 d 0 p).1 (omega arith))
