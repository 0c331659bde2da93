-- ===== src/Prelude/Bits.antt =====
-- `|` of bigints: `bit_or` of disjoint fields is their sum, and a single bit that is set stays set.
use Prim.Native.Nat.{max, bit_or, digits, bit_or-bitwise}
use delta_x.Prelude.{
  ℕ, zero, suc, ◌+◌, ◌*◌, ◌/◌, ◌%◌, ◌^◌, ◌≤◌, ◌<◌, ◌≡◌, refl, ap, arith, ◌==◌, if◌then◌else◌,
}
use native.Mathlib.Nat.{pow-suc, div-div-eq-div-mul, div-one, mul_comm}

abbrev or_digits : ℕ → ℕ → ℕ → ℕ
or_digits n a b = digits (λ b. b) max n a b

-- enough fuel is as good as more
or_digits_fuel : (n m a b : ℕ) → a ≤ n → a ≤ m → or_digits n a b ≡ or_digits m a b
or_digits_fuel (suc n) (suc m) (suc a) b p q =
    omega (arith, or_digits_fuel n m (suc a / 2) (b / 2) (omega arith) (omega arith))
or_digits_fuel (suc n) (suc m) zero b p q = refl
or_digits_fuel (suc n) zero zero b p q = refl
or_digits_fuel zero (suc m) zero b p q = refl
or_digits_fuel zero zero zero b p q = refl
or_digits_fuel zero m (suc a) b p q = absurd (omega arith)
or_digits_fuel (suc n) zero (suc a) b p q = absurd (omega arith)

zero-bit_or : (b : ℕ) → bit_or 0 b ≡ b
zero-bit_or b = bit_or-bitwise 0 b

pub bit_or_step : (a b : ℕ) → bit_or a b ≡ bit_or (a / 2) (b / 2) * 2 + max (a % 2) (b % 2)
bit_or_step zero b = omega (arith, zero-bit_or b, zero-bit_or (b / 2))
bit_or_step (suc a) b = omega (
  arith,
  bit_or-bitwise (suc a) b,
  bit_or-bitwise (suc a / 2) (b / 2),
  or_digits_fuel a (suc a / 2) (suc a / 2) (b / 2) (omega arith) (omega arith),
)

bit_or-zero_fuel : (n a : ℕ) → a ≤ n → bit_or a 0 ≡ a
bit_or-zero_fuel n zero h = zero-bit_or 0
bit_or-zero_fuel zero (suc a) h = absurd (omega arith)
bit_or-zero_fuel (suc n) (suc a) h =
    omega (arith, bit_or_step (suc a) 0, bit_or-zero_fuel n (suc a / 2) (omega arith))

pub bit_or-zero : (a : ℕ) → bit_or a 0 ≡ a
bit_or-zero a = bit_or-zero_fuel a a (omega arith)

bit_or_comm_fuel : (n a b : ℕ) → a ≤ n → bit_or a b ≡ bit_or b a
bit_or_comm_fuel n zero b h = omega (arith, zero-bit_or b, bit_or-zero b)
bit_or_comm_fuel zero (suc a) b h = absurd (omega arith)
bit_or_comm_fuel (suc n) (suc a) b h = omega (
  arith,
  bit_or_step (suc a) b,
  bit_or_step b (suc a),
  bit_or_comm_fuel n (suc a / 2) (b / 2) (omega arith),
)

pub bit_or_comm : (a b : ℕ) → bit_or a b ≡ bit_or b a
bit_or_comm a b = bit_or_comm_fuel a a b (omega arith)

mul-two-pow-suc : (b k : ℕ) → b * 2 ^ suc k ≡ 2 * (b * 2 ^ k)
mul-two-pow-suc b k = omega (arith, ap (λ (t : ℕ). b * t) (pow-suc 2 k))

-- A field above `k` bits joins a field of `k` bits.
pub bit_or_disjoint : (k a b : ℕ) → a < 2 ^ k → bit_or a (b * 2 ^ k) ≡ a + b * 2 ^ k
bit_or_disjoint zero a b h =
    let e : a ≡ 0 = omega arith in rw e (omega (arith, zero-bit_or (b * 1)))
bit_or_disjoint (suc k) a b h =
    let e : b * 2 ^ suc k / 2 ≡ b * 2 ^ k = omega (arith, mul-two-pow-suc b k) in
    omega (
      arith,
      bit_or_step a (b * 2 ^ suc k),
      mul-two-pow-suc b k,
      ap (bit_or (a / 2)) e,
      bit_or_disjoint k (a / 2) b (omega (arith, pow-suc 2 k)),
    )

-- Setting bit `k` adds 2 ^ k where it was clear, and changes nothing where it was set.
pub bit_or-pow : (k a : ℕ) → bit_or a (2 ^ k) ≡ (if (a / 2 ^ k % 2) == 1 then a else a + 2 ^ k)
bit_or-pow zero a = ground (arith, bit_or_step a 1, bit_or-zero (a / 2))
bit_or-pow (suc k) a = ground (
  arith,
  bit_or_step a (2 ^ suc k),
  pow-suc 2 k,
  bit_or-pow k (a / 2),
  div-div-eq-div-mul a 2 (2 ^ k),
)

div-two-pow : (n k : ℕ) → n / 2 ^ suc k ≡ n / 2 / 2 ^ k
div-two-pow n k = simp (div-div-eq-div-mul n 2 (2 ^ k), pow-suc 2 k, mul_comm (2 ^ k) 2) refl

-- A shift passes through `|`.
pub bit_or-div : (k a b : ℕ) → bit_or a b / 2 ^ k ≡ bit_or (a / 2 ^ k) (b / 2 ^ k)
bit_or-div zero a b = rw (div-one a, div-one b, div-one (bit_or a b)) refl
bit_or-div (suc k) a b =
    let half : bit_or a b / 2 ≡ bit_or (a / 2) (b / 2) = omega (arith, bit_or_step a b) in
    rw (div-two-pow a k, div-two-pow b k, div-two-pow (bit_or a b) k, half)
      (bit_or-div k (a / 2) (b / 2))
