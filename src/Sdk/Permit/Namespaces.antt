-- ===== src/Sdk/Permit/Namespaces.antt =====
-- packages/sdk/src/permit3nonce.ts: the bits of the bitmap that the kinds of message take.

use native.Mathlib.Nat.{pow-suc}
use delta_x.Prelude.{
  ℕ, zero, suc, ◌+◌, ◌*◌, ◌/◌, ◌%◌, ◌^◌, ◌≤◌, ◌<◌, ◌≡◌, refl, ◌∙◌, arith, some, ok, >>=-eq-ok,
  ok-injective, throw_if, leb, out_of_range, wrong_namespace, true, not, ◌↔◌,
}
use delta_x.Prelude.Bits.{bit_or_disjoint, bit_or_comm}
use delta_x.Sdk.Permit.{
  Permit3MessageKind, batch, take_kind, transfer, kind_number, permit3_nonce, permit3_nonce_kind,
  permit3_nonce_word, permit3_nonce_mask, assert_permit3_nonce, is_kind,
}

permit3_nonce-sum :
    (kind : Permit3MessageKind) (seq nonce : ℕ)
    → permit3_nonce kind seq ≡ ok nonce
    → (seq < 2 ^ 248) × (nonce ≡ seq + kind_number kind * 2 ^ 248)
unfolding permit3_nonce
permit3_nonce-sum kind seq nonce e =
    let (u, fits, made) = >>=-eq-ok (throw_if (leb (2 ^ 248) seq) out_of_range) _ e in
    let low : seq < 2 ^ 248 = ground arith in
    (
      low,
      rw (← ok-injective made) (
          bit_or_comm (kind_number kind * 2 ^ 248) seq
          ∙ bit_or_disjoint 248 seq (kind_number kind) low),
    )

pow_positive : (n : ℕ) → 1 ≤ 2 ^ n
pow_positive zero = omega arith
pow_positive (suc n) = omega (arith, pow-suc 2 n, pow_positive n)

pow-injective : (m n : ℕ) → 2 ^ m ≡ 2 ^ n → m ≡ n
pow-injective zero zero e = refl
pow-injective zero (suc n) e = absurd (omega (arith, pow-suc 2 n, pow_positive n))
pow-injective (suc m) zero e = absurd (omega (arith, pow-suc 2 m, pow_positive m))
pow-injective (suc m) (suc n) e =
    omega (arith, pow-injective m n (omega (arith, pow-suc 2 m, pow-suc 2 n)))

kind_number-injective :
    (kind kind' : Permit3MessageKind) → kind_number kind ≡ kind_number kind' → kind ≡ kind'
kind_number-injective kind kind' e = ground arith

-- Two Permit3 nonces that permit3Nonce allocates and that share a word and a mask of the bitmap
-- are of one kind and of one sequence number.
pub permit3_nonce_disjoint :
    (kind kind' : Permit3MessageKind) (seq seq' nonce nonce' : ℕ)
    → permit3_nonce kind seq ≡ ok nonce
    → permit3_nonce kind' seq' ≡ ok nonce'
    → permit3_nonce_word nonce ≡ permit3_nonce_word nonce'
    → permit3_nonce_mask nonce ≡ permit3_nonce_mask nonce'
    → (kind ≡ kind') × (seq ≡ seq')
unfolding permit3_nonce_word permit3_nonce_mask
permit3_nonce_disjoint kind kind' seq seq' nonce nonce' e e' word mask =
    let low : nonce % 2 ^ 8 ≡ nonce' % 2 ^ 8 =
      pow-injective (nonce % 2 ^ 8) (nonce' % 2 ^ 8) mask in
    let same : nonce ≡ nonce' = omega arith in
    let (fits, sum) = permit3_nonce-sum kind seq nonce e in
    let (fits', sum') = permit3_nonce-sum kind' seq' nonce' e' in
    (kind_number-injective kind kind' (omega arith), omega arith)

permit3_nonce_kind_top :
    (kind : Permit3MessageKind) (nonce : ℕ)
    → nonce / 2 ^ 248 ≡ kind_number kind
    → permit3_nonce_kind nonce ≡ some kind
unfolding permit3_nonce_kind
permit3_nonce_kind_top batch nonce e = ground (arith, e)
permit3_nonce_kind_top take_kind nonce e = ground (arith, e)
permit3_nonce_kind_top transfer nonce e = ground (arith, e)

is_kind_self : (kind : Permit3MessageKind) → is_kind (some kind) kind ≡ true
unfolding is_kind
is_kind_self kind = ground arith

is_kind-some : (kind asked : Permit3MessageKind) → is_kind (some kind) asked ≡ true → asked ≡ kind
unfolding is_kind
is_kind-some kind asked e = ground (arith, e)

-- An allocated nonce passes the check of its own kind and of no other.
pub assert_permit3_nonce_own :
    (kind asked : Permit3MessageKind) (seq nonce : ℕ)
    → permit3_nonce kind seq ≡ ok nonce
    → (assert_permit3_nonce nonce asked ≡ ok nonce) ↔ (asked ≡ kind)
unfolding assert_permit3_nonce
assert_permit3_nonce_own kind asked seq nonce e =
    let (fits, sum) = permit3_nonce-sum kind seq nonce e in
    let top : permit3_nonce_kind nonce ≡ some kind =
      permit3_nonce_kind_top kind nonce (omega arith) in
    (
      λ passes.
          let r = simp top at passes in
          let (u, accepted, made) =
            >>=-eq-ok (throw_if (not (is_kind (some kind) asked)) wrong_namespace) _ r in
          is_kind-some kind asked (ground arith),
      λ same. simp (top, same, is_kind_self kind) refl,
    )
