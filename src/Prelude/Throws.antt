-- ===== src/Prelude/Throws.antt =====
-- Code that may throw: a result type with `do`. The errors are those that the modelled TypeScript
-- raises: the messages of the pricing and filling helpers, a `RangeError` from a bigint division by
-- zero, and a `TypeError` from a field of a missing leg.
use Prim.Native.Nat.{ℕ, ◌/◌}
use mathlib.Core.Path.{◌≡◌, refl}
use mathlib.Core.Logic.{◌⊎◌, inl, inr}
use mathlib.Core.Bool.{Bool, true, false}
use mathlib.Core.List.{List, [], ◌∷◌}
use mathlib.Core.Option.{Option, none, some}
use delta_x.Prelude.Tests.{◌==◌, if◌then◌else◌}

pub data Error : Type 0 where
  division_by_zero missing_leg proportional_marker price_module pricing_needs_context : Error
  invalid_auction_params auction_not_started not_exclusive_filler malformed_filler_set : Error
  invalid_override_bps fill_module_order zero_fill fill_too_small over_fill : Error
  fill_once_must_be_full out_of_range no_cap invalid_proportional_leg wrong_signer : Error
  invalid_bump invalid_timestamp invalid_deadline invalid_progress malformed_quote : Error
  not_an_address too_many_elements blob_too_short trailing_bytes empty_filler_set : Error
  reserved_timing_bits unnamed_filler not_delivering : Error
  too_few_legs maker_mismatch repeated_nonces no_anchor invalid_claim : Error
  loose_siblings stale_nonce reused_nonce wrong_namespace : Error
  empty_condition unknown_flags : Error

pub data Result {ℓ} (A : Type ℓ) : Type ℓ where
  err : (thrown : Error) → Result A
  ok : (value : A) → Result A

-- `if (test) throw error`
abbrev pub throw_if : Bool → Error → Result (Unit {0})
throw_if false thrown = ok tt
throw_if true thrown = err thrown

infixl 5 ◌>>=◌ ◌>>◌
abbrev pub ◌>>=◌ {κ ℓ} : {B : Type κ} {A : Type ℓ} → Result A → (A → Result B) → Result B
err thrown >>= next = err thrown
ok value >>= next = next value

-- statements in sequence: the code after a test that throws
abbrev pub ◌>>◌ {ℓ} : {A : Type ℓ} → Result (Unit {0}) → Result A → Result A
test >> rest = test >>= λ _. rest

abbrev pub or_throw {ℓ} : {A : Type ℓ} → Option A → Error → Result A
or_throw none e = err e
or_throw (some a) e = ok a

-- bigint `a / b` on non-negative operands
abbrev pub div : ℕ → ℕ → Result ℕ
div a b = if b == 0 then err division_by_zero else ok (a / b)

-- To split on a computed result and keep the equation.
pub Result-cases {ℓ} :
    {A : Type ℓ} (r : Result A) → ((a : A) × (r ≡ ok a)) ⊎ ((e : Error) × (r ≡ err e))
Result-cases (ok a) = inl (a, refl)
Result-cases (err e) = inr (e, refl)

-- `Array.prototype.map` over a callback that may throw
module _ {ℓ κ} {A : Type ℓ} {B : Type κ} where
  abbrev pub map_m : (A → Result B) → List A → Result (List B)
  map_m f [] = ok []
  map_m f (x ∷ xs) = f x >>= λ y. map_m f xs >>= λ ys. ok (y ∷ ys)

  -- What a statement returned where the code after it returned.
  pub >>=-eq-ok :
      (m : Result A) (next : A → Result B) {b : B}
      → (m >>= next) ≡ ok b
      → (a : A) × (m ≡ ok a) × (next a ≡ ok b)
  >>=-eq-ok (err thrown) next returns = cc
  >>=-eq-ok (ok value) next returns = (value, refl, returns)

pub ok-injective {ℓ} : {A : Type ℓ} {a b : A} → ok a ≡ ok b → a ≡ b
ok-injective e = cc e
