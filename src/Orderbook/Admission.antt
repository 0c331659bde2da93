-- ===== src/Orderbook/Admission.antt =====
-- packages/orderbook/src/admission.ts: what a book accepts before it pays for a lens call. `Number`
-- of an expiry is exact for every time that the bounds let pass. `known` is false where it is absent.
pub mod Bounds
use delta_x.Prelude.{
  ℕ, ◌+◌, ◌/◌, ◌%◌, ◌^◌, Option, none, some, List, Bool, true, false, not, ◌&&◌, ltb, leb, ◌==◌,
  if◌then◌else◌, length, any, all,
}
use delta_x.Sdk.Order.{Address, Order, LegIn, LegOut}

pub record AdmissionPolicy : Type 0 where
  pub max_orders : ℕ
  pub max_orders_per_maker : ℕ
  pub max_legs_in : ℕ
  pub max_legs_out : ℕ
  pub max_items : ℕ
  pub max_validators : ℕ
  pub max_curve_points : ℕ
  pub max_order_bytes : ℕ
  pub allowed_tokens : Option (List Address)
  pub min_ttl_seconds : ℕ
  pub max_ttl_seconds : ℕ
  pub require_delta_verify_outputs : Bool

unfoldable pub default_admission : AdmissionPolicy
default_admission = record {
  max_orders = 25_000;
  max_orders_per_maker = 100;
  max_legs_in = 8;
  max_legs_out = 8;
  max_items = 16;
  max_validators = 8;
  max_curve_points = 32;
  max_order_bytes = 16_384;
  allowed_tokens = none;
  min_ttl_seconds = 15;
  max_ttl_seconds = 7_776_000;
  require_delta_verify_outputs = false;
}

pub record AdmissionContext : Type 0 where
  pub size : ℕ
  pub maker_count : Address → ℕ
  pub now : ℕ
  pub known : Bool
  pub encoded_bytes : Option ℕ
  pub can_displace : Address → Bool

pub data AdmissionRefusal : Type 0 where
  no_legs too_many_inputs too_many_outputs too_many_items too_many_validators : AdmissionRefusal
  too_many_curve_points too_many_bytes token_not_listed not_delta_verified : AdmissionRefusal
  expires_too_soon expires_too_late at_capacity at_maker_limit soft_cancelled : AdmissionRefusal

unfoldable pub too_large : AdmissionPolicy → Option ℕ → Bool
too_large policy none = false
too_large policy (some n) = not (policy.max_order_bytes == 0) && ltb policy.max_order_bytes n

unfoldable pub is_listed : List Address → Address → Bool
is_listed allowed token = any (λ t. t == token) allowed

unfoldable pub lists_tokens : Option (List Address) → Order → Bool
lists_tokens none order = true
lists_tokens (some allowed) order =
    all (λ (leg : LegIn). is_listed allowed leg.token) order.legs_in
    && all (λ (leg : LegOut). is_listed allowed leg.token) order.legs_out

-- The checks of the order itself.
unfoldable pub check_order : Order → AdmissionContext → AdmissionPolicy → Option AdmissionRefusal
check_order order ctx policy =
    if length order.legs_in == 0 && length order.legs_out == 0
    then some no_legs
    else if ltb policy.max_legs_in (length order.legs_in)
    then some too_many_inputs
    else if ltb policy.max_legs_out (length order.legs_out)
    then some too_many_outputs
    else if ltb policy.max_items (length order.items)
    then some too_many_items
    else if ltb policy.max_validators (length order.validators + length order.invariants)
    then some too_many_validators
    else if not (policy.max_curve_points == 0) && ltb policy.max_curve_points (length order.curve)
    then some too_many_curve_points
    else if too_large policy ctx.encoded_bytes
    then some too_many_bytes
    else if not (lists_tokens policy.allowed_tokens order)
    then some token_not_listed
    else if policy.require_delta_verify_outputs && (order.timing / 2 ^ 104 % 2) == 0
    then some not_delta_verified
    else if ltb order.expiry (ctx.now + policy.min_ttl_seconds)
    then some expires_too_soon
    else if ltb (ctx.now + policy.max_ttl_seconds) order.expiry
    then some expires_too_late
    else none

-- The capacity checks, skipped for an order that is held.
unfoldable pub check_capacity :
    Address → AdmissionContext → AdmissionPolicy → Option AdmissionRefusal
check_capacity maker ctx policy =
    if ctx.known
    then none
    else if not (policy.max_orders == 0)
        && (leb policy.max_orders ctx.size && not (ctx.can_displace maker))
    then some at_capacity
    else if not (policy.max_orders_per_maker == 0)
        && leb policy.max_orders_per_maker (ctx.maker_count maker)
    then some at_maker_limit
    else none

-- The reason of a refusal, or `none` for `{ ok: true }`.
unfoldable pub check_admission :
    Order → AdmissionContext → AdmissionPolicy → Option AdmissionRefusal
check_admission order ctx policy = elim (check_order order ctx policy) [
  | some reason ↦ some reason
  | none ↦ check_capacity order.maker ctx policy
]
