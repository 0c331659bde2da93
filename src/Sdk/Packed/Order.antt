-- ===== src/Sdk/Packed/Order.antt =====
-- packages/sdk/src/packed.ts: packOrder with its guards, and unpackOrder. The check of the side's
-- range has no counterpart, since a side is one of two constructors.
use Prim.Native.Nat.{bit_or}
use delta_x.Prelude.{
  ℕ, suc, ◌∷◌, ◌*◌, ◌/◌, ◌%◌, ◌^◌, ◌-◌, Option, none, some, Bool, not, ◌&&◌, ◌||◌, List, [], Result,
  ok, throw_if, ◌>>=◌, ◌>>◌, ltb, leb, ◌==◌, if◌then◌else◌, length, out_of_range,
  reserved_timing_bits, unnamed_filler, not_delivering,
}
use delta_x.Sdk.Order.{
  Address, Order, OrderSide, sell, buy, Item, op_settle, zero_address, filler_set_sentinel,
}
use delta_x.Sdk.Timing.{
  flag, block_clock_bit, delta_verify_outputs_bit, unpack_timing, pack_params, unpack_params,
}
use delta_x.Sdk.Funding.{assert_order_nonce}
use delta_x.Sdk.Packed.{
  Bytes, is_empty, pack_legs_in, pack_legs_out, pack_curve, pack_items, pack_validators, read_all,
  read_leg_in, read_leg_out, read_point, read_item, read_validator,
}

pub record WireOrder : Type 0 where
  pub maker : Address
  pub nonce : ℕ
  pub legs_in : Bytes
  pub legs_out : Bytes
  pub timing : ℕ
  pub exclusive_filler : Address
  pub min_fill_anchor : ℕ
  pub params : ℕ
  pub curve : Bytes
  pub items : Bytes
  pub validators : Bytes
  pub invariants : Bytes
  pub fill_module : Address
  pub fill_total : ℕ
  pub pricing_module : Address

abbrev pub side_bit : ℕ
side_bit = 101

abbrev pub expiry_offset : ℕ
expiry_offset = 160

abbrev pub reserved_from_bit : ℕ
reserved_from_bit = 105

-- `BigInt(order.side)`
abbrev pub side_number : OrderSide → ℕ
side_number sell = 0
side_number buy = 1

-- Zero and the sentinel of a filler set name nobody.
unfoldable pub names_no_filler : Order → Bool
names_no_filler order =
    order.exclusive_filler == zero_address || order.exclusive_filler == filler_set_sentinel

unfoldable pub settles : List Item → ℕ
settles [] = 0
settles (item ∷ items) = let rest = settles items in if item.op == op_settle then suc rest else rest

-- Does the order's only consideration stand in its invariants?
unfoldable pub is_invariant_only : Order → Bool
is_invariant_only order =
    let position_item = not (length order.items == settles order.items) in
    not (is_empty order.invariants)
    && not (not (is_empty order.legs_out) && (settles order.items == 0 || position_item))

unfoldable pub assert_invariant_consideration : Order → Result (Unit {0})
assert_invariant_consideration order =
    let lifelong =
      leb (if flag order.timing block_clock_bit then 0xffff_ffff else order.expiry)
        (unpack_timing order.timing).exclusivity_end_time in
    throw_if
      (is_invariant_only order
        && (names_no_filler order || (not (order.exclusivity_override_bps == 0) || not lifelong)))
      not_delivering

-- `timing | (side << SIDE_BIT) | (expiry << EXPIRY_OFFSET)`
unfoldable pub fold_timing : ℕ → OrderSide → ℕ → ℕ
fold_timing timing side expiry =
    bit_or (bit_or timing (side_number side * 2 ^ side_bit)) (expiry * 2 ^ expiry_offset)

unfoldable pub baseline_or_zero : Option ℕ → ℕ
baseline_or_zero none = 0
baseline_or_zero (some wei) = wei

-- The tests of packOrder before anything is written, in their order.
unfoldable pub pack_guards : Order → Result (Unit {0})
pack_guards order = do
  throw_if (flag order.timing side_bit) reserved_timing_bits
  throw_if (not (order.timing / 2 ^ reserved_from_bit == 0)) reserved_timing_bits
  nonce ← assert_order_nonce order.nonce
  throw_if (not (order.expiry / 2 ^ 48 == 0)) out_of_range
  throw_if (flag order.timing delta_verify_outputs_bit && names_no_filler order) unnamed_filler
  assert_invariant_consideration order

unfoldable pub pack_order : (ℕ → ℕ → Result Bytes) → Order → Result WireOrder
pack_order number_to_hex order = do
  pack_guards order
  legs_in ← pack_legs_in number_to_hex order.legs_in
  legs_out ← pack_legs_out number_to_hex order.legs_out
  params ← pack_params (record {
    override_bps = order.exclusivity_override_bps;
    gas_bump_bps = order.gas_bump_bps;
    gas_price_ref = order.gas_price_ref;
    priority_scale = order.priority_scale;
    baseline_priority_fee_wei = baseline_or_zero order.baseline_priority_fee_wei;
  })
  curve ← pack_curve number_to_hex order.curve
  items ← pack_items number_to_hex order.items
  validators ← pack_validators number_to_hex order.validators
  invariants ← pack_validators number_to_hex order.invariants
  ok (record {
    maker = order.maker;
    nonce = order.nonce;
    legs_in = legs_in;
    legs_out = legs_out;
    timing = fold_timing order.timing order.side order.expiry;
    exclusive_filler = order.exclusive_filler;
    min_fill_anchor = order.min_fill_anchor;
    params = params;
    curve = curve;
    items = items;
    validators = validators;
    invariants = invariants;
    fill_module = order.fill_module;
    fill_total = order.fill_total;
    pricing_module = order.pricing_module;
  })

-- `(timing >> SIDE_BIT) & 1n`
unfoldable pub side_of : ℕ → OrderSide
side_of timing = if flag timing side_bit then buy else sell

-- `(timing >> EXPIRY_OFFSET) & U48`
unfoldable pub expiry_of : ℕ → ℕ
expiry_of timing = timing / 2 ^ expiry_offset % 2 ^ 48

-- `timing & ~(1n << SIDE_BIT) & ~(U48 << EXPIRY_OFFSET)`
unfoldable pub author_timing : ℕ → ℕ
author_timing timing =
    let no_side = timing - timing / 2 ^ side_bit % 2 * 2 ^ side_bit in
    no_side - no_side / 2 ^ expiry_offset % 2 ^ 48 * 2 ^ expiry_offset

-- set only where it is positive
unfoldable pub positive_baseline : ℕ → Option ℕ
positive_baseline wei = if ltb 0 wei then some wei else none

unfoldable pub unpack_order : (Address → Result Address) → WireOrder → Result Order
unpack_order get_address w = do
  maker ← get_address w.maker
  legs_in ← read_all (read_leg_in get_address) w.legs_in
  legs_out ← read_all (read_leg_out get_address) w.legs_out
  exclusive_filler ← get_address w.exclusive_filler
  curve ← read_all read_point w.curve
  items ← read_all (read_item get_address) w.items
  validators ← read_all (read_validator get_address) w.validators
  invariants ← read_all (read_validator get_address) w.invariants
  fill_module ← get_address w.fill_module
  pricing_module ← get_address w.pricing_module
  let p = unpack_params w.params
  ok (record {
    maker = maker;
    side = side_of w.timing;
    nonce = w.nonce;
    expiry = expiry_of w.timing;
    legs_in = legs_in;
    legs_out = legs_out;
    timing = author_timing w.timing;
    exclusive_filler = exclusive_filler;
    min_fill_anchor = w.min_fill_anchor;
    exclusivity_override_bps = p.override_bps;
    curve = curve;
    gas_bump_bps = p.gas_bump_bps;
    gas_price_ref = p.gas_price_ref;
    priority_scale = p.priority_scale;
    baseline_priority_fee_wei = positive_baseline p.baseline_priority_fee_wei;
    items = items;
    validators = validators;
    invariants = invariants;
    fill_module = fill_module;
    fill_total = w.fill_total;
    pricing_module = pricing_module;
  })
