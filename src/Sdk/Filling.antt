-- ===== src/Sdk/Filling.antt =====
-- packages/sdk/src/filling.ts: what a filler quotes before it sends a fill. The entries that encode
-- calldata are calls of viem and are not modelled.
pub mod Movers
pub mod Exclusivity
pub mod Budget
pub mod Covers
pub mod Spend
pub mod Quoted
pub mod Later
use delta_x.Prelude.{
  ℕ, ◌+◌, ◌-◌, ◌*◌, ◌/◌, Bool, true, false, not, ◌&&◌, ◌||◌, Option, none, some, List, [], ◌∷◌,
  Result, ok, err, missing_leg, fill_module_order, not_exclusive_filler, malformed_filler_set,
  invalid_override_bps, zero_fill, fill_too_small, over_fill, fill_once_must_be_full, throw_if,
  or_throw, map_m, ◌>>=◌, ◌>>◌, ltb, leb, ◌==◌, if◌then◌else◌, get_elem?, any,
}
use delta_x.Sdk.Order.{
  Address, Order, OrderSide, sell, buy, LegIn, LegOut, CurvePoint, bps, zero_address,
  filler_set_sentinel, max_uint256, is_buy,
}
use delta_x.Sdk.Timing.{
  flag, fill_once_bit_index, delta_verify_outputs_bit, unpack_timing, timing_flags,
}
use delta_x.Sdk.Proportional.{is_proportional}
use delta_x.Sdk.Pricing.{
  anchor_total, ceil_div, current_amount_out_at, leg_input_owed, fill_amounts_out,
}

pub record FillerContext : Type 0 where
  pub filler : Address
  pub base_fee : ℕ
  pub priority_fee : Option ℕ
  pub filler_set : Option (List Address)

-- An output leg that goes to the maker.
unfoldable pub is_maker_leg : Order → LegOut → Bool
is_maker_leg order leg = leg.recipient == zero_address || leg.recipient == order.maker

unfoldable pub override_has_carrier : Order → Bool
unfolding is_maker_leg
override_has_carrier order =
    if any
      (λ leg.
        ((is_buy order.side && not (leg.start == 0)) || not (leg.end == 0))
        && not (is_proportional leg.start))
      order.legs_in
    then true
    else if is_buy order.side
    then false
    else any (λ leg. not (leg.start == 0) && is_maker_leg order leg) order.legs_out

-- Whether the filler is outside the signed set, which must be there and not empty.
set_excludes : Option (List Address) → Address → Result Bool
set_excludes none filler = err malformed_filler_set
set_excludes (some []) filler = err malformed_filler_set
set_excludes (some (f ∷ fs)) filler = ok (not (any (λ g. g == filler) (f ∷ fs)))

-- `excluded` of `exclusivityOverrideFor`
unfoldable pub excludes : Order → Address → Option (List Address) → Result Bool
unfolding set_excludes
excludes order filler filler_set =
    if order.exclusive_filler == filler_set_sentinel
    then set_excludes filler_set filler
    else ok (not (filler == order.exclusive_filler))

-- The premium of an excluded filler.
unfoldable pub outsider_override : Order → Result ℕ
outsider_override order = do
  throw_if (order.exclusivity_override_bps == 0 || not (override_has_carrier order))
      not_exclusive_filler
  throw_if (ltb bps order.exclusivity_override_bps) invalid_override_bps
  ok order.exclusivity_override_bps

unfoldable pub exclusivity_override_for : Order → Address → ℕ → Option (List Address) → Result ℕ
exclusivity_override_for order filler now filler_set = do
  throw_if (flag order.timing delta_verify_outputs_bit && not (filler == order.exclusive_filler))
      not_exclusive_filler
  let open_to_all = order.exclusive_filler == zero_address
  let over = leb (unpack_timing order.timing).exclusivity_end_time now
  if open_to_all || over then ok 0 else do
    excluded ← excludes order filler filler_set
    if not excluded then ok 0 else outsider_override order

-- The `fillAmount` that a budget buys of a fixed output of `start`.
unfoldable pub budget_buy : ℕ → ℕ → ℕ → ℕ → Result ℕ
budget_buy start total prev_filled budget = if start == 0 then ok 0 else do
  c ← ceil_div (start * prev_filled) total
  let reach = (budget + c) * total / start
  ok (if ltb prev_filled reach then reach - prev_filled else 0)

-- The budget after the premium, where leg 0 carries it.
unfoldable pub effective_budget : Bool → ℕ → ℕ → ℕ
effective_budget lifted ov budget = if lifted then budget * bps / (bps + ov) else budget

-- The `fillAmount` that a budget buys at a tick.
unfoldable pub budget_sell : ℕ → ℕ → ℕ → ℕ
budget_sell tick total effective = if tick == 0 then 0 else effective * total / tick

-- The conversion of the budget, before the clamps.
unfoldable pub budget_amount : Order → OrderSide → ℕ → ℕ → FillerContext → ℕ → ℕ → Result ℕ
budget_amount order buy budget now ctx total prev_filled = do
  leg ← or_throw (get_elem? order.legs_out 0) missing_leg
  budget_buy leg.start total prev_filled budget
budget_amount order sell budget now ctx total prev_filled = do
  out0 ← current_amount_out_at order 0 now ctx.base_fee ctx.priority_fee
  ov ← exclusivity_override_for order ctx.filler now ctx.filler_set
  leg ← or_throw (get_elem? order.legs_out 0) missing_leg
  let lifted = not (ov == 0) && is_maker_leg order leg
  ok (budget_sell out0 total (effective_budget lifted ov budget))

-- The clamps to the remainder and to the caller's `remaining`, and the whole-or-nothing rule.
unfoldable pub clamp_amount : Bool → ℕ → ℕ → Option ℕ → ℕ → ℕ
clamp_amount fill_once total prev_filled remaining amount =
    let trimmed =
      if ltb prev_filled total && ltb (total - prev_filled) amount
      then total - prev_filled
      else amount in
    let capped : ℕ = elim remaining [
      | none ↦ trimmed
      | some r ↦ if ltb r trimmed then r else trimmed
    ] in
    if fill_once && not (prev_filled + capped == total) then 0 else capped

-- `prev_filled` is `ctx.prevFilled ?? 0n`.
unfoldable pub fill_amount_from_budget : Order → ℕ → ℕ → FillerContext → Option ℕ → ℕ → Result ℕ
fill_amount_from_budget order budget now ctx remaining prev_filled = do
  throw_if (not (order.fill_module == zero_address)) fill_module_order
  total ← anchor_total order
  amount ← budget_amount order order.side budget now ctx total prev_filled
  ok (clamp_amount (flag order.timing fill_once_bit_index) total prev_filled remaining amount)

-- The request trimmed to the remainder; a proportional one only at the "any size" sentinel.
unfoldable pub trim : Bool → ℕ → ℕ → ℕ → ℕ
trim proportional total prev_filled fill_amount =
    if ltb prev_filled total
      && (ltb (total - prev_filled) fill_amount && (not proportional || fill_amount == max_uint256))
    then total - prev_filled
    else fill_amount

-- The fill that the settler would make of a request, or its revert.
unfoldable pub admitted_delta : Order → Bool → ℕ → ℕ → ℕ → Result ℕ
admitted_delta order proportional total prev_filled fill_amount = do
  let delta = trim proportional total prev_filled fill_amount
  throw_if (ltb delta order.min_fill_anchor) fill_too_small
  throw_if (ltb total (prev_filled + delta)) over_fill
  throw_if (flag order.timing fill_once_bit_index && not (prev_filled + delta == total))
      fill_once_must_be_full
  ok delta

-- What the premium leaves of an auctioned input.
unfoldable pub discount : Order → ℕ → LegIn → ℕ → ℕ
discount order ov leg owed =
    if not (owed == 0) && (not (ov == 0) && (is_buy order.side || not (leg.end == 0)))
    then owed * (bps - ov) / bps
    else owed

-- What the premium adds to an output of the maker on a SELL.
unfoldable pub lift : Order → ℕ → LegOut → ℕ → Result ℕ
lift order ov leg amount =
    if not (amount == 0) && (not (ov == 0) && (not (is_buy order.side) && is_maker_leg order leg))
    then ceil_div (amount * (bps + ov)) bps
    else ok amount

-- One entry of `received`.
unfoldable pub received_leg : Order → FillerContext → ℕ → ℕ → ℕ → ℕ → LegIn → Result ℕ
received_leg order ctx ov prev_filled new_filled now leg = do
  owed ← leg_input_owed order leg prev_filled new_filled now ctx.base_fee ctx.priority_fee
  ok (discount order ov leg owed)

-- The premium on the amounts of `fillAmountsOut`, leg by leg.
unfoldable pub lift_all : Order → ℕ → List LegOut → List ℕ → Result (List ℕ)
lift_all order ov (leg ∷ legs) (amount ∷ amounts) = do
  paid ← lift order ov leg amount
  rest ← lift_all order ov legs amounts
  ok (paid ∷ rest)
lift_all order ov _ _ = ok []

pub record Preview : Type 0 where
  pub delta : ℕ
  pub received : List ℕ
  pub paid : List ℕ

unfoldable pub preview_fill_local : Order → ℕ → ℕ → ℕ → FillerContext → Bool → Result Preview
preview_fill_local order fill_amount prev_filled now ctx proportional = do
  throw_if (not (order.fill_module == zero_address)) fill_module_order
  throw_if (fill_amount == 0) zero_fill
  total ← anchor_total order
  delta ← admitted_delta order proportional total prev_filled fill_amount
  ov ← exclusivity_override_for order ctx.filler now ctx.filler_set
  received ← map_m (received_leg order ctx ov prev_filled (prev_filled + delta) now) order.legs_in
  amounts ← fill_amounts_out order delta now prev_filled ctx.base_fee ctx.priority_fee
  paid ← lift_all order ov order.legs_out amounts
  ok (record { delta = delta; received = received; paid = paid })

-- The movers that `needsBumpFloor` names.
pub data Mover : Type 0 where
  price_module priority_auction gas_bump descending_segment : Mover

unfoldable pub has_descent : List CurvePoint → Bool
has_descent [] = false
has_descent (p ∷ []) = false
has_descent (p ∷ q ∷ rest) = ltb q.bump_bps p.bump_bps || has_descent (q ∷ rest)

unfoldable pub needs_bump_floor : Order → Option Mover
unfolding timing_flags
needs_bump_floor order =
    if not (order.pricing_module == zero_address)
    then some price_module
    else if (timing_flags order.timing).priority_auction
    then some priority_auction
    else if not (order.gas_bump_bps == 0)
    then some gas_bump
    else if not (order.exclusive_filler == filler_set_sentinel) && has_descent order.curve
    then some descending_segment
    else none
