-- ===== src/Sdk/Pricing.antt =====
-- packages/sdk/src/pricing.ts: the mirror of the contract's auction pricing and fill amounts.
-- Every division is by a number that the code has tested, or throws as the bigint division does.
-- A subtraction stands where the code's own test or the callers' order of arguments keeps it
-- non-negative: `prev ≤ new` for a fill from `prev` to `new`.
pub mod Bounds
pub mod Fills
pub mod Ceil
pub mod Curve
use delta_x.Prelude.{
  ℕ, ◌+◌, ◌-◌, ◌*◌, ◌/◌, not, ◌&&◌, ◌||◌, Option, List, [], ◌∷◌, Result, ok, missing_leg,
  proportional_marker, price_module, pricing_needs_context, invalid_auction_params,
  auction_not_started, throw_if, or_throw, div, map_m, ◌>>=◌, ◌>>◌, ltb, leb, ◌==◌, if◌then◌else◌,
  get_elem?,
}
use delta_x.Sdk.Order.{
  Order, OrderSide, sell, buy, LegIn, LegOut, CurvePoint, bps, zero_address, is_buy,
}
use delta_x.Sdk.Timing.{flag, priority_auction_bit, Clocks, unpack_timing}
use delta_x.Sdk.Proportional.{is_proportional}

-- the start of the leg that a side is anchored on
anchor_start : Order → OrderSide → Result ℕ
anchor_start order buy = do leg ← or_throw (get_elem? order.legs_out 0) missing_leg; ok leg.start
anchor_start order sell = do leg ← or_throw (get_elem? order.legs_in 0) missing_leg; ok leg.start

unfoldable pub anchor_total : Order → Result ℕ
unfolding anchor_start is_proportional
anchor_total order = if not (order.fill_total == 0) then ok order.fill_total else do
  anchor ← anchor_start order order.side
  throw_if (is_proportional anchor) proportional_marker
  ok anchor

unfoldable pub ceil_div : ℕ → ℕ → Result ℕ
ceil_div a b = if a == 0 then ok 0 else do q ← div (a - 1) b; ok (q + 1)

-- One segment of the curve; a falling one rounds its decrement up. The loop below enters it with
-- `p.time_delta ≤ elapsed < q.time_delta`.
unfoldable pub segment_bps : CurvePoint → CurvePoint → ℕ → ℕ
segment_bps p q elapsed =
    let span = q.time_delta - p.time_delta in
    if leb p.bump_bps q.bump_bps
    then p.bump_bps + (q.bump_bps - p.bump_bps) * (elapsed - p.time_delta) / span
    else p.bump_bps - ((p.bump_bps - q.bump_bps) * (elapsed - p.time_delta) + span - 1) / span

-- The loop over the segments; `bps` stays 0 where none is entered.
unfoldable pub segments_bps : CurvePoint → List CurvePoint → ℕ → ℕ
segments_bps p [] elapsed = 0
segments_bps p (q ∷ rest) elapsed =
    if ltb elapsed q.time_delta then segment_bps p q elapsed else segments_bps q rest elapsed

unfoldable pub last_point : CurvePoint → List CurvePoint → CurvePoint
last_point p [] = p
last_point p (q ∷ rest) = last_point q rest

unfoldable pub curve_bps : CurvePoint → List CurvePoint → ℕ → ℕ
curve_bps first rest elapsed =
    if leb elapsed first.time_delta
    then first.bump_bps
    else if leb (last_point first rest).time_delta elapsed
    then (last_point first rest).bump_bps
    else segments_bps first rest elapsed

-- The single linear segment.
unfoldable pub linear_bps : ℕ → ℕ → ℕ
linear_bps duration elapsed = if leb duration elapsed then bps else bps * elapsed / duration

-- The decay without a priority auction, before the gas bump.
unfoldable pub clock_bps : List CurvePoint → Clocks → ℕ → Result ℕ
clock_bps [] clocks now = if clocks.decay_duration == 0 then ok 0 else do
  throw_if (ltb now clocks.decay_start_time) auction_not_started
  ok (linear_bps clocks.decay_duration (now - clocks.decay_start_time))
clock_bps (first ∷ rest) clocks now = do
  throw_if (ltb now clocks.decay_start_time) auction_not_started
  ok (curve_bps first rest (now - clocks.decay_start_time))

-- What the gas bump adds.
unfoldable pub gas_add : Order → ℕ → ℕ
gas_add order base_fee =
    if not (order.gas_bump_bps == 0) && not (order.gas_price_ref == 0)
    then (let add = order.gas_bump_bps * base_fee / order.gas_price_ref in
        if ltb order.gas_bump_bps add then order.gas_bump_bps else add)
    else 0

-- The priority-auction branch of `bumpBps`.
unfoldable pub priority_bps : Order → ℕ → Option ℕ → Result ℕ
priority_bps order now priority_fee = do
  fee ← or_throw priority_fee pricing_needs_context
  throw_if (order.priority_scale == 0) invalid_auction_params
  throw_if (not (order.gas_bump_bps == 0)) invalid_auction_params
  let start = (unpack_timing order.timing).decay_start_time
  throw_if (not (start == 0) && ltb now start) auction_not_started
  let improve = (fee * bps + order.priority_scale - 1) / order.priority_scale
  ok (if leb bps improve then 0 else bps - improve)

unfoldable pub bump_bps : Order → ℕ → ℕ → Option ℕ → Result ℕ
bump_bps order now base_fee priority_fee = do
  throw_if (not (order.pricing_module == zero_address)) price_module
  if flag order.timing priority_auction_bit then priority_bps order now priority_fee else do
    clock ← clock_bps order.curve (unpack_timing order.timing) now
    let sum = clock + gas_add order base_fee
    ok (if ltb bps sum then bps else sum)

unfoldable pub priority_bid : ℕ → ℕ → ℕ → ℕ
priority_bid effective_gas_price base_fee baseline =
    let over_base : ℕ =
      if ltb base_fee effective_gas_price then effective_gas_price - base_fee else 0 in
    if ltb baseline over_base then over_base - baseline else 0

-- `currentAmountOutAt` at a leg in hand
unfoldable pub tick_out : Order → LegOut → ℕ → ℕ → Option ℕ → Result ℕ
tick_out order leg now base_fee priority_fee = if leg.end == 0 then ok leg.start else do
  throw_if (ltb leg.start leg.end) invalid_auction_params
  bump ← bump_bps order now base_fee priority_fee
  ok (leg.start - (leg.start - leg.end) * bump / bps)

unfoldable pub current_amount_out_at : Order → ℕ → ℕ → ℕ → Option ℕ → Result ℕ
current_amount_out_at order j now base_fee priority_fee = do
  leg ← or_throw (get_elem? order.legs_out j) missing_leg
  tick_out order leg now base_fee priority_fee

unfoldable pub current_amount_out : Order → ℕ → ℕ → Option ℕ → Result (List ℕ)
current_amount_out order now base_fee priority_fee =
    map_m (λ leg. tick_out order leg now base_fee priority_fee) order.legs_out

-- `currentAmountInAt` at a leg in hand
unfoldable pub tick_in : Order → LegIn → ℕ → ℕ → Option ℕ → Result ℕ
tick_in order leg now base_fee priority_fee = if leg.end == 0 then ok leg.start else do
  throw_if (ltb leg.end leg.start) invalid_auction_params
  bump ← bump_bps order now base_fee priority_fee
  ok (leg.start + (leg.end - leg.start) * bump / bps)

unfoldable pub current_amount_in_at : Order → ℕ → ℕ → ℕ → Option ℕ → Result ℕ
current_amount_in_at order i now base_fee priority_fee = do
  leg ← or_throw (get_elem? order.legs_in i) missing_leg
  tick_in order leg now base_fee priority_fee

unfoldable pub current_amount_in : Order → ℕ → ℕ → Option ℕ → Result (List ℕ)
current_amount_in order now base_fee priority_fee =
    map_m (λ leg. tick_in order leg now base_fee priority_fee) order.legs_in

-- `ceilDiv(start * new, anchor) - ceilDiv(start * prev, anchor)`: a slice of a fixed output
unfoldable pub fixed_out : ℕ → ℕ → ℕ → ℕ → Result ℕ
fixed_out start anchor prev_filled new_filled = do
  after ← ceil_div (start * new_filled) anchor
  before ← ceil_div (start * prev_filled) anchor
  ok (after - before)

-- The amount of one output leg on a fill.
unfoldable pub leg_amount_out : Order → LegOut → ℕ → ℕ → ℕ → ℕ → ℕ → Option ℕ → Result ℕ
leg_amount_out order leg anchor fill_amount now prev_filled base_fee priority_fee =
    if is_buy order.side
    then fixed_out leg.start anchor prev_filled (prev_filled + fill_amount)
    else do
      tick ← tick_out order leg now base_fee priority_fee
      ceil_div (fill_amount * tick) anchor

unfoldable pub fill_amounts_out : Order → ℕ → ℕ → ℕ → ℕ → Option ℕ → Result (List ℕ)
fill_amounts_out order fill_amount now prev_filled base_fee priority_fee = do
  anchor ← anchor_total order
  map_m (λ leg. leg_amount_out order leg anchor fill_amount now prev_filled base_fee priority_fee)
      order.legs_out

-- `(amt * new) / anchor - (amt * prev) / anchor`: a slice of a fixed input
unfoldable pub fixed_in : ℕ → ℕ → ℕ → ℕ → Result ℕ
fixed_in amount anchor prev_filled new_filled = do
  after ← div (amount * new_filled) anchor
  before ← div (amount * prev_filled) anchor
  ok (after - before)

-- `inputOwed` at a leg in hand
unfoldable pub leg_input_owed : Order → LegIn → ℕ → ℕ → ℕ → ℕ → Option ℕ → Result ℕ
leg_input_owed order leg prev_filled new_filled now base_fee priority_fee = do
  anchor ← anchor_total order
  let auctioned = is_buy order.side || not (leg.end == 0)
  if not auctioned then fixed_in leg.start anchor prev_filled new_filled else do
    tick ← tick_in order leg now base_fee priority_fee
    div ((new_filled - prev_filled) * tick) anchor

unfoldable pub input_owed : Order → ℕ → ℕ → ℕ → ℕ → ℕ → Option ℕ → Result ℕ
input_owed order i prev_filled new_filled now base_fee priority_fee = do
  leg ← or_throw (get_elem? order.legs_in i) missing_leg
  leg_input_owed order leg prev_filled new_filled now base_fee priority_fee
