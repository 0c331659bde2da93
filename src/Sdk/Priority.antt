-- ===== src/Sdk/Priority.antt =====
-- packages/sdk/src/priority.ts: orders whose bump is bid in priority fee, and the lint of such an
-- order. A text of the lint is a `Lint`.
use delta_x.Prelude.{
  ℕ, ◌/◌, ◌%◌, ◌^◌, ◌-◌, Option, none, some, List, [], ◌∷◌, ◌++◌, Bool, true, false, not, ltb, ◌==◌,
  Result, ok, err, throw_if, ◌>>◌, invalid_auction_params, any, if◌then◌else◌,
}
use delta_x.Sdk.Order.{Order, CurvePoint, LegOut, zero_address}
use delta_x.Sdk.Timing.{
  timing_flags, unpack_timing, with_priority_auction, with_fill_once, flag, priority_auction_bit,
  fill_once_bit_index,
}
use delta_x.Sdk.Pricing.{anchor_total}

pub record PriorityAuctionOptions : Type 0 where
  pub priority_scale : ℕ
  pub baseline_priority_fee_wei : Option ℕ
  pub partially_fillable : Bool
  pub min_fill_anchor : Option ℕ

pub data Lint : Type 0 where
  zero_scale zero_baseline partial_fills no_minimum unfillable_floor inert_floor : Lint
  inert_decay inert_curve dead_bid fixed_leg : Lint

-- Does the floor per fill pass the denominator? `false` where that cannot be resolved.
unfoldable pub is_unfillable : Order → Bool
is_unfillable order = elim (anchor_total order) [
  | ok total ↦ ltb total order.min_fill_anchor
  | err thrown ↦ false
]

unfoldable pub is_priority_auction : Order → Bool
is_priority_auction order = (order.timing / 2 ^ priority_auction_bit % 2) == 1

-- `timing & ~FILL_ONCE_BIT`
unfoldable pub without_fill_once : ℕ → ℕ
without_fill_once timing =
    if flag timing fill_once_bit_index then timing - 2 ^ fill_once_bit_index else timing

abbrev or_else : Option ℕ → ℕ → ℕ
or_else none n = n
or_else (some m) n = m

abbrev baseline_of : Option ℕ → ℕ
baseline_of none = 0
baseline_of (some m) = m

unfoldable pub priority_order : Order → PriorityAuctionOptions → Result Order
priority_order order opts = do
  throw_if (opts.priority_scale == 0) invalid_auction_params
  throw_if (not (order.gas_bump_bps == 0)) invalid_auction_params
  let timing = with_priority_auction order.timing
  ok (record order {
    timing = if opts.partially_fillable then without_fill_once timing else with_fill_once timing;
    priority_scale = opts.priority_scale;
    baseline_priority_fee_wei =
        some (or_else opts.baseline_priority_fee_wei (baseline_of order.baseline_priority_fee_wei));
    min_fill_anchor = or_else opts.min_fill_anchor order.min_fill_anchor;
  })

abbrev pub when : Bool → Lint → List Lint
when true lint = lint ∷ []
when false lint = []

abbrev is_empty : List CurvePoint → Bool
is_empty [] = true
is_empty (p ∷ rest) = false

-- The lint of the fill-once bit and the floor per fill.
unfoldable pub lint_fills : Order → List Lint
lint_fills order =
    if not (timing_flags order.timing).fill_once
    then partial_fills ∷ when (order.min_fill_anchor == 0) no_minimum
    else if not (order.min_fill_anchor == 0)
    then (if is_unfillable order then unfillable_floor else inert_floor) ∷ []
    else []

unfoldable pub lint_priority_order : Order → List Lint
lint_priority_order order =
    if not (is_priority_auction order)
    then []
    else when (order.priority_scale == 0) zero_scale
      ++ (when (baseline_of order.baseline_priority_fee_wei == 0) zero_baseline
          ++ (lint_fills order
              ++ (when (not ((unpack_timing order.timing).decay_duration == 0)) inert_decay
                  ++ (when (not (is_empty order.curve)) inert_curve
                      ++ (when (not (order.pricing_module == zero_address)) dead_bid
                          ++ when (any (λ (l : LegOut). l.end == 0) order.legs_out) fixed_leg)))))
