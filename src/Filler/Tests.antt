-- ===== src/Filler/Tests.antt =====
-- A falling SELL that the filler watches, a soft window, and a budget of one token.
use delta_x.Prelude.{
  ℕ, ◌+◌, ◌*◌, ◌^◌, ◌≡◌, refl, arith, none, some, List, [], ◌∷◌, ok, leb, ◌==◌, if◌then◌else◌,
}
use delta_x.Sdk.Order.{Order, LegIn, LegOut, sell}
use delta_x.Sdk.Timing.{flag, unpack_timing, is_fill_once}
use delta_x.Sdk.Proportional.{is_proportional}
use delta_x.Sdk.Pricing.{
  segment_bps, segments_bps, last_point, curve_bps, linear_bps, clock_bps, gas_add, priority_bps,
  bump_bps,
}
use delta_x.Sdk.Filling.{
  is_maker_leg, override_has_carrier, excludes, outsider_override, exclusivity_override_for,
}
use delta_x.Filler.Budget.{
  SpendEntry, BudgetLimits, prune_spends, used, remaining, same_ref, is_reservation, put_spend,
  spend, settle_spend,
}
use delta_x.Filler.Policy.{
  exclusivity_for, is_delta_verify, window_end_ms, is_fixed_price, anchor_size, fill_once_blocker,
  cap_fill_amount, rebalance_share, mint_replace_usdt0, rail_rif_out, rail_usdrif_for,
}
use delta_x.Filler.Policy.Exclusivity.{exclusivity_for-Agrees}
use delta_x.Filler.Recheck.{
  RecheckQuery, out_moves, in_moves, out_tick, in_tick, passes_at, search_from, decay_span,
  is_priced, floor_time, or_floor, finish, profitable_legs, profitable_at, scale_up,
}

runs : Unit {0}
unfolding flag unpack_timing is_fill_once is_proportional segment_bps segments_bps last_point
    curve_bps linear_bps clock_bps gas_add priority_bps bump_bps is_maker_leg override_has_carrier
    excludes outsider_override exclusivity_override_for prune_spends used remaining same_ref
    is_reservation put_spend spend settle_spend exclusivity_for is_delta_verify window_end_ms
    is_fixed_price anchor_size fill_once_blocker cap_fill_amount rebalance_share mint_replace_usdt0
    rail_rif_out rail_usdrif_for out_moves in_moves out_tick in_tick passes_at search_from
    decay_span is_priced floor_time or_floor finish profitable_legs profitable_at scale_up
runs = tt

abbrev leg_given : LegIn
leg_given = record { token = 11; start = 1000; end = 0 }

abbrev leg_wanted : LegOut
leg_wanted = record { token = 12; start = 2000; end = 1000; recipient = 0 }

abbrev falling : Order
falling = record {
  maker = 5;
  side = sell;
  nonce = 1;
  expiry = 1000;
  legs_in = leg_given ∷ [];
  legs_out = leg_wanted ∷ [];
  timing = 100 + 50 * 2 ^ 32 + 130 * 2 ^ 64;
  exclusive_filler = 7;
  min_fill_anchor = 10;
  exclusivity_override_bps = 100;
  curve = [];
  gas_bump_bps = 0;
  gas_price_ref = 0;
  priority_scale = 0;
  baseline_priority_fee_wei = none;
  items = [];
  validators = [];
  invariants = [];
  fill_module = 0;
  fill_total = 0;
  pricing_module = 0;
}

-- The gate passes once at most 1,900 is paid.
abbrev watched : RecheckQuery
watched = record {
  order = falling;
  bump_now = 0;
  paid_now = 2000;
  received_now = 1000;
  now_s = 98;
  horizon_s = 30;
  passes = λ (paid received : ℕ). leb paid 1900;
}

passes_at_105 : profitable_at watched ≡ some (some 105)
unfolding runs
passes_at_105 = refl

exclusivity_for-Agrees_example : exclusivity_override_for falling 9 110 none ≡ ok 100
unfolding runs
exclusivity_for-Agrees_example =
    exclusivity_for-Agrees falling 9 110 none refl refl (λ e. absurd (omega arith))

abbrev limits : BudgetLimits
limits = record { caps = λ (token : ℕ). if token == 12 then 500 else 0; window_ms = 3_600_000 }

-- 400 reserved under hash 77 and settled at 300, then 200 more
abbrev spends : List SpendEntry
unfolding runs
spends =
    spend limits 12 200 2000 none (settle_spend 77 12 300 (spend limits 12 400 1000 (some 77) []))
