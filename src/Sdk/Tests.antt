-- ===== src/Sdk/Tests.antt =====
-- Runs of the order pricing and filling on small orders, and the theorems at inputs that meet their
-- hypotheses.
use mathlib.Core.List.Perm
use delta_x.Prelude.{
  ℕ, ◌+◌, ◌*◌, ◌≤◌, ◌≡◌, refl, none, some, [], ◌∷◌, arith, ok, false, List, ◌^◌, ◌-◌, ◌≢◌,
}
use delta_x.Sdk.Order.{Order, LegIn, LegOut, sell, buy, max_uint256, Address}
use delta_x.Sdk.Filling.{
  FillerContext, Preview, preview_fill_local, fill_amount_from_budget, is_maker_leg,
  override_has_carrier, excludes, outsider_override, exclusivity_override_for, budget_buy,
  effective_budget, budget_sell, budget_amount, clamp_amount, trim, admitted_delta, discount, lift,
  received_leg, lift_all, has_descent, needs_bump_floor,
}
use delta_x.Sdk.Filling.Covers.{budget_covers, budget_largest}
use delta_x.Sdk.Pricing.{
  anchor_total, ceil_div, segment_bps, segments_bps, last_point, curve_bps, linear_bps, clock_bps,
  gas_add, priority_bps, bump_bps, priority_bid, tick_out, current_amount_out_at, tick_in,
  fixed_out, leg_amount_out, fill_amounts_out, fixed_in, leg_input_owed,
}
use delta_x.Sdk.Timing.{flag, unpack_timing, Clocks, pack_timing, Params, pack_params}
use delta_x.Sdk.Proportional.{is_proportional, encode_proportional, resolve_proportional}
use delta_x.Sdk.Filling.Movers.{bump_bps_mono}
use delta_x.Sdk.Filling.Later.{leg_amount_out_falls}
use delta_x.Sdk.Pricing.Fills.{total_out, total_in, Fill, total_out_buy, total_in_sell}
use delta_x.Sdk.Selection.{
  QuoteBid, SelectOptions, AuctionOutcome, second_price, whole, select_quote, best_bids, keep_best,
  sort_bids, place, precedes, usable, outcome, clearing_bump, quorum,
}
use mathlib.Core.List.{Perm}
use delta_x.Sdk.Selection.Outcome.{
  select_quote-perm, lowest, select_quote-winner, select_quote-second_price,
}

-- Every function that a run goes through.
runs : Unit {0}
unfolding anchor_total ceil_div segment_bps segments_bps last_point curve_bps linear_bps clock_bps
    gas_add priority_bps bump_bps priority_bid tick_out current_amount_out_at tick_in fixed_out
    leg_amount_out fill_amounts_out fixed_in leg_input_owed is_maker_leg override_has_carrier
    excludes outsider_override exclusivity_override_for budget_buy effective_budget budget_sell
    budget_amount clamp_amount fill_amount_from_budget trim admitted_delta discount lift
    received_leg lift_all preview_fill_local has_descent needs_bump_floor flag unpack_timing
    is_proportional
runs = tt

-- 1,000 sold for 2,000 falling to 1,000, from time 100 on, over 50 seconds; filler 7 has the order
-- to itself until time 130, unless another improves the maker by 100 bps.
abbrev leg_given : LegIn
leg_given = record { token = 11; start = 1000; end = 0 }

abbrev leg_wanted : LegOut
leg_wanted = record { token = 12; start = 2000; end = 1000; recipient = 0 }

abbrev sell_order : Order
sell_order = record {
  maker = 5;
  side = sell;
  nonce = 1;
  expiry = 1000;
  legs_in = leg_given ∷ [];
  legs_out = leg_wanted ∷ [];
  timing = 100 + 50 * 0x1_0000_0000 + 130 * 0x1_0000_0000_0000_0000;
  exclusive_filler = 7;
  min_fill_anchor = 10;
  exclusivity_override_bps = 100;
  curve = [];
  gas_bump_bps = 0;
  gas_price_ref = 0;
  priority_scale = 0;
  baseline_priority_fee_wei = none;
  items = [];
  validators = [];
  invariants = [];
  fill_module = 0;
  fill_total = 0;
  pricing_module = 0;
}

-- 500 bought for 900 rising to 1,100, on the same clock, with no exclusivity.
abbrev leg_offered : LegIn
leg_offered = record { token = 11; start = 900; end = 1100 }

abbrev leg_bought : LegOut
leg_bought = record { token = 12; start = 500; end = 0; recipient = 5 }

abbrev buy_order : Order
buy_order = record sell_order {
  side = buy;
  legs_in = leg_offered ∷ [];
  legs_out = leg_bought ∷ [];
  exclusive_filler = 0;
}

abbrev outsider : FillerContext
outsider = record { filler = 9; base_fee = 0; priority_fee = none; filler_set = none }

converted : fill_amount_from_budget sell_order 808 120 outsider none 0 ≡ ok 500
unfolding runs
converted = refl

abbrev preview : Preview
preview = record { delta = 500; received = 500 ∷ []; paid = 808 ∷ [] }

previewed : preview_fill_local sell_order 500 0 120 outsider false ≡ ok preview
unfolding runs
previewed = refl

budget_covers_example : 808 ≤ 808
budget_covers_example =
    budget_covers sell_order 808 0 120 500 outsider none leg_wanted [] refl converted 500 808 false
      preview previewed refl (omega arith)

abbrev plain_order : Order
plain_order = record sell_order { exclusive_filler = 0 }

plain_converted : fill_amount_from_budget plain_order 800 120 outsider none 0 ≡ ok 500
unfolding runs
plain_converted = refl

abbrev plain_preview : Preview
plain_preview = record { delta = 500; received = 500 ∷ []; paid = 800 ∷ [] }

plain_previewed : preview_fill_local plain_order 500 0 120 outsider false ≡ ok plain_preview
unfolding runs
plain_previewed = refl

no_fill_once : flag plain_order.timing 100 ≡ false
unfolding runs
no_fill_once = refl

budget_largest_example : 500 ≤ 500
budget_largest_example =
    budget_largest plain_order 800 0 120 500 outsider none leg_wanted [] refl plain_converted 500
      800 false plain_preview plain_previewed refl (omega arith) no_fill_once refl (omega arith)

only_falls : needs_bump_floor sell_order ≡ none
unfolding runs
only_falls = refl

bump_at_120 : bump_bps sell_order 120 0 none ≡ ok 4000
unfolding runs
bump_at_120 = refl

bump_bps_mono_example : (b : ℕ) × (bump_bps sell_order 140 0 none ≡ ok b) × (4000 ≤ b)
bump_bps_mono_example =
    bump_bps_mono sell_order 120 140 0 0 none none 4000 only_falls (omega arith) (omega arith)
      bump_at_120

slice_at_120 : leg_amount_out sell_order leg_wanted 1000 500 120 0 0 none ≡ ok 800
unfolding runs
slice_at_120 = refl

leg_amount_out_falls_example :
    (a : ℕ) × (leg_amount_out sell_order leg_wanted 1000 500 140 0 0 none ≡ ok a) × (a ≤ 800)
leg_amount_out_falls_example =
    leg_amount_out_falls sell_order 120 140 0 0 none none only_falls (omega arith) (omega arith)
      leg_wanted 1000 500 0 800 slice_at_120

only_rises : needs_bump_floor buy_order ≡ none
unfolding runs
only_rises = refl

owed_at_120 : leg_input_owed buy_order leg_offered 0 250 120 0 none ≡ ok 490
unfolding runs
owed_at_120 = refl

-- Three uneven fills at three times.
abbrev thirds : ℕ → List Fill
thirds n =
    record { amount = 101; at = 110; base_fee = 0; fee = none }
    ∷ record { amount = 200; at = 125; base_fee = 3; fee = none }
    ∷ record { amount = n; at = 190; base_fee = 0; fee = some 4 }
    ∷ []

total_out_buy_example : total_out buy_order leg_bought 500 0 (thirds 199) ≡ ok 500
total_out_buy_example = total_out_buy buy_order leg_bought 500 (thirds 199) refl (omega arith) refl

sell_anchor : anchor_total sell_order ≡ ok 1000
unfolding runs
sell_anchor = refl

total_in_sell_example : total_in sell_order leg_given 0 (thirds 699) ≡ ok 1000
total_in_sell_example =
    total_in_sell sell_order leg_given 1000 (thirds 699) refl refl sell_anchor (omega arith) refl

buy_anchor : anchor_total buy_order ≡ ok 500
unfolding runs
buy_anchor = refl

buy_owed : total_in buy_order leg_offered 0 (thirds 199) ≡ ok 1026
unfolding runs total_in
buy_owed = refl

sell_delivered : total_out sell_order leg_wanted 1000 0 (thirds 699) ≡ ok 1181
unfolding runs total_out
sell_delivered = refl

tick_at_120 : tick_out sell_order leg_wanted 120 0 none ≡ ok 1600
unfolding runs
tick_at_120 = refl

premium_charged : exclusivity_override_for sell_order 9 120 none ≡ ok 100
unfolding runs
premium_charged = refl

abbrev clocks : Clocks
clocks = record { decay_start_time = 100; decay_duration = 50; exclusivity_end_time = 130 }

packed_clocks : pack_timing clocks ≡ ok sell_order.timing
unfolding pack_timing
packed_clocks = refl

abbrev params : Params
params = record {
  override_bps = 100;
  gas_bump_bps = 0;
  gas_price_ref = 7;
  priority_scale = 0;
  baseline_priority_fee_wei = 1;
}

abbrev params_word : ℕ
params_word = 100 + 7 * 2 ^ 32 + 2 ^ 160

packed_params : pack_params params ≡ ok params_word
unfolding pack_params
packed_params = refl

abbrev half_balance : ℕ
half_balance = max_uint256 - 5000

encoded_half : encode_proportional 5000 ≡ ok half_balance
unfolding encode_proportional
encoded_half = refl

resolved_half : resolve_proportional 700 half_balance 300 ≡ ok 300
unfolding resolve_proportional
resolved_half = refl

abbrev bid : ℕ → ℕ → QuoteBid
bid f n = record { filler = f; bump_bps = whole n; commitment = none }

abbrev bids : List QuoteBid
bids = bid 3 500 ∷ bid 2 400 ∷ bid 3 450 ∷ []

abbrev bids_later : List QuoteBid
bids_later = bid 2 400 ∷ bid 3 500 ∷ bid 3 450 ∷ []

abbrev vickrey : SelectOptions
vickrey = record { rule = none; min_bidders = none }

swapped : Perm bids bids_later
swapped = Perm.swap _ _ _

select_quote-perm_example : select_quote bids vickrey ≡ select_quote bids_later vickrey
select_quote-perm_example = select_quote-perm bids bids_later vickrey swapped

abbrev won : AuctionOutcome
won = record {
  winner = 2;
  bump_bps = 450;
  winning_bid_bps = 400;
  runner_up_bps = some 450;
  bidders = 2;
  rule = second_price;
}

selected : select_quote bids vickrey ≡ some won
unfolding select_quote best_bids keep_best sort_bids place precedes usable outcome clearing_bump
    quorum
selected = refl

select_quote-winner_example :
    (lowest 2 none bids ≡ some 400)
    × (lowest 3 none bids ≡ some 450 → (400 ≤ 450) × (◌≡◌ {A = ℕ} 450 400 → 2 ≤ 3))
select_quote-winner_example = select_quote-winner bids vickrey won 3 450 selected

enough_bidders : quorum second_price none ≤ 2
unfolding quorum
enough_bidders = omega arith

select_quote-second_price_example :
    (◌≡◌ {A = ℕ} 450 450)
    × (400 ≤ 450)
    × ((f : Address) (n : ℕ) → f ≢ 2 → lowest f none bids ≡ some n → 450 ≤ n)
    × ((g : Address) × (g ≢ 2) × (lowest g none bids ≡ some 450))
select_quote-second_price_example =
    select_quote-second_price bids vickrey won 450 refl selected refl enough_bidders
