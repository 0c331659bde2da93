-- ===== src/Sdk/Oco/Tests.antt =====
-- Brackets of two orders.

use delta_x.Prelude.{
  ℕ, ◌≡◌, refl, none, List, [], ◌∷◌, map, Result, ok, err, loose_siblings, length, All, ◌↔◌,
}
use delta_x.Sdk.Order.{Order, sell}
use delta_x.Sdk.Timing.{is_fill_once, with_fill_once, flag}
use delta_x.Sdk.Packed.{big_endian, int, big_int, take_bytes}
use delta_x.Sdk.Oco.{
  has_other_maker, oco_nonce_group, has_key, push_order, group_orders, is_loose,
  assert_nonce_siblings_fill_once, anchor_of, nonce_set, oco_group_validator, oco_group_item,
  is_claim, renonce_item, renonce_oco_items, oco_group_leg, oco_group,
}
use delta_x.Sdk.Oco.Coder.{word_coder, word_coder-IsAbiCoder}
use delta_x.Sdk.Oco.Groups.{siblings}
use delta_x.Sdk.Oco.Siblings.{
  oco_nonce_group-siblings, assert_nonce_siblings_fill_once-IsBracketed, IsBracketed,
}
use delta_x.Sdk.Oco.Claims.{HasClaim, IsDistinct, oco_group-HasClaim}

runs : Unit {0}
unfolding big_endian int big_int take_bytes is_fill_once with_fill_once flag has_other_maker
    oco_nonce_group has_key push_order group_orders is_loose assert_nonce_siblings_fill_once
    anchor_of nonce_set oco_group_validator oco_group_item is_claim renonce_item renonce_oco_items
    oco_group_leg oco_group
runs = tt

-- An order of maker 5 that gives 1,000.
abbrev leg_of : ℕ → Order
leg_of nonce = record {
  maker = 5;
  side = sell;
  nonce = nonce;
  expiry = 1000;
  legs_in = record { token = 11; start = 1000; end = 0 } ∷ [];
  legs_out = record { token = 12; start = 2000; end = 1000; recipient = 0 } ∷ [];
  timing = 100;
  exclusive_filler = 0;
  min_fill_anchor = 0;
  exclusivity_override_bps = 0;
  curve = [];
  gas_bump_bps = 0;
  gas_price_ref = 0;
  priority_scale = 0;
  baseline_priority_fee_wei = none;
  items = [];
  validators = [];
  invariants = [];
  fill_module = 0;
  fill_total = 0;
  pricing_module = 0;
}

abbrev stamped : ℕ → Order → Order
unfolding runs
stamped nonce leg = record leg { nonce = nonce; timing = with_fill_once leg.timing }

abbrev bracket : List Order
unfolding runs
bracket = stamped 9 (leg_of 1) ∷ stamped 9 (leg_of 2) ∷ []

stamps : oco_nonce_group (leg_of 1 ∷ leg_of 2 ∷ []) 9 ≡ ok bracket
unfolding runs
stamps = refl

lints : assert_nonce_siblings_fill_once (leg_of 9 ∷ bracket) ≡ err loose_siblings
unfolding runs
lints = refl

oco_nonce_group-siblings_example :
    (siblings 5 9 bracket ≡ bracket)
    × (length bracket ≡ 2)
    × (assert_nonce_siblings_fill_once bracket ≡ ok bracket)
unfolding runs
oco_nonce_group-siblings_example =
    oco_nonce_group-siblings (leg_of 1) (leg_of 2 ∷ []) bracket 9 refl

assert_nonce_siblings_fill_once-IsBracketed_example :
    (assert_nonce_siblings_fill_once bracket ≡ ok bracket) ↔ IsBracketed bracket
unfolding runs
assert_nonce_siblings_fill_once-IsBracketed_example =
    assert_nonce_siblings_fill_once-IsBracketed bracket

abbrev legs_or_none : Result (List Order) → List Order
legs_or_none (ok legs) = legs
legs_or_none (err thrown) = []

abbrev group_legs : List Order
unfolding runs
group_legs = legs_or_none (oco_group word_coder (leg_of 1 ∷ leg_of 2 ∷ []) 40 7)

oco_group-HasClaim_example :
    All (HasClaim word_coder word_coder-IsAbiCoder 7) group_legs
    × IsDistinct (map (λ (o : Order). o.nonce) group_legs)
unfolding runs
oco_group-HasClaim_example =
    oco_group-HasClaim word_coder word_coder-IsAbiCoder 40 7 (leg_of 1 ∷ leg_of 2 ∷ []) group_legs
      refl
