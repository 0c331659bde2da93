-- ===== src/Sdk/Amend/Tests.antt =====
-- A fill-once order re-priced in its bracket, and a claim that moves to a fresh nonce.
use delta_x.Prelude.{
  ℕ, ◌+◌, ◌*◌, ◌^◌, ◌≡◌, ◌≢◌, refl, none, some, true, false, [], ◌∷◌, map, ok, err, stale_nonce,
}
use delta_x.Sdk.Order.{Order, sell, Item, op_settle}
use delta_x.Sdk.Timing.{is_fill_once, with_fill_once, flag, with_item_policy, item_policy_of}
use delta_x.Sdk.Funding.{
  is_reserved_nonce, assert_order_nonce, with_default_item_policy, take_funds_input_leg,
  funds_input,
}
use delta_x.Sdk.Packed.{big_endian, int, big_int, take_bytes}
use delta_x.Sdk.Oco.{is_claim, renonce_item, renonce_oco_items}
use delta_x.Sdk.Oco.Coder.{word_coder, word_coder-IsAbiCoder, word_bytes}
use delta_x.Sdk.Oco.Claims.{claim_of, rehome}
use delta_x.Sdk.Amend.{
  OrderPatch, AmendOptions, patched_or, replacement_nonce, apply_patch, replacement_items,
  patch_order,
}
use delta_x.Sdk.Amend.Nonces.{keeps_nonce, patch_order_nonce, patch_order_claims}

runs : Unit {0}
unfolding big_endian int big_int take_bytes is_fill_once with_fill_once flag with_item_policy
    item_policy_of is_reserved_nonce assert_order_nonce with_default_item_policy
    take_funds_input_leg funds_input is_claim renonce_item renonce_oco_items patched_or
    replacement_nonce apply_patch replacement_items patch_order
runs = tt

abbrev claim_item : ℕ → Item
unfolding runs
claim_item nonce = record {
  op = op_settle;
  module_address = 40;
  amount = 1000;
  recipient = 0;
  calldata = word_bytes 7 nonce 1000;
}

abbrev previous : Order
unfolding runs
previous = record {
  maker = 5;
  side = sell;
  nonce = 9;
  expiry = 1000;
  legs_in = record { token = 11; start = 1000; end = 0 } ∷ [];
  legs_out = record { token = 12; start = 2000; end = 1000; recipient = 0 } ∷ [];
  timing = 100 + 2 ^ 100;
  exclusive_filler = 0;
  min_fill_anchor = 0;
  exclusivity_override_bps = 0;
  curve = [];
  gas_bump_bps = 0;
  gas_price_ref = 0;
  priority_scale = 0;
  baseline_priority_fee_wei = none;
  items = claim_item 9 ∷ [];
  validators = [];
  invariants = [];
  fill_module = 0;
  fill_total = 0;
  pricing_module = 0;
}

-- only the expiry
abbrev later : OrderPatch
later = record {
  patched_nonce = none;
  patched_side = none;
  patched_expiry = some 2000;
  patched_legs_in = none;
  patched_legs_out = none;
  patched_timing = none;
  patched_exclusive_filler = none;
  patched_min_fill_anchor = none;
  patched_exclusivity_override_bps = none;
  patched_curve = none;
  patched_gas_bump_bps = none;
  patched_gas_price_ref = none;
  patched_priority_scale = none;
  patched_baseline_priority_fee_wei = none;
  patched_items = none;
  patched_validators = none;
  patched_invariants = none;
  patched_fill_module = none;
  patched_fill_total = none;
  patched_pricing_module = none;
}

abbrev staying : AmendOptions
staying = record { leave_nonce_group = false; replacement_policy = none }

abbrev leaving : AmendOptions
leaving = record { leave_nonce_group = true; replacement_policy = some 2 }

abbrev stayed : Order
unfolding runs
stayed = record previous { expiry = 2000 }

abbrev left : Order
unfolding runs
left = record previous {
  expiry = 2000;
  nonce = 33;
  timing = 100 + 2 * 2 ^ 96 + 2 ^ 100;
  items = claim_item 33 ∷ [];
}

stays : patch_order word_coder previous 9 later staying ≡ ok stayed
unfolding runs
stays = refl

refuses : patch_order word_coder previous 10 later staying ≡ err stale_nonce
unfolding runs
refuses = refl

-- A patch of the timing may clear the fill-once bit and keep the nonce of the bracket.
loses_fill_once :
    (order : Order) × (patch_order word_coder previous 9
        (record later { patched_timing = some 100 })
        staying
      ≡ ok order)
    × (is_fill_once order ≡ false)
    × (order.nonce ≡ previous.nonce)
unfolding runs
loses_fill_once = (record stayed { timing = 100 }, refl, refl, refl)

patch_order_nonce_example :
    (stayed.maker ≡ previous.maker)
    × (keeps_nonce previous staying ≡ true → stayed.nonce ≡ previous.nonce)
    × (keeps_nonce previous staying ≡ false
        → (stayed.nonce ≢ previous.nonce) × (is_reserved_nonce stayed.nonce ≡ false))
    × (later.patched_timing ≡ none → is_fill_once stayed ≡ is_fill_once previous)
unfolding runs
patch_order_nonce_example = patch_order_nonce word_coder previous stayed 9 later staying refl

patch_order_claims_example :
    map (claim_of word_coder) left.items
    ≡ map (rehome previous.nonce left.nonce) (map (claim_of word_coder) previous.items)
unfolding runs
patch_order_claims_example =
    patch_order_claims word_coder previous left 33 later leaving word_coder-IsAbiCoder refl refl
