-- ===== src/Sdk/Amend.antt =====
-- packages/sdk/src/amend.ts: patchOrder, the pure part of cancel-and-replace. A patch holds the
-- fields that it names. Signing the replacement and the retraction is not modelled.
mod Tests
pub mod Nonces
use delta_x.Prelude.{
  ℕ, Option, none, some, Bool, not, ◌&&◌, List, Result, ok, throw_if, ◌>>=◌, ◌>>◌, ◌==◌,
  if◌then◌else◌, stale_nonce, reused_nonce,
}
use delta_x.Sdk.Order.{Address, Order, OrderSide, LegIn, LegOut, CurvePoint, Item, Validator}
use delta_x.Sdk.Timing.{is_fill_once}
use delta_x.Sdk.Funding.{assert_order_nonce, with_default_item_policy, ItemPolicyDefaultOptions}
use delta_x.Sdk.Oco.{AbiCoder, renonce_oco_items}

-- `patch.field ?? previous`
unfoldable pub patched_or : {A : Type 0} → Option A → A → A
patched_or none previous = previous
patched_or (some a) previous = a

pub record OrderPatch : Type 0 where
  pub patched_nonce : Option ℕ
  pub patched_side : Option OrderSide
  pub patched_expiry : Option ℕ
  pub patched_legs_in : Option (List LegIn)
  pub patched_legs_out : Option (List LegOut)
  pub patched_timing : Option ℕ
  pub patched_exclusive_filler : Option Address
  pub patched_min_fill_anchor : Option ℕ
  pub patched_exclusivity_override_bps : Option ℕ
  pub patched_curve : Option (List CurvePoint)
  pub patched_gas_bump_bps : Option ℕ
  pub patched_gas_price_ref : Option ℕ
  pub patched_priority_scale : Option ℕ
  pub patched_baseline_priority_fee_wei : Option ℕ
  pub patched_items : Option (List Item)
  pub patched_validators : Option (List Validator)
  pub patched_invariants : Option (List Validator)
  pub patched_fill_module : Option Address
  pub patched_fill_total : Option ℕ
  pub patched_pricing_module : Option Address

pub record AmendOptions : Type 0 where
  pub leave_nonce_group : Bool
  pub replacement_policy : Option ℕ

-- The nonce of the replacement.
unfoldable pub replacement_nonce : Order → ℕ → AmendOptions → Result ℕ
replacement_nonce prev requested opts =
    if is_fill_once prev && not opts.leave_nonce_group
    then throw_if (not (requested == prev.nonce)) stale_nonce >> ok prev.nonce
    else throw_if (requested == prev.nonce) reused_nonce >> assert_order_nonce requested

-- `{ ...prev, ...patch, items, maker: prev.maker, nonce }`
unfoldable pub apply_patch : Order → OrderPatch → List Item → ℕ → Order
apply_patch prev patch items nonce = record prev {
  nonce = nonce;
  items = items;
  side = patched_or patch.patched_side prev.side;
  expiry = patched_or patch.patched_expiry prev.expiry;
  legs_in = patched_or patch.patched_legs_in prev.legs_in;
  legs_out = patched_or patch.patched_legs_out prev.legs_out;
  timing = patched_or patch.patched_timing prev.timing;
  exclusive_filler = patched_or patch.patched_exclusive_filler prev.exclusive_filler;
  min_fill_anchor = patched_or patch.patched_min_fill_anchor prev.min_fill_anchor;
  exclusivity_override_bps =
      patched_or patch.patched_exclusivity_override_bps prev.exclusivity_override_bps;
  curve = patched_or patch.patched_curve prev.curve;
  gas_bump_bps = patched_or patch.patched_gas_bump_bps prev.gas_bump_bps;
  gas_price_ref = patched_or patch.patched_gas_price_ref prev.gas_price_ref;
  priority_scale = patched_or patch.patched_priority_scale prev.priority_scale;
  baseline_priority_fee_wei = elim patch.patched_baseline_priority_fee_wei [
    | none ↦ prev.baseline_priority_fee_wei
    | some wei ↦ some wei
  ];
  validators = patched_or patch.patched_validators prev.validators;
  invariants = patched_or patch.patched_invariants prev.invariants;
  fill_module = patched_or patch.patched_fill_module prev.fill_module;
  fill_total = patched_or patch.patched_fill_total prev.fill_total;
  pricing_module = patched_or patch.patched_pricing_module prev.pricing_module;
}

-- `renonceOcoItems` runs only where the patch has no items.
unfoldable pub replacement_items : AbiCoder → Order → Option (List Item) → ℕ → Result (List Item)
replacement_items abi prev none nonce = renonce_oco_items abi prev.items prev.nonce nonce
replacement_items abi prev (some items) nonce = ok items

unfoldable pub patch_order : AbiCoder → Order → ℕ → OrderPatch → AmendOptions → Result Order
patch_order abi prev next_nonce patch opts = do
  nonce ← replacement_nonce prev (patched_or patch.patched_nonce next_nonce) opts
  items ← replacement_items abi prev patch.patched_items nonce
  with_default_item_policy (apply_patch prev patch items nonce) (record {
    item_policy = opts.replacement_policy;
    settlement = none;
    proceeds_asset = λ (item : Item). none;
  })
