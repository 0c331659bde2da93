-- ===== src/Sdk/Funding.antt =====
-- packages/sdk/src/types.ts: the words that say where an item's funds come from, and the default of
-- the item policy. The fields of a word are disjoint, so `|` of them is `bit_or`.
use Prim.Native.Nat.{bit_or}
use delta_x.Prelude.{
  ℕ, ◌*◌, ◌/◌, ◌%◌, ◌^◌, Option, none, some, Bool, true, false, not, ◌&&◌, ◌||◌, Result, ok,
  throw_if, ◌>>◌, ◌>>=◌, out_of_range, ltb, leb, ◌==◌, if◌then◌else◌, any,
}
use delta_x.Sdk.Order.{Address, Order, Item, ItemOp, op_take, op_take_for, LegIn, zero_address}
use delta_x.Sdk.Timing.{with_item_policy, item_policy_of}

-- `opBits`
unfoldable pub op_bits : ℕ → Result ℕ
op_bits op = do throw_if (ltb 255 op) out_of_range; ok (op * 2 ^ 244)

unfoldable pub for_leg : ℕ → ℕ → Result ℕ
for_leg index op = do
  throw_if (ltb 0xffff index) out_of_range
  bits ← op_bits op
  ok (bit_or (bit_or (2 ^ 255) bits) index)

unfoldable pub for_leg_pre_fund : ℕ → Address → ℕ → Result ℕ
for_leg_pre_fund index token op = do
  throw_if (ltb 0xffff index) out_of_range
  throw_if (leb (2 ^ 160) token) out_of_range
  bits ← op_bits op
  ok (bit_or (bit_or (bit_or (5 * 2 ^ 253) bits) (token * 2 ^ 16)) index)

unfoldable pub pre_fund_op : ℕ → ℕ
pre_fund_op desc = desc / 2 ^ 244 % 2 ^ 8

unfoldable pub is_pre_fund_desc : ℕ → Bool
is_pre_fund_desc desc = desc / 2 ^ 253 == 5

unfoldable pub pre_fund_token : ℕ → Result Address
pre_fund_token desc = do
  throw_if (not (is_pre_fund_desc desc)) out_of_range
  ok (desc / 2 ^ 16 % 2 ^ 160)

unfoldable pub for_balance : Address → ℕ → ℕ → Result ℕ
for_balance token floor op = do
  throw_if (ltb 10_000 floor) out_of_range
  bits ← op_bits op
  ok (bit_or (bit_or (bit_or (bit_or (2 ^ 255) (2 ^ 254)) bits) (floor * 2 ^ 160)) token)

unfoldable pub for_balance_floor_bps_raw : ℕ → ℕ
for_balance_floor_bps_raw desc = desc / 2 ^ 160 % 2 ^ 16

unfoldable pub for_balance_floor_bps : ℕ → ℕ
for_balance_floor_bps desc =
    if for_balance_floor_bps_raw desc == 0 then 10_000 else for_balance_floor_bps_raw desc

unfoldable pub for_total : ℕ → Result ℕ
for_total total = do throw_if (leb (2 ^ 255) total) out_of_range; ok total

-- `SIGNER_NONCE_NS`, bit 255
unfoldable pub is_reserved_nonce : ℕ → Bool
is_reserved_nonce nonce = nonce / 2 ^ 255 % 2 == 1

unfoldable pub assert_order_nonce : ℕ → Result ℕ
assert_order_nonce nonce = do throw_if (is_reserved_nonce nonce) out_of_range; ok nonce

-- Does an order with items leave the policy unset?
unfoldable pub item_policy_warning : Order → Bool
item_policy_warning order =
    any (λ (item : Item). true) order.items && item_policy_of order.timing == 0

-- `proceedsAsset` is `none` where the caller gives no resolver or it does not know.
pub record ItemPolicyDefaultOptions : Type 0 where
  pub item_policy : Option ℕ
  pub settlement : Option Address
  pub proceeds_asset : Item → Option Address

abbrev is_take : ItemOp → Bool
is_take op = op == op_take || op == op_take_for

abbrev is_some : Option Address → Address → Bool
is_some none a = false
is_some (some b) a = a == b

-- Does a take deliver an input token to the settlement?
unfoldable pub funds_input : Order → ItemPolicyDefaultOptions → Item → Bool
funds_input order opts item =
    is_take item.op
    && ((item.recipient == zero_address || is_some opts.settlement item.recipient)
        && elim (opts.proceeds_asset item) [
          | none ↦ true
          | some asset ↦ any (λ (leg : LegIn). leg.token == asset) order.legs_in
        ])

unfoldable pub take_funds_input_leg : Order → ItemPolicyDefaultOptions → Bool
take_funds_input_leg order opts =
    any (λ (leg : LegIn). true) order.legs_in && any (funds_input order opts) order.items

-- 1 is ItemPolicy.ORDERED.
unfoldable pub with_default_item_policy : Order → ItemPolicyDefaultOptions → Result Order
with_default_item_policy order opts = elim opts.item_policy [
  | some policy ↦ do
    timing ← with_item_policy order.timing policy
    ok (record order { timing = timing })
  | none ↦
      if not (item_policy_of order.timing == 0) || not (take_funds_input_leg order opts)
      then ok order
      else do timing ← with_item_policy order.timing 1; ok (record order { timing = timing })
]
