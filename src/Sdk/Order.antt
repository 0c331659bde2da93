-- ===== src/Sdk/Order.antt =====
-- packages/sdk/src/types.ts: the order and its parts.
-- An address is the number that its 20 bytes stand for, so `toLowerCase()` and a comparison of the
-- hex text are equality and order of numbers. Amounts, times and words are bigints that the code
-- keeps non-negative. Byte strings are lists of numbers.
use delta_x.Prelude.{ℕ, Option, List, Bool, true, false}

abbrev pub Address : Type 0
Address = ℕ

abbrev pub zero_address : Address
zero_address = 0

-- FILLER_SET_SENTINEL
abbrev pub filler_set_sentinel : Address
filler_set_sentinel = 1

abbrev pub max_uint256 : ℕ
max_uint256 = 0xffff_ffff_ffff_ffff_ffff_ffff_ffff_ffff_ffff_ffff_ffff_ffff_ffff_ffff_ffff_ffff

abbrev pub bps : ℕ
bps = 10_000

pub data OrderSide : Type 0 where
  sell buy : OrderSide

-- A numeric enum: at run time any number can stand in a field of this type.
abbrev pub ItemOp : Type 0
ItemOp = ℕ

abbrev pub op_make : ItemOp
op_make = 0

abbrev pub op_take : ItemOp
op_take = 1

abbrev pub op_settle : ItemOp
op_settle = 2

abbrev pub op_take_for : ItemOp
op_take_for = 3

pub record Item : Type 0 where
  pub op : ItemOp
  pub module_address : Address
  pub amount : ℕ
  pub recipient : Address
  pub calldata : List ℕ

pub record Validator : Type 0 where
  pub target : Address
  pub calldata : List ℕ

pub record CurvePoint : Type 0 where
  pub time_delta : ℕ
  pub bump_bps : ℕ

pub record LegIn : Type 0 where
  pub token : Address
  pub start : ℕ
  pub end : ℕ

pub record LegOut : Type 0 where
  pub token : Address
  pub start : ℕ
  pub end : ℕ
  pub recipient : Address

pub record Order : Type 0 where
  pub maker : Address
  pub side : OrderSide
  pub nonce : ℕ
  pub expiry : ℕ
  pub legs_in : List LegIn
  pub legs_out : List LegOut
  pub timing : ℕ
  pub exclusive_filler : Address
  pub min_fill_anchor : ℕ
  pub exclusivity_override_bps : ℕ
  pub curve : List CurvePoint
  pub gas_bump_bps : ℕ
  pub gas_price_ref : ℕ
  pub priority_scale : ℕ
  pub baseline_priority_fee_wei : Option ℕ
  pub items : List Item
  pub validators : List Validator
  pub invariants : List Validator
  pub fill_module : Address
  pub fill_total : ℕ
  pub pricing_module : Address

-- `order.side === OrderSide.BUY`
abbrev pub is_buy : OrderSide → Bool
is_buy sell = false
is_buy buy = true
