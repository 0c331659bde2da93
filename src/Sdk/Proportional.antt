-- ===== src/Sdk/Proportional.antt =====
-- packages/sdk/src/proportional.ts: balance-relative amounts in the top of a uint256.
pub mod Markers
use delta_x.Prelude.{
  ℕ, ◌+◌, ◌-◌, ◌*◌, ◌/◌, Bool, not, ◌||◌, Option, none, some, List, [], ◌∷◌, Result, ok, err,
  no_cap, out_of_range, invalid_proportional_leg, throw_if, ◌>>=◌, ◌>>◌, ltb, ◌==◌, if◌then◌else◌,
  any,
}
use delta_x.Sdk.Order.{Order, LegIn, bps, max_uint256, zero_address, is_buy}

abbrev pub sentinel_floor : ℕ
sentinel_floor = max_uint256 - bps

unfoldable pub is_proportional : ℕ → Bool
is_proportional start = ltb sentinel_floor start

-- Read only on a marker, so `max_uint256 - start` is at most `bps`.
unfoldable pub proportional_bps : ℕ → ℕ
proportional_bps start = bps - (max_uint256 - start)

unfoldable pub encode_proportional : ℕ → Result ℕ
encode_proportional share = do
  throw_if (share == 0 || ltb bps share) out_of_range
  ok (max_uint256 - (bps - share))

unfoldable pub resolve_proportional : ℕ → ℕ → ℕ → Result ℕ
unfolding proportional_bps
resolve_proportional balance start cap = do
  throw_if (cap == 0) no_cap
  let amount = balance * proportional_bps start / bps
  ok (if ltb cap amount then cap else amount)

-- The reasons that `validateProportional` returns.
pub data Reason : Type 0 where
  not_first_leg buy_order with_fill_total with_fill_module uncapped on_output_leg : Reason

-- The loop over `legsIn` from index `i`.
unfoldable pub validate_legs_in : Order → ℕ → List LegIn → Option Reason
unfolding is_proportional
validate_legs_in order i [] = none
validate_legs_in order i (leg ∷ legs) =
    let rest = validate_legs_in order (i + 1) legs in
    if not (is_proportional leg.start)
    then rest
    else if not (i == 0)
    then some not_first_leg
    else if is_buy order.side
    then some buy_order
    else if not (order.fill_total == 0)
    then some with_fill_total
    else if not (order.fill_module == zero_address)
    then some with_fill_module
    else if leg.end == 0
    then some uncapped
    else rest

unfoldable pub validate_proportional : Order → Option Reason
unfolding validate_legs_in
validate_proportional order = elim (validate_legs_in order 0 order.legs_in) [
  | some r ↦ some r
  | none ↦
      if any (λ leg. is_proportional leg.start) order.legs_out then some on_output_leg else none
]

-- `resolveProportionalOrder` on the legs, first and rest.
resolve_first : Order → ℕ → List LegIn → Result Order
unfolding is_proportional resolve_proportional validate_proportional
resolve_first order balance [] = ok order
resolve_first order balance (leg ∷ legs) =
    if not (is_proportional leg.start) then ok order else elim (validate_proportional order) [
      | some r ↦ err invalid_proportional_leg
      | none ↦ do
        start ← resolve_proportional balance leg.start leg.end
        ok (record order { legs_in = record leg { start = start; end = 0 } ∷ legs })
    ]

unfoldable pub resolve_proportional_order : Order → ℕ → Result Order
unfolding resolve_first
resolve_proportional_order order balance = resolve_first order balance order.legs_in
