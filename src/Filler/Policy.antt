-- ===== src/Filler/Policy.antt =====
-- packages/beta-filler/src/policy.ts: exclusivity, the fill-once gate, and the amounts of the gates.
-- A bigint division is `div`, which throws where it divides by zero; `keep` of the rail is a
-- difference that the configuration keeps positive.
pub mod Exclusivity
pub mod Amounts
use delta_x.Prelude.{
  ℕ, ◌+◌, ◌-◌, ◌*◌, ◌/◌, ◌^◌, Option, none, some, Bool, true, false, not, ◌&&◌, ◌||◌, List, [], ◌∷◌,
  all, Result, ok, err, div, ◌>>=◌, ltb, leb, ◌==◌, if◌then◌else◌,
}
use delta_x.Sdk.Order.{Address, Order, LegIn, LegOut, zero_address, is_buy}
use delta_x.Sdk.Timing.{
  flag, block_clock_bit, delta_verify_outputs_bit, unpack_timing, is_fill_once,
}
use delta_x.Sdk.Proportional.{is_proportional}
use delta_x.Sdk.Filling.{override_has_carrier}

pub data ExclusivityKind : Type 0 where
  open_to_us : ExclusivityKind
  soft : (ends_at override_bps : ℕ) → ExclusivityKind
  hard : (ends_at : Option ℕ) → ExclusivityKind

unfoldable pub exclusivity_for : Order → Address → ℕ → ExclusivityKind
exclusivity_for order me now =
    let ends_at = (unpack_timing order.timing).exclusivity_end_time in
    let block_clock = flag order.timing block_clock_bit in
    let over = order.exclusivity_override_bps in
    if order.exclusive_filler == zero_address || order.exclusive_filler == me
    then open_to_us
    else if not block_clock && leb ends_at now
    then open_to_us
    else if block_clock
    then hard none
    else if over == 0 || (ltb 10_000 over || not (override_has_carrier order))
    then hard (some ends_at)
    else soft ends_at over

unfoldable pub is_delta_verify : Order → Bool
is_delta_verify order = flag order.timing delta_verify_outputs_bit

-- `undefined` is `none`.
unfoldable pub window_end_ms : Order → ℕ → Option ℕ
window_end_ms order now_ms =
    let end = (unpack_timing order.timing).exclusivity_end_time * 1000 in
    if order.exclusive_filler == zero_address || is_delta_verify order
    then none
    else if flag order.timing block_clock_bit
    then none
    else if ltb now_ms end
    then some end
    else none

unfoldable pub is_fixed_price : Order → Bool
is_fixed_price order =
    elim order.curve [ [] ↦ true | point ∷ points ↦ false ]
    && (all (λ (l : LegIn). l.end == 0) order.legs_in
        && all (λ (l : LegOut). l.end == 0) order.legs_out)

-- `undefined` where the anchor leg is missing
unfoldable pub anchor_size : Order → Option ℕ
anchor_size order =
    if not (order.fill_total == 0)
    then some order.fill_total
    else if is_buy order.side
    then elim order.legs_out [ [] ↦ none | leg ∷ legs ↦ some leg.start ]
    else elim order.legs_in [ [] ↦ none | leg ∷ legs ↦ some leg.start ]

-- Is there a reason that blocks the fill?
unfoldable pub fill_once_blocker : Order → ℕ → Bool
fill_once_blocker order fillable = is_fill_once order && elim (anchor_size order) [
  | none ↦ false
  | some total ↦ not (is_proportional total) && ltb fillable total
]

-- The product is divided only where what is paid is not zero.
unfoldable pub cap_fill_amount : ℕ → ℕ → ℕ → ℕ
cap_fill_amount fill_amount paid_at_fill cap_paid =
    let scaled = fill_amount * cap_paid / paid_at_fill in
    if leb paid_at_fill cap_paid
    then fill_amount
    else if cap_paid == 0 || paid_at_fill == 0
    then 0
    else if ltb 1 scaled
    then scaled - 1
    else 0

unfoldable pub rebalance_share : ℕ → ℕ → ℕ → ℕ
rebalance_share cost_wei usdrif redeem_min =
    if redeem_min == 0 || leb redeem_min usdrif
    then cost_wei
    else (cost_wei * usdrif + redeem_min - 1) / redeem_min

-- `ONE`
abbrev pub one_18 : ℕ
one_18 = 10 ^ 18

abbrev pub moc_fee_bps : ℕ
moc_fee_bps = 20

unfoldable pub mint_replace_usdt0 : ℕ → ℕ
mint_replace_usdt0 usdrif = (usdrif * (10_000 + moc_fee_bps) + 10 ^ 16 - 1) / 10 ^ 16

unfoldable pub rail_rif_out : ℕ → ℕ → ℕ → Result ℕ
rail_rif_out usdrif p_actp haircut_bps = do
  out ← div (usdrif * one_18 * (10_000 - moc_fee_bps - haircut_bps)) p_actp
  div out 10_000

unfoldable pub rail_usdrif_for : ℕ → ℕ → ℕ → Result ℕ
rail_usdrif_for rif p_actp haircut_bps =
    let keep = 10_000 - moc_fee_bps - haircut_bps in
    div (rif * p_actp * 10_000 + one_18 * keep - 1) (one_18 * keep)
