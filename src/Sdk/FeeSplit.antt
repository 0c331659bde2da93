-- ===== src/Sdk/FeeSplit.antt =====
-- packages/sdk/src/types.ts: `feeSplitLegs`, an output leg and the leg of its fee.
mod Tests
use delta_x.Prelude.{
  ℕ, ◌+◌, ◌-◌, ◌*◌, ◌/◌, ◌≡◌, arith, not, ◌&&◌, leb, ◌==◌, Result, ok, throw_if, ◌>>◌, out_of_range,
  if◌then◌else◌, ◌⊎◌,
}
use delta_x.Prelude.Arith.{mul_div-le}
use delta_x.Sdk.Order.{Address, LegOut, bps, zero_address}

unfoldable pub fee_split_legs : Address → ℕ → ℕ → Address → ℕ → Result (LegOut × LegOut)
fee_split_legs token start_amount end_amount recipient fee_bps = do
  throw_if (leb bps fee_bps) out_of_range
  throw_if (not (fee_bps == 0) && recipient == 0) out_of_range
  let start_fee = start_amount * fee_bps / bps
  let end_fee = end_amount * fee_bps / bps
  throw_if (not (end_amount == 0) && (not (start_fee == 0) && end_fee == 0)) out_of_range
  ok (
    record {
      token = token;
      start = start_amount - start_fee;
      end = if end_amount == 0 then 0 else end_amount - end_fee;
      recipient = zero_address;
    },
    record {
      token = token;
      start = start_fee;
      end = if end_amount == 0 then 0 else end_fee;
      recipient = recipient;
    },
  )

-- The two legs that `feeSplitLegs` returns are together the leg that was split, at its start and at
-- its end, and a fee leg with an amount is fixed only where the split leg is.
pub fee_split_legs_total :
    (token : Address) (start_amount end_amount : ℕ) (recipient : Address) (fee_bps : ℕ)
    (leg fee : LegOut)
    → fee_split_legs token start_amount end_amount recipient fee_bps ≡ ok (leg, fee)
    → (leg.start + fee.start ≡ start_amount)
      × (leg.end + fee.end ≡ end_amount)
      × ((fee.end ≡ 0) → (end_amount ≡ 0) ⊎ (fee.start ≡ 0))
unfolding fee_split_legs
fee_split_legs_total token start_amount end_amount recipient fee_bps leg fee e =
    ground (arith, mul_div-le start_amount fee_bps bps, mul_div-le end_amount fee_bps bps)
