-- ===== src/Sdk/Filling/Budget.antt =====
-- `fillAmountFromBudget` against `previewFillLocal`: the delivery of leg 0 stays within the budget,
-- and no larger fill's does.
use native.Mathlib.Nat.{mul_comm}
use delta_x.Prelude.{ℕ, ◌+◌, ◌-◌, ◌*◌, ◌/◌, ◌≤◌, ◌<◌, ◌≡◌, ◌≢◌, ◌↔◌, arith, ok}
use delta_x.Prelude.Arith.{ceil, ceil-le_iff, le-div_iff, ceil_mono}
use delta_x.Sdk.Pricing.Ceil.{ceil_div-ceil}
use delta_x.Sdk.Order.{bps}
use delta_x.Sdk.Filling.{budget_buy, budget_sell}

-- What a fill of `d` costs at a tick, against what the budget buys.
pub sell_iff :
    (d tick total eff : ℕ)
    → 0 < total
    → tick ≢ 0
    → (ceil (d * tick) total ≤ eff) ↔ (d ≤ budget_sell tick total eff)
unfolding budget_sell
sell_iff d tick total eff p q = (
  λ h. ground (
    arith,
    (le-div_iff d (eff * total) tick (omega arith)).1 ((ceil-le_iff (d * tick) total eff p).0 h),
  ),
  λ h.
      (ceil-le_iff (d * tick) total eff p).1
        ((le-div_iff d (eff * total) tick (omega arith)).0 (ground arith)),
)

-- The premium on top of it.
pub lifted_iff :
    (m ov budget : ℕ) → (ceil (m * (bps + ov)) bps ≤ budget) ↔ (m ≤ budget * bps / (bps + ov))
lifted_iff m ov budget = (
  λ h.
      (le-div_iff m (budget * bps) (bps + ov) (omega arith)).1
        ((ceil-le_iff (m * (bps + ov)) bps budget (omega arith)).0 h),
  λ h.
      (ceil-le_iff (m * (bps + ov)) bps budget (omega arith)).1
        ((le-div_iff m (budget * bps) (bps + ov) (omega arith)).0 h),
)

-- A slice of a fixed output, against what the budget buys.
pub buy_iff :
    (s total prev d budget a : ℕ)
    → 0 < total
    → s ≢ 0
    → budget_buy s total prev budget ≡ ok a
    → (ceil (s * (prev + d)) total - ceil (s * prev) total ≤ budget) ↔ (d ≤ a)
unfolding budget_buy
buy_iff s total prev d budget a p q e =
    let c = ceil (s * prev) total in
    let up = ceil-le_iff (s * (prev + d)) total (budget + c) p in
    let fits = le-div_iff (prev + d) ((budget + c) * total) s (omega arith) in
    let base = le-div_iff prev ((budget + c) * total) s (omega arith) in
    let own = (ceil-le_iff (s * prev) total c p).0 (omega arith) in
    let cc' = ceil_div-ceil (s * prev) total p in
    let reaches : prev ≤ (budget + c) * total / s = base.1 (omega (arith, own)) in
    let turned : (prev + d) * s ≡ s * (prev + d) = mul_comm (prev + d) s in
    let gains = ceil_mono total {m = s * prev} {n = s * (prev + d)} (omega arith) p in
    (λ h. ground (arith, fits.1, up.0, cc'), λ h. ground (arith, fits.0, up.1, cc'))
