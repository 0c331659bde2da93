-- ===== src/Sdk/Filling/Spend.antt =====
-- The budget of a filler and the delivery of leg 0 that the fill would charge it.
use delta_x.Prelude.{
  ℕ, ◌+◌, ◌*◌, ◌≤◌, ◌<◌, ◌≡◌, ◌≢◌, ◌↔◌, List, ◌∷◌, arith, ok, not, Result-cases, inl, ◌==◌, ◌&&◌,
  inr,
}
use delta_x.Sdk.Order.{Order, sell, buy, LegOut, bps}
use delta_x.Sdk.Pricing.{tick_out, leg_amount_out, fixed_out, current_amount_out_at}
use delta_x.Sdk.Pricing.Ceil.{ceil_div-ceil}
use delta_x.Sdk.Pricing.Bounds.{tick_out_bounds}
use delta_x.Sdk.Filling.{
  FillerContext, exclusivity_override_for, lift, is_maker_leg, budget_amount, effective_budget,
}
use delta_x.Sdk.Filling.Budget.{sell_iff, lifted_iff, buy_iff}

-- What the premium makes of an amount of leg 0, against the budget without it.
lift_iff :
    (o : Order) (leg : LegOut) (ov m p budget : ℕ)
    → o.side ≡ sell
    → lift o ov leg m ≡ ok p
    → (p ≤ budget) ↔ (m ≤ effective_budget (not (ov == 0) && is_maker_leg o leg) ov budget)
unfolding lift effective_budget
lift_iff o leg ov m p budget s e =
    let l = lifted_iff m ov budget in
    let c = ceil_div-ceil (m * (bps + ov)) bps (omega arith) in
    (λ h. ground (arith, l.0), λ h. ground (arith, l.1))

module _ (o : Order) (budget prev now t d m p ov a : ℕ) (ctx : FillerContext) (leg : LegOut)
    (rest : List LegOut) (first : o.legs_out ≡ leg ∷ rest) (priced : leg.start ≢ 0)
    (positive : 0 < t) (premium : exclusivity_override_for o ctx.filler now ctx.filler_set ≡ ok ov)
    (amount : leg_amount_out o leg t d now prev ctx.base_fee ctx.priority_fee ≡ ok m)
    (lifted : lift o ov leg m ≡ ok p) where
  pub spend_sell_iff :
      o.side ≡ sell → budget_amount o sell budget now ctx t prev ≡ ok a → (p ≤ budget) ↔ (d ≤ a)
  unfolding leg_amount_out budget_amount current_amount_out_at
  spend_sell_iff s e = elim (Result-cases (tick_out o leg now ctx.base_fee ctx.priority_fee)) [
    | inl (tick, te) ↦
        let b = tick_out_bounds o leg now ctx.base_fee ctx.priority_fee tick te in
        let li = lift_iff o leg ov m p budget s lifted in
        let eff = effective_budget (not (ov == 0) && is_maker_leg o leg) ov budget in
        let si = sell_iff d tick t eff positive (ground (arith, b)) in
        let c = ceil_div-ceil (d * tick) t positive in
        (λ h. ground (arith, li.0, si.0, c), λ h. ground (arith, li.1, si.1, c))
    | inr (x, te) ↦ absurd (ground arith)
  ]

  pub spend_buy_iff :
      o.side ≡ buy → budget_amount o buy budget now ctx t prev ≡ ok a → (p ≤ budget) ↔ (d ≤ a)
  unfolding leg_amount_out budget_amount fixed_out lift
  spend_buy_iff s e =
      let after = ceil_div-ceil (leg.start * (prev + d)) t positive in
      let before = ceil_div-ceil (leg.start * prev) t positive in
      let bi = buy_iff leg.start t prev d budget a positive priced (ground arith) in
      (λ h. ground (arith, bi.0), λ h. ground (arith, bi.1))
