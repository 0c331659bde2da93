-- ===== src/Sdk/Filling/Covers.antt =====
-- The two halves of "the largest `fillAmount` whose leg-0 delivery stays within the budget".
use delta_x.Prelude.{
  ℕ, ◌≤◌, ◌≡◌, ◌≢◌, ◌↔◌, some, List, ◌∷◌, arith, ok, get_elem?, Bool, Option, refl, Bool-cases,
  ◌==◌, inl, false, Result-cases, inr, none,
}
use delta_x.Sdk.Order.{Order, OrderSide, sell, buy, LegOut}
use delta_x.Sdk.Pricing.{anchor_total, current_amount_out_at, tick_out}
use delta_x.Sdk.Filling.{
  FillerContext, Preview, preview_fill_local, budget_amount, budget_buy, budget_sell,
  fill_amount_from_budget, current_amount_out_at, clamp_amount, flag, fill_once_bit_index,
}
use delta_x.Sdk.Filling.Quoted.{
  preview_override, preview_paid_first, preview_delta_bounds, preview_total,
}
use delta_x.Sdk.Filling.Spend.{spend_sell_iff, spend_buy_iff}
use delta_x.Sdk.Pricing.Bounds.{tick_out_bounds}

side_iff :
    (o : Order) (P : OrderSide → Type 0)
    → (o.side ≡ sell → P sell)
    → (o.side ≡ buy → P buy)
    → P o.side
side_iff o P s b = go o.side refl
  where
    go : (k : OrderSide) → o.side ≡ k → P k
    go sell e = s e
    go buy e = b e

-- A quote's delivery of leg 0 fits the budget exactly when its fill is within the conversion.
budget_amount_iff :
    (o : Order) (budget prev now t a d p : ℕ) (ctx : FillerContext) (prop : Bool) (v : Preview)
    (leg : LegOut) (rest : List LegOut)
    → o.legs_out ≡ leg ∷ rest
    → leg.start ≢ 0
    → anchor_total o ≡ ok t
    → budget_amount o o.side budget now ctx t prev ≡ ok a
    → preview_fill_local o d prev now ctx prop ≡ ok v
    → get_elem? v.paid 0 ≡ some p
    → (p ≤ budget) ↔ (v.delta ≤ a)
budget_amount_iff o budget prev now t a d p ctx prop v leg rest first priced te be quoted pe =
    let (ov, oe) = preview_override o d prev now ctx prop v quoted in
    let (m, me, le) =
      preview_paid_first o d prev now ctx prop v quoted leg rest t ov p first te oe pe in
    let b = preview_delta_bounds o d prev now ctx prop v t quoted te in
    side_iff o (λ s. budget_amount o s budget now ctx t prev ≡ ok a → (p ≤ budget) ↔ (v.delta ≤ a))
      (spend_sell_iff o budget prev now t v.delta m p ov a ctx leg rest first priced
        (omega (arith, b)) oe me le)
      (spend_buy_iff o budget prev now t v.delta m p ov a ctx leg rest first priced
        (omega (arith, b)) oe me le)
      be

-- A leg 0 that is free buys nothing of a budget.
budget_amount_free :
    (o : Order) (s : OrderSide) (budget prev now t a : ℕ) (ctx : FillerContext) (leg : LegOut)
    (rest : List LegOut)
    → o.legs_out ≡ leg ∷ rest
    → leg.start ≡ 0
    → budget_amount o s budget now ctx t prev ≡ ok a
    → a ≡ 0
unfolding budget_amount budget_buy budget_sell current_amount_out_at
budget_amount_free o buy budget prev now t a ctx leg rest first free e = ground arith
budget_amount_free o sell budget prev now t a ctx leg rest first free e =
    elim (Result-cases (tick_out o leg now ctx.base_fee ctx.priority_fee)) [
      | inl (tick, te) ↦
          ground (arith, tick_out_bounds o leg now ctx.base_fee ctx.priority_fee tick te)
      | inr (x, te) ↦ absurd (ground arith)
    ]

module _ (o : Order) (budget prev now a : ℕ) (ctx : FillerContext) (remaining : Option ℕ)
    (leg : LegOut) (rest : List LegOut) (first : o.legs_out ≡ leg ∷ rest)
    (converted : fill_amount_from_budget o budget now ctx remaining prev ≡ ok a) (d p : ℕ)
    (prop : Bool) (v : Preview) (quoted : preview_fill_local o d prev now ctx prop ≡ ok v)
    (paid : get_elem? v.paid 0 ≡ some p) where
  conversion :
      (t : ℕ) × (c : ℕ) × (anchor_total o ≡ ok t)
      × (budget_amount o o.side budget now ctx t prev ≡ ok c)
      × (a ≡ clamp_amount (flag o.timing fill_once_bit_index) t prev remaining c)
  unfolding fill_amount_from_budget
  conversion =
      let (t, te) = preview_total o d prev now ctx prop v quoted in
      elim (Result-cases (budget_amount o o.side budget now ctx t prev)) [
        | inl (c, ce) ↦ (t, c, te, ce, ground arith)
        | inr (x, ce) ↦ absurd (ground arith)
      ]

  -- The `fillAmount` that a budget converts to, and any request below it, delivers at most the
  -- budget on leg 0 when it is filled at that time, on that progress and by that filler. The caps
  -- of the conversion only lower it.
  pub budget_covers : d ≤ a → p ≤ budget
  unfolding clamp_amount
  budget_covers within =
      let (t, c, te, ce, ae) = conversion in
      let b = preview_delta_bounds o d prev now ctx prop v t quoted te in
      elim (Bool-cases (leg.start == 0)) [
        | inl free ↦
            let z =
              budget_amount_free o o.side budget prev now t c ctx leg rest first (ground arith)
                ce in
            absurd (ground (arith, b))
        | inr priced ↦
            (budget_amount_iff o budget prev now t c d p ctx prop v leg rest first (ground arith) te
                ce quoted paid).1
              (ground (arith, b))
      ]

  -- And it is the largest: where leg 0 has a price, the order is not fill-once and the caller sets
  -- no cap, every quoted fill whose leg-0 delivery stays within the budget is at most that amount.
  pub budget_largest :
      leg.start ≢ 0
      → flag o.timing fill_once_bit_index ≡ false
      → remaining ≡ none
      → p ≤ budget
      → v.delta ≤ a
  unfolding clamp_amount
  budget_largest priced partial uncapped within =
      let (t, c, te, ce, ae) = conversion in
      let b = preview_delta_bounds o d prev now ctx prop v t quoted te in
      let i =
        (budget_amount_iff o budget prev now t c d p ctx prop v leg rest first priced te ce quoted
            paid).0
          within in
      ground (arith, b, i)
