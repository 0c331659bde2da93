-- ===== src/Sdk/Filling/Quoted.antt =====
-- What a successful `previewFillLocal` tells of its parts, and the size of the fill it quotes.
use delta_x.Prelude.{
  ℕ, ◌+◌, ◌≤◌, ◌<◌, ◌≡◌, Bool, true, some, List, ◌∷◌, arith, ok, get_elem?, Result-cases, inl, inr,
}
use delta_x.Sdk.Order.{Order, LegOut}
use delta_x.Sdk.Timing.{flag, fill_once_bit_index}
use delta_x.Sdk.Pricing.{anchor_total, leg_amount_out, fill_amounts_out}
use delta_x.Sdk.Filling.{
  FillerContext, Preview, preview_fill_local, admitted_delta, trim, exclusivity_override_for, lift,
  lift_all,
}

module _ (o : Order) (amount prev now : ℕ) (ctx : FillerContext) (prop : Bool) (v : Preview)
    (quoted : preview_fill_local o amount prev now ctx prop ≡ ok v) where
  pub preview_total : (t : ℕ) × (anchor_total o ≡ ok t)
  unfolding preview_fill_local
  preview_total = ground arith

  pub preview_delta :
      (t : ℕ) → anchor_total o ≡ ok t → admitted_delta o prop t prev amount ≡ ok v.delta
  unfolding preview_fill_local
  preview_delta t e = ground arith

  pub preview_override :
      (ov : ℕ) × (exclusivity_override_for o ctx.filler now ctx.filler_set ≡ ok ov)
  unfolding preview_fill_local
  preview_override = ground arith

  pub preview_paid :
      (ov : ℕ)
      → exclusivity_override_for o ctx.filler now ctx.filler_set ≡ ok ov
      → (amounts : List ℕ) × (fill_amounts_out o v.delta now prev ctx.base_fee ctx.priority_fee
          ≡ ok amounts)
        × (lift_all o ov o.legs_out amounts ≡ ok v.paid)
  unfolding preview_fill_local
  preview_paid ov e =
      elim (Result-cases (fill_amounts_out o v.delta now prev ctx.base_fee ctx.priority_fee)) [
        | inl (amounts, ae) ↦ (amounts, ae, ground arith)
        | inr (x, ae) ↦ absurd (ground arith)
      ]

  -- The first entry of `paid` is the lifted amount of the first leg.
  pub preview_paid_first :
      (leg : LegOut) (rest : List LegOut) (t ov p : ℕ)
      → o.legs_out ≡ leg ∷ rest
      → anchor_total o ≡ ok t
      → exclusivity_override_for o ctx.filler now ctx.filler_set ≡ ok ov
      → get_elem? v.paid 0 ≡ some p
      → (m : ℕ) × (leg_amount_out o leg t v.delta now prev ctx.base_fee ctx.priority_fee ≡ ok m)
        × (lift o ov leg m ≡ ok p)
  unfolding fill_amounts_out lift_all
  preview_paid_first leg rest t ov p le te oe pe =
      let (amounts, ae, ve) = preview_paid ov oe in
      elim (Result-cases (leg_amount_out o leg t v.delta now prev ctx.base_fee ctx.priority_fee)) [
        | inl (m, me) ↦ (m, me, ground arith)
        | inr (x, me) ↦ absurd (ground arith)
      ]

-- The fill that `previewFillLocal` quotes respects the order: it is not past the denominator, not
-- below the maker's floor per fill, whole on a fill-once order, and not above the request.
pub preview_delta_bounds :
    (o : Order) (amount prev now : ℕ) (ctx : FillerContext) (prop : Bool) (v : Preview) (t : ℕ)
    → preview_fill_local o amount prev now ctx prop ≡ ok v
    → anchor_total o ≡ ok t
    → (prev + v.delta ≤ t)
      × (o.min_fill_anchor ≤ v.delta)
      × (v.delta ≤ amount)
      × (0 < v.delta)
      × (flag o.timing fill_once_bit_index ≡ true → prev + v.delta ≡ t)
unfolding admitted_delta trim preview_fill_local
preview_delta_bounds o amount prev now ctx prop v t e te =
    let d = preview_delta o amount prev now ctx prop v e t te in ground arith
