-- ===== src/Sdk/Filling/Later.antt =====
-- The amounts of a later fill, for an order that `needsBumpFloor` answers none for.
use native.Mathlib.Nat.{mul-le-mul_left}
use delta_x.Prelude.{
  ℕ, ◌-◌, ◌*◌, ◌/◌, ◌+◌, ◌≤◌, ◌≡◌, ◌≢◌, not, ◌||◌, Option, none, arith, inl, inr, ok, Result-cases,
  Bool-cases, ◌==◌,
}
use delta_x.Prelude.Arith.{div_mono}
use delta_x.Sdk.Order.{is_buy, bps, Order, LegIn, LegOut, filler_set_sentinel}
use delta_x.Sdk.Pricing.{bump_bps, tick_out, tick_in, leg_amount_out, leg_input_owed, anchor_total}
use delta_x.Sdk.Pricing.Ceil.{ceil_div_mono}
use delta_x.Sdk.Filling.{needs_bump_floor}
use delta_x.Sdk.Filling.Movers.{bump_bps_mono}

module _ (o : Order) (now later base_fee base_fee' : ℕ) (fee fee' : Option ℕ)
    (still : needs_bump_floor o ≡ none) (single : o.exclusive_filler ≢ filler_set_sentinel)
    (order : now ≤ later) where
  -- Where needsBumpFloor answers null and the order is not for a filler set, an output tick that can
  -- be quoted now is no higher at any later time.
  tick_out_falls :
      (leg : LegOut) (t : ℕ)
      → tick_out o leg now base_fee fee ≡ ok t
      → (t' : ℕ) × (tick_out o leg later base_fee' fee' ≡ ok t') × (t' ≤ t)
  unfolding tick_out
  tick_out_falls leg t e = elim (Result-cases (bump_bps o now base_fee fee)) [
    | inl (b, be) ↦
        let (b', be', le) =
          bump_bps_mono o now later base_fee base_fee' fee fee' b still single order be in
        let more = div_mono bps (mul-le-mul_left (leg.start - leg.end) le) (omega arith) in
        elim (Bool-cases (leg.end == 0)) [
          | inl fixed ↦ (leg.start, ground arith, ground arith)
          | inr moving ↦ (leg.start - (leg.start - leg.end) * b' / bps, ground arith, ground arith)
        ]
    | inr (x, be) ↦ (leg.start, ground arith, ground arith)
  ]

  tick_in_rises :
      (leg : LegIn) (t : ℕ)
      → tick_in o leg now base_fee fee ≡ ok t
      → (t' : ℕ) × (tick_in o leg later base_fee' fee' ≡ ok t') × (t ≤ t')
  unfolding tick_in
  tick_in_rises leg t e = elim (Result-cases (bump_bps o now base_fee fee)) [
    | inl (b, be) ↦
        let (b', be', le) =
          bump_bps_mono o now later base_fee base_fee' fee fee' b still single order be in
        let more = div_mono bps (mul-le-mul_left (leg.end - leg.start) le) (omega arith) in
        elim (Bool-cases (leg.end == 0)) [
          | inl fixed ↦ (leg.start, ground arith, ground arith)
          | inr moving ↦ (leg.start + (leg.end - leg.start) * b' / bps, ground arith, ground arith)
        ]
    | inr (x, be) ↦ (leg.start, ground arith, ground arith)
  ]

  -- Where needsBumpFloor answers null and the exclusive filler is not the sentinel of a filler set, a
  -- quoted output amount covers the same fill at every later time.
  pub leg_amount_out_falls :
      (leg : LegOut) (anchor d prev a : ℕ)
      → leg_amount_out o leg anchor d now prev base_fee fee ≡ ok a
      → (a' : ℕ) × (leg_amount_out o leg anchor d later prev base_fee' fee' ≡ ok a') × (a' ≤ a)
  unfolding leg_amount_out
  leg_amount_out_falls leg anchor d prev a e = elim (Bool-cases (is_buy o.side)) [
    | inl buying ↦ (a, ground arith, omega arith)
    | inr selling ↦ elim (Result-cases (tick_out o leg now base_fee fee)) [
      | inl (t, te) ↦
          let (t', te', le) = tick_out_falls leg t te in
          let (a', ae', la) =
            ceil_div_mono (d * t') (d * t) anchor a (mul-le-mul_left d le) (ground arith) in
          (a', ground arith, la)
      | inr (x, te) ↦ absurd (ground arith)
    ]
  ]

  -- Under the same conditions a quoted input amount is paid in full at every later time.
  pub leg_input_owed_rises :
      (leg : LegIn) (prev new a : ℕ)
      → leg_input_owed o leg prev new now base_fee fee ≡ ok a
      → (a' : ℕ) × (leg_input_owed o leg prev new later base_fee' fee' ≡ ok a') × (a ≤ a')
  unfolding leg_input_owed
  leg_input_owed_rises leg prev new a e = elim (Result-cases (anchor_total o)) [
    | inl (total, oe) ↦ elim (Bool-cases (is_buy o.side || not (leg.end == 0))) [
      | inl moving ↦ elim (Result-cases (tick_in o leg now base_fee fee)) [
        | inl (t, te) ↦
            let (t', te', le) = tick_in_rises leg t te in
            let more = mul-le-mul_left (new - prev) le in
            (
              (new - prev) * t' / total,
              ground arith,
              ground (arith, div_mono total {a = (new - prev) * t} {b = (new - prev) * t'} more),
            )
        | inr (x, te) ↦ absurd (ground arith)
      ]
      | inr fixed ↦ (a, ground arith, omega arith)
    ]
    | inr (x, oe) ↦ absurd (ground arith)
  ]
