-- ===== src/Sdk/Pricing/Bounds.antt =====
-- The range of the bump and of the ticks of `pricing.ts`.
use delta_x.Prelude.{
  ℕ, ◌-◌, ◌*◌, ◌≤◌, ◌<◌, ◌≡◌, ◌≢◌, Result-cases, Option, none, some, arith, ok, inl, inr,
}
use delta_x.Prelude.Arith.{mul_div-le, ceil-le_iff}
use native.Mathlib.Nat.{mul-le-mul_left}
use delta_x.Sdk.Order.{Order, LegIn, LegOut, CurvePoint, bps}
use delta_x.Sdk.Pricing.{bump_bps, priority_bps, tick_out, tick_in, segment_bps}

priority_bps-le :
    (o : Order) (now : ℕ) (fee : Option ℕ) (b : ℕ) → priority_bps o now fee ≡ ok b → b ≤ bps
unfolding priority_bps
priority_bps-le o now none b h = ground arith
priority_bps-le o now (some f) b h = ground arith

-- Whatever the order, the time and the bid, a bump that `bumpBps` returns is at most 10,000.
pub bump_bps-le-bps :
    (o : Order) (now base_fee : ℕ) (fee : Option ℕ) (b : ℕ)
    → bump_bps o now base_fee fee ≡ ok b
    → b ≤ bps
unfolding bump_bps
bump_bps-le-bps o now base_fee fee b h = ground (arith, priority_bps-le o now fee b)

-- A tick of an auctioned output leg lies between its floor `end` and its `start`, and a tick of a
-- fixed leg is its `start`.
pub tick_out_bounds :
    (o : Order) (leg : LegOut) (now base_fee : ℕ) (fee : Option ℕ) (t : ℕ)
    → tick_out o leg now base_fee fee ≡ ok t
    → (leg.end ≤ t) × (t ≤ leg.start) × (leg.end ≡ 0 → t ≡ leg.start)
unfolding tick_out
tick_out_bounds o leg now base_fee fee t h = elim (Result-cases (bump_bps o now base_fee fee)) [
  | inl (b, e) ↦
      ground (arith, bump_bps-le-bps o now base_fee fee b e, mul_div-le (leg.start - leg.end) b bps)
  | inr (x, e) ↦ ground arith
]

pub tick_in_bounds :
    (o : Order) (leg : LegIn) (now base_fee : ℕ) (fee : Option ℕ) (t : ℕ)
    → tick_in o leg now base_fee fee ≡ ok t
    → (leg.start ≤ t) × (leg.end ≢ 0 → t ≤ leg.end) × (leg.end ≡ 0 → t ≡ leg.start)
unfolding tick_in
tick_in_bounds o leg now base_fee fee t h = elim (Result-cases (bump_bps o now base_fee fee)) [
  | inl (b, e) ↦
      ground (arith, bump_bps-le-bps o now base_fee fee b e, mul_div-le (leg.end - leg.start) b bps)
  | inr (x, e) ↦ ground arith
]

-- Inside a segment that is entered at its time, the bump lies between those of its two points.
pub segment_bps_bounds :
    (p q : CurvePoint) (e : ℕ)
    → p.time_delta ≤ e
    → e < q.time_delta
    → (p.bump_bps ≤ q.bump_bps
        → (p.bump_bps ≤ segment_bps p q e) × (segment_bps p q e ≤ q.bump_bps))
      × (q.bump_bps ≤ p.bump_bps
          → (q.bump_bps ≤ segment_bps p q e) × (segment_bps p q e ≤ p.bump_bps))
unfolding segment_bps
segment_bps_bounds p q e h k =
    let up =
      mul_div-le (q.bump_bps - p.bump_bps) (e - p.time_delta) (q.time_delta - p.time_delta) in
    let down =
      (ceil-le_iff ((p.bump_bps - q.bump_bps) * (e - p.time_delta)) (q.time_delta - p.time_delta)
          (p.bump_bps - q.bump_bps) (omega arith)).1
        (mul-le-mul_left (p.bump_bps - q.bump_bps) (omega arith)) in
    (λ r. ground arith, λ r. ground arith)
