-- ===== src/Sdk/Pricing/Curve.antt =====
-- The piecewise-linear curve of `pricing.ts`: its segments are entered in their own interval, and a
-- curve whose bumps never fall is monotone in time, whatever the order of its times.
use native.Mathlib.Nat.{mul-le-mul_left}
use delta_x.Prelude.{ℕ, ◌-◌, ◌≤◌, ◌<◌, List, [], ◌∷◌, arith}
use delta_x.Prelude.Arith.{div_mono}
use delta_x.Sdk.Order.{CurvePoint}
use delta_x.Sdk.Pricing.{segment_bps, segments_bps, last_point, curve_bps}
use delta_x.Sdk.Pricing.Bounds.{segment_bps_bounds}

-- no point has a lower bump than the point before it
abbrev pub IsRising : CurvePoint → List CurvePoint → Type 0
IsRising p [] = Unit {0}
IsRising p (q ∷ rest) = (p.bump_bps ≤ q.bump_bps) × IsRising q rest

IsRising-last :
    (p : CurvePoint) (rest : List CurvePoint)
    → IsRising p rest
    → p.bump_bps ≤ (last_point p rest).bump_bps
unfolding last_point
IsRising-last p [] r = omega arith
IsRising-last p (q ∷ rest) r = omega (arith, IsRising-last q rest r.1)

segment_bps_mono :
    (p q : CurvePoint) (e e' : ℕ)
    → p.bump_bps ≤ q.bump_bps
    → p.time_delta ≤ e
    → e ≤ e'
    → e' < q.time_delta
    → segment_bps p q e ≤ segment_bps p q e'
unfolding segment_bps
segment_bps_mono p q e e' r h k l =
    let step =
      div_mono (q.time_delta - p.time_delta)
        (mul-le-mul_left (q.bump_bps - p.bump_bps)
          (let d : e - p.time_delta ≤ e' - p.time_delta = omega arith in d))
        (omega arith) in
    ground arith

-- The loop stays between the bump of its first point and that of the last.
pub segments_bps_bounds :
    (p : CurvePoint) (rest : List CurvePoint) (e : ℕ)
    → IsRising p rest
    → p.time_delta ≤ e
    → e < (last_point p rest).time_delta
    → (p.bump_bps ≤ segments_bps p rest e) × (segments_bps p rest e ≤ (last_point p rest).bump_bps)
unfolding segments_bps last_point
segments_bps_bounds p [] e r h k = absurd (omega arith)
segments_bps_bounds p (q ∷ rest) e r h k =
    ground (arith, segment_bps_bounds p q e, IsRising-last q rest, segments_bps_bounds q rest e)

segments_bps_mono :
    (p : CurvePoint) (rest : List CurvePoint) (e e' : ℕ)
    → IsRising p rest
    → p.time_delta ≤ e
    → e ≤ e'
    → e' < (last_point p rest).time_delta
    → segments_bps p rest e ≤ segments_bps p rest e'
unfolding segments_bps last_point
segments_bps_mono p [] e e' r h k l = absurd (omega arith)
segments_bps_mono p (q ∷ rest) e e' r h k l = ground (
  arith,
  segment_bps_bounds p q e,
  segment_bps_mono p q e e',
  segments_bps_bounds q rest e',
  segments_bps_mono q rest e e',
)

pub curve_bps_mono :
    (first : CurvePoint) (rest : List CurvePoint) (e e' : ℕ)
    → IsRising first rest
    → e ≤ e'
    → curve_bps first rest e ≤ curve_bps first rest e'
unfolding curve_bps
curve_bps_mono first rest e e' r h = ground (
  arith,
  IsRising-last first rest r,
  segments_bps_bounds first rest e r,
  segments_bps_bounds first rest e' r,
  segments_bps_mono first rest e e' r,
)
