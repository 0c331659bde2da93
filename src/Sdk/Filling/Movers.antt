-- ===== src/Sdk/Filling/Movers.antt =====
-- What `needsBumpFloor` answers none for: an order whose price moves towards the filler with time.
use native.Mathlib.Nat.{mul-le-mul_left}
use delta_x.Prelude.{
  ℕ, ◌≤◌, ◌≡◌, ◌≢◌, false, Option, none, List, [], ◌∷◌, arith, Result-cases, inl, inr, ok, ◌==◌,
  ltb, if◌then◌else◌, ◌-◌, ◌*◌,
}
use delta_x.Prelude.Arith.{mul_div-le, div_mono}
use delta_x.Sdk.Order.{bps, Order, CurvePoint, filler_set_sentinel}
use delta_x.Sdk.Timing.{Clocks, unpack_timing}
use delta_x.Sdk.Pricing.{linear_bps, curve_bps, bump_bps, clock_bps, gas_add}
use delta_x.Sdk.Pricing.Curve.{IsRising, curve_bps_mono}
use delta_x.Sdk.Filling.{needs_bump_floor, has_descent}

IsRising-of_no_descent :
    (p : CurvePoint) (rest : List CurvePoint) → has_descent (p ∷ rest) ≡ false → IsRising p rest
unfolding has_descent
IsRising-of_no_descent p [] h = tt
IsRising-of_no_descent p (q ∷ rest) h = ground (arith, IsRising-of_no_descent q rest)

linear_bps_mono : (d e e' : ℕ) → d ≢ 0 → e ≤ e' → linear_bps d e ≤ linear_bps d e'
unfolding linear_bps
linear_bps_mono d e e' p h =
    ground
      (arith, mul_div-le bps e d, div_mono d {a = bps * e} {b = bps * e'} (mul-le-mul_left bps h))

-- The clock once the auction has started.
abbrev started_bps : List CurvePoint → Clocks → ℕ → ℕ
started_bps [] c now =
    if c.decay_duration == 0 then 0 else linear_bps c.decay_duration (now - c.decay_start_time)
started_bps (first ∷ rest) c now = curve_bps first rest (now - c.decay_start_time)

clock_bps_mono :
    (curve : List CurvePoint) (c : Clocks) (now later b : ℕ)
    → has_descent curve ≡ false
    → now ≤ later
    → clock_bps curve c now ≡ ok b
    → (clock_bps curve c later ≡ ok (started_bps curve c later)) × (b ≤ started_bps curve c later)
unfolding clock_bps
clock_bps_mono [] c now later b d h e = ground (
  arith,
  linear_bps_mono c.decay_duration (now - c.decay_start_time) (later - c.decay_start_time),
)
clock_bps_mono (first ∷ rest) c now later b d h e = ground (
  arith,
  curve_bps_mono first rest (now - c.decay_start_time) (later - c.decay_start_time)
      (IsRising-of_no_descent first rest d),
)

clamp_bps : ℕ → ℕ
clamp_bps sum = if ltb bps sum then bps else sum

-- Where `needsBumpFloor` answers none, an order that can be quoted now can be quoted at every later
-- time, whatever the basefees and the bids, and at a bump that is no lower. (The order is not one
-- whose `curve` word holds a filler set.)
pub bump_bps_mono :
    (o : Order) (now later base_fee base_fee' : ℕ) (fee fee' : Option ℕ) (b : ℕ)
    → needs_bump_floor o ≡ none
    → o.exclusive_filler ≢ filler_set_sentinel
    → now ≤ later
    → bump_bps o now base_fee fee ≡ ok b
    → (b' : ℕ) × (bump_bps o later base_fee' fee' ≡ ok b') × (b ≤ b')
unfolding needs_bump_floor bump_bps gas_add clamp_bps
bump_bps_mono o now later base_fee base_fee' fee fee' b n x h e =
    elim (Result-cases (clock_bps o.curve (unpack_timing o.timing) now)) [
      | inl (c, ce) ↦
          let m = clock_bps_mono o.curve (unpack_timing o.timing) now later c (ground arith) h ce in
          (
            clamp_bps (started_bps o.curve (unpack_timing o.timing) later),
            ground (arith, m),
            ground (arith, m),
          )
      | inr (c, ce) ↦ absurd (ground arith)
    ]
