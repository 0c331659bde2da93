-- ===== src/Sdk/Quote/Ceiling.antt =====
-- The ceiling of a quoted bump is the price's own clock.
use delta_x.Prelude.{ℕ, ◌*◌, ◌/◌, ◌-◌, ◌≤◌, ◌≡◌, ◌%◌, ◌^◌, arith, ok, some, []}
use delta_x.Prelude.Arith.{div_mono, mul_div-le}
use delta_x.Sdk.Order.{bps}
use delta_x.Sdk.Timing.{unpack_timing}
use delta_x.Sdk.Pricing.{clock_bps, linear_bps}
use delta_x.Sdk.Quote.{clock_bump, effective_quoted_bump}

-- From the start of the decay on, `clockBump` is the decay that `bumpBps` computes for an order
-- without a curve.
pub clock_bps-clock_bump :
    (timing now : ℕ)
    → (unpack_timing timing).decay_start_time ≤ now
    → clock_bps [] (unpack_timing timing) now ≡ ok (clock_bump timing now)
unfolding clock_bps linear_bps clock_bump unpack_timing
clock_bps-clock_bump timing now started = ground arith

clock_bump_mono : (timing m n : ℕ) → m ≤ n → clock_bump timing m ≤ clock_bump timing n
unfolding clock_bump
clock_bump_mono timing m n h =
    let start = timing % 2 ^ 32 in
    let duration = timing / 2 ^ 32 % 2 ^ 32 in
    ground (
      arith,
      mul_div-le bps (m - start) duration,
      div_mono duration {a = bps * (m - start)} {b = bps * (n - start)} (omega arith),
    )

-- A quoted bump is priced at no more than the quote and no more than the clock, and at no less later
-- than now.
pub effective_quoted_bump_bounds :
    (quoted timing m n : ℕ)
    → m ≤ n
    → (effective_quoted_bump (some quoted) timing m ≤ quoted)
      × (effective_quoted_bump (some quoted) timing m ≤ clock_bump timing m)
      × (effective_quoted_bump (some quoted) timing m
          ≤ effective_quoted_bump (some quoted) timing n)
unfolding effective_quoted_bump
effective_quoted_bump_bounds quoted timing m n h =
    (ground arith, ground arith, ground (arith, clock_bump_mono timing m n h))
