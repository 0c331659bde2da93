-- ===== src/Sdk/Timing/RoundTrip.antt =====
-- The packed words are read back as they were written, and a mode bit changes no other field.

use delta_x.Prelude.{ℕ, ◌+◌, ◌*◌, ◌^◌, ◌<◌, ◌≡◌, true, arith, ok}
use delta_x.Prelude.Bits.{bit_or_disjoint, bit_or-pow}
use delta_x.Sdk.Timing.{
  Clocks, pack_timing, unpack_timing, Params, pack_params, unpack_params, flag, timing_flags,
  with_priority_auction,
}

-- Whatever `packTiming` accepts, `unpackTiming` reads back.
pub unpack-pack_timing : (c : Clocks) (w : ℕ) → pack_timing c ≡ ok w → unpack_timing w ≡ c
unfolding pack_timing unpack_timing
unpack-pack_timing c w e = ground (
  arith,
  bit_or_disjoint 32 c.decay_start_time c.decay_duration,
  bit_or_disjoint 64 (c.decay_start_time + c.decay_duration * 2 ^ 32) c.exclusivity_end_time,
)

-- The fields of an accepted `params` word fit their bits, and they add up.
pub pack_params-sum :
    (p : Params) (w : ℕ)
    → pack_params p ≡ ok w
    → (p.override_bps < 2 ^ 16)
      × (p.gas_bump_bps < 2 ^ 16)
      × (p.gas_price_ref < 2 ^ 64)
      × (p.priority_scale < 2 ^ 64)
      × (p.baseline_priority_fee_wei < 2 ^ 48)
      × (w
          ≡ p.override_bps
            + p.gas_bump_bps * 2 ^ 16
            + p.gas_price_ref * 2 ^ 32
            + p.priority_scale * 2 ^ 96
            + p.baseline_priority_fee_wei * 2 ^ 160)
unfolding pack_params
pack_params-sum p w e =
    let a = bit_or_disjoint 16 p.override_bps p.gas_bump_bps (ground arith) in
    let b =
      bit_or_disjoint 32 (p.override_bps + p.gas_bump_bps * 2 ^ 16) p.gas_price_ref
        (ground arith) in
    let c =
      bit_or_disjoint 96 (p.override_bps + p.gas_bump_bps * 2 ^ 16 + p.gas_price_ref * 2 ^ 32)
        p.priority_scale (ground arith) in
    let d =
      bit_or_disjoint 160
        (p.override_bps
          + p.gas_bump_bps * 2 ^ 16
          + p.gas_price_ref * 2 ^ 32
          + p.priority_scale * 2 ^ 96)
        p.baseline_priority_fee_wei (ground arith) in
    ground arith

-- Whatever `packParams` accepts, `unpackParams` reads back.
pub unpack-pack_params : (p : Params) (w : ℕ) → pack_params p ≡ ok w → unpack_params w ≡ p
unfolding unpack_params
unpack-pack_params p w e = let (a, b, c, d, f, sum) = pack_params-sum p w e in ground arith

-- `withPriorityAuction` sets its flag and leaves the clocks and the other flags as they were.
pub with_priority_auction_frame :
    (w : ℕ)
    → (timing_flags (with_priority_auction w) ≡ record (timing_flags w) { priority_auction = true })
      × (unpack_timing (with_priority_auction w) ≡ unpack_timing w)
unfolding with_priority_auction timing_flags flag unpack_timing
with_priority_auction_frame w = ground (arith, bit_or-pow 103 w)
