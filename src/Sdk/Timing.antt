-- ===== src/Sdk/Timing.antt =====
-- packages/sdk/src/types.ts: the packed `timing` and `params` words, and packages/sdk/src/oco.ts:
-- the fill-once mask. `x >> k & 1` is `x / 2 ^ k % 2`, a mask of w ones is `% 2 ^ w`, and `|` is
-- `bit_or`. `pack_timing` and `pack_params` refuse a field that is too wide.
pub mod RoundTrip
use Prim.Native.Nat.{bit_or}
use delta_x.Prelude.{
  ℕ, ◌*◌, ◌/◌, ◌%◌, ◌^◌, ◌-◌, Bool, ◌||◌, Result, ok, throw_if, out_of_range, ◌>>◌, ltb, leb, ◌==◌,
}
use delta_x.Sdk.Order.{Order}

abbrev pub fill_once_bit_index : ℕ
fill_once_bit_index = 100

abbrev pub block_clock_bit : ℕ
block_clock_bit = 102

abbrev pub priority_auction_bit : ℕ
priority_auction_bit = 103

abbrev pub delta_verify_outputs_bit : ℕ
delta_verify_outputs_bit = 104

abbrev pub item_policy_offset : ℕ
item_policy_offset = 96

-- `(timing >> bit) & 1n`, as a truth value
unfoldable pub flag : ℕ → ℕ → Bool
flag timing bit = timing / 2 ^ bit % 2 == 1

-- withFillOnce, withBlockClock, withPriorityAuction, withDeltaVerifyOutputs
unfoldable pub with_fill_once : ℕ → ℕ
with_fill_once timing = bit_or timing (2 ^ fill_once_bit_index)

unfoldable pub with_block_clock : ℕ → ℕ
with_block_clock timing = bit_or timing (2 ^ block_clock_bit)

unfoldable pub with_priority_auction : ℕ → ℕ
with_priority_auction timing = bit_or timing (2 ^ priority_auction_bit)

unfoldable pub with_delta_verify_outputs : ℕ → ℕ
with_delta_verify_outputs timing = bit_or timing (2 ^ delta_verify_outputs_bit)

pub record TimingFlags : Type 0 where
  pub fill_once : Bool
  pub block_clock : Bool
  pub priority_auction : Bool
  pub delta_verify_outputs : Bool

unfoldable pub timing_flags : ℕ → TimingFlags
timing_flags timing = record {
  fill_once = flag timing fill_once_bit_index;
  block_clock = flag timing block_clock_bit;
  priority_auction = flag timing priority_auction_bit;
  delta_verify_outputs = flag timing delta_verify_outputs_bit;
}

-- isFillOnce of oco.ts: `timing & FILL_ONCE_BIT` is not zero
unfoldable pub is_fill_once : Order → Bool
is_fill_once order = flag order.timing fill_once_bit_index

-- `(timing & ~(0xfn << 96n)) | (p << 96n)` for a policy below 16
unfoldable pub with_item_policy : ℕ → ℕ → Result ℕ
with_item_policy timing policy = do
  throw_if (ltb 15 policy) out_of_range
  ok (bit_or (timing - timing / 2 ^ 96 % 16 * 2 ^ 96) (policy * 2 ^ 96))

unfoldable pub item_policy_of : ℕ → ℕ
item_policy_of timing = timing / 2 ^ 96 % 16

pub record Clocks : Type 0 where
  pub decay_start_time : ℕ
  pub decay_duration : ℕ
  pub exclusivity_end_time : ℕ

unfoldable pub pack_timing : Clocks → Result ℕ
pack_timing c = do
  throw_if
      (leb (2 ^ 32) c.decay_start_time
        || leb (2 ^ 32) c.decay_duration
        || leb (2 ^ 32) c.exclusivity_end_time)
      out_of_range
  ok (
      bit_or (bit_or c.decay_start_time (c.decay_duration * 2 ^ 32))
        (c.exclusivity_end_time * 2 ^ 64))

unfoldable pub unpack_timing : ℕ → Clocks
unpack_timing timing = record {
  decay_start_time = timing % 2 ^ 32;
  decay_duration = timing / 2 ^ 32 % 2 ^ 32;
  exclusivity_end_time = timing / 2 ^ 64 % 2 ^ 32;
}

pub record Params : Type 0 where
  pub override_bps : ℕ
  pub gas_bump_bps : ℕ
  pub gas_price_ref : ℕ
  pub priority_scale : ℕ
  pub baseline_priority_fee_wei : ℕ

unfoldable pub pack_params : Params → Result ℕ
pack_params p = do
  throw_if (ltb 0xffff p.override_bps || ltb 0xffff p.gas_bump_bps) out_of_range
  throw_if (ltb 0xffff_ffff_ffff_ffff p.gas_price_ref || ltb 0xffff_ffff_ffff_ffff p.priority_scale)
      out_of_range
  throw_if (ltb 0xffff_ffff_ffff p.baseline_priority_fee_wei) out_of_range
  ok (
      bit_or
        (bit_or
          (bit_or (bit_or p.override_bps (p.gas_bump_bps * 2 ^ 16)) (p.gas_price_ref * 2 ^ 32))
          (p.priority_scale * 2 ^ 96))
        (p.baseline_priority_fee_wei * 2 ^ 160))

unfoldable pub unpack_params : ℕ → Params
unpack_params params = record {
  override_bps = params % 2 ^ 16;
  gas_bump_bps = params / 2 ^ 16 % 2 ^ 16;
  gas_price_ref = params / 2 ^ 32 % 2 ^ 64;
  priority_scale = params / 2 ^ 96 % 2 ^ 64;
  baseline_priority_fee_wei = params / 2 ^ 160 % 2 ^ 48;
}
