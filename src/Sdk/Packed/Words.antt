-- ===== src/Sdk/Packed/Words.antt =====
-- packages/sdk/src/packed.ts: the `timing` word of a wire order, with its two regions.
use delta_x.Prelude.{ℕ, ◌+◌, ◌*◌, ◌^◌, ◌<◌, ◌≡◌, false, arith, ok}
use delta_x.Prelude.Bits.{bit_or_disjoint, bit_or-pow, bit_or-zero}
use delta_x.Sdk.Order.{Order, OrderSide, sell, buy}
use delta_x.Sdk.Timing.{flag}
use delta_x.Sdk.Packed.Order.{
  side_bit, side_number, fold_timing, side_of, expiry_of, author_timing, pack_guards,
}

-- On a word whose two regions are clear, the three fields add up.
pub fold_timing-sum :
    (t : ℕ) (side : OrderSide) (e : ℕ)
    → t < 2 ^ 105
    → flag t side_bit ≡ false
    → fold_timing t side e ≡ t + side_number side * 2 ^ 101 + e * 2 ^ 160
unfolding fold_timing flag
fold_timing-sum t sell e low clear = ground (arith, bit_or-zero t, bit_or_disjoint 160 t e)
fold_timing-sum t buy e low clear =
    ground (arith, bit_or-pow 101 t, bit_or_disjoint 160 (t + 2 ^ 101) e)

pub side_of-fold_timing :
    (t : ℕ) (side : OrderSide) (e : ℕ)
    → t < 2 ^ 105
    → flag t side_bit ≡ false
    → side_of (fold_timing t side e) ≡ side
unfolding side_of flag
side_of-fold_timing t sell e low clear = rw (fold_timing-sum t sell e low clear) (ground arith)
side_of-fold_timing t buy e low clear = rw (fold_timing-sum t buy e low clear) (ground arith)

pub expiry_of-fold_timing :
    (t : ℕ) (side : OrderSide) (e : ℕ)
    → t < 2 ^ 105
    → flag t side_bit ≡ false
    → e < 2 ^ 48
    → expiry_of (fold_timing t side e) ≡ e
unfolding expiry_of
expiry_of-fold_timing t sell e low clear fits =
    rw (fold_timing-sum t sell e low clear) (ground arith)
expiry_of-fold_timing t buy e low clear fits = rw (fold_timing-sum t buy e low clear) (ground arith)

pub author_timing-fold_timing :
    (t : ℕ) (side : OrderSide) (e : ℕ)
    → t < 2 ^ 105
    → flag t side_bit ≡ false
    → e < 2 ^ 48
    → author_timing (fold_timing t side e) ≡ t
unfolding author_timing flag
author_timing-fold_timing t sell e low clear fits =
    rw (fold_timing-sum t sell e low clear) (ground arith)
author_timing-fold_timing t buy e low clear fits =
    rw (fold_timing-sum t buy e low clear) (ground arith)

-- What the guards leave.
pub pack_guards-ok :
    (order : Order)
    → pack_guards order ≡ ok tt
    → (order.timing < 2 ^ 105) × (flag order.timing side_bit ≡ false) × (order.expiry < 2 ^ 48)
unfolding pack_guards
pack_guards-ok order e = ground arith
