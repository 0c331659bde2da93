-- ===== src/Sdk/Proportional/Markers.antt =====
-- Balance-relative markers: they are read back as written, no ordinary amount is one, and what they
-- resolve to is bounded by the cap and by the balance.
use delta_x.Prelude.{ℕ, ◌-◌, ◌≤◌, ◌≡◌, true, arith, ok}
use delta_x.Prelude.Arith.{mul_div-le}
use delta_x.Sdk.Order.{bps, max_uint256}
use delta_x.Sdk.Proportional.{
  is_proportional, proportional_bps, encode_proportional, resolve_proportional,
}

-- Every marker that `encodeProportional` builds is a word, is recognised, and carries its bps.
pub encode_proportional_marker :
    (share m : ℕ)
    → encode_proportional share ≡ ok m
    → (m ≤ max_uint256) × (is_proportional m ≡ true) × (proportional_bps m ≡ share)
unfolding encode_proportional is_proportional proportional_bps
encode_proportional_marker share m e = ground arith

-- A resolved marker is at most the cap and at most the balance.
pub resolve_proportional-le :
    (balance start cap a : ℕ)
    → resolve_proportional balance start cap ≡ ok a
    → (a ≤ cap) × (a ≤ balance)
unfolding resolve_proportional
resolve_proportional-le balance start cap a e =
    ground (arith, mul_div-le balance (bps - (max_uint256 - start)) bps)
