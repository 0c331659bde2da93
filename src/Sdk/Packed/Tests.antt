-- ===== src/Sdk/Packed/Tests.antt =====
-- A delta-verify order with an item, a validator and an invariant, packed and read back.
use delta_x.Prelude.{
  ℕ, ◌+◌, ◌*◌, ◌^◌, ◌≡◌, refl, arith, Result, ok, err, ◌⊎◌, ◌>>=◌, not_an_address, out_of_range, [],
  ◌∷◌, length, some, leb, if◌then◌else◌,
}
use delta_x.Sdk.Order.{Address, Order, buy, op_settle}
use delta_x.Sdk.Timing.{flag, unpack_timing, pack_params, unpack_params}
use delta_x.Sdk.Funding.{is_reserved_nonce, assert_order_nonce}
use delta_x.Sdk.Packed.{
  Bytes, big_endian, addr, write_each, count, packed, write_leg_in, pack_legs_in, write_leg_out,
  pack_legs_out, write_point, pack_curve, write_item, pack_items, write_validator, pack_validators,
  big_int, int, read_addr, read_calldata, repeat, read_all, read_leg_in, read_leg_out, read_point,
  read_item, read_validator, pack_filler_set,
}
use delta_x.Sdk.Packed.Order.{
  WireOrder, pack_order, unpack_order, pack_guards, names_no_filler, is_invariant_only, settles,
  assert_invariant_consideration, fold_timing, side_of, expiry_of, author_timing, positive_baseline,
  baseline_or_zero,
}
use delta_x.Sdk.Packed.RoundTrip.{HasAddresses, canonical, unpack-pack_order}
use delta_x.Sdk.Packed.Wire.{IsWireOf, pack_order-IsWireOf}
use delta_x.Sdk.Packed.Total.{unpack-pack_order_total}
use delta_x.Sdk.Packed.Guards.{IsGuarded, pack_guards-IsGuarded}

runs : Unit {0}
unfolding big_endian addr write_each count packed write_leg_in pack_legs_in write_leg_out
    pack_legs_out write_point pack_curve write_item pack_items write_validator pack_validators
    delta_x.Sdk.Packed.take_bytes big_int int read_addr read_calldata repeat read_all read_leg_in
    read_leg_out read_point read_item read_validator pack_filler_set pack_order unpack_order
    pack_guards names_no_filler is_invariant_only settles assert_invariant_consideration fold_timing
    side_of expiry_of author_timing positive_baseline baseline_or_zero flag unpack_timing
    pack_params unpack_params is_reserved_nonce assert_order_nonce
runs = tt

-- numberToHex as viem documents it
abbrev hex_writer : ℕ → ℕ → Result Bytes
hex_writer value size =
    if leb (256 ^ size) value then err out_of_range else ok (big_endian size value)

-- getAddress as viem documents it
abbrev checksum : Address → Result Address
checksum a = if leb (256 ^ 20) a then err not_an_address else ok a

abbrev signed_order : Order
signed_order = record {
  maker = 5;
  side = buy;
  nonce = 77;
  expiry = 1000;
  legs_in = record { token = 11; start = 1000; end = 1200 } ∷ [];
  legs_out = record { token = 12; start = 2000; end = 2000; recipient = 0 } ∷ [];
  timing = 100 + 50 * 2 ^ 32 + 1000 * 2 ^ 64 + 2 ^ 104;
  exclusive_filler = 7;
  min_fill_anchor = 10;
  exclusivity_override_bps = 0;
  curve = record { time_delta = 25; bump_bps = 300 } ∷ [];
  gas_bump_bps = 3;
  gas_price_ref = 9;
  priority_scale = 0;
  baseline_priority_fee_wei = some 0;
  items =
      record {
        op = op_settle;
        module_address = 21;
        amount = 500;
        recipient = 0;
        calldata = 1 ∷ 255 ∷ [];
      }
      ∷ [];
  validators = record { target = 31; calldata = [] } ∷ [];
  invariants = record { target = 32; calldata = 7 ∷ [] } ∷ [];
  fill_module = 0;
  fill_total = 0;
  pricing_module = 0;
}

-- A maker of more than 20 bytes is packed and not read back.
abbrev long_maker : Order
long_maker = record signed_order { maker = 256 ^ 20 }

long_maker_throws :
    (pack_order hex_writer long_maker >>= unpack_order checksum) ≡ err not_an_address
unfolding runs
long_maker_throws = refl

abbrev blank : WireOrder
blank = record {
  maker = 0;
  nonce = 0;
  legs_in = [];
  legs_out = [];
  timing = 0;
  exclusive_filler = 0;
  min_fill_anchor = 0;
  params = 0;
  curve = [];
  items = [];
  validators = [];
  invariants = [];
  fill_module = 0;
  fill_total = 0;
  pricing_module = 0;
}

abbrev wire_order : WireOrder
unfolding runs
wire_order = elim (pack_order hex_writer signed_order) [ ok w ↦ w | err thrown ↦ blank ]

packs : pack_order hex_writer signed_order ≡ ok wire_order
unfolding runs
packs = refl

packed_item :
    wire_order.validators
    ≡ 1 ∷ 0 ∷ 0 ∷ 0 ∷ 0 ∷ 0 ∷ 0 ∷ 0 ∷ 0 ∷ 0 ∷ 0 ∷ 0 ∷ 0 ∷ 0 ∷ 0 ∷ 0 ∷ 0 ∷ 0 ∷ 0 ∷ 0 ∷ 31 ∷ 0 ∷ 0
      ∷ []
unfolding runs
packed_item = refl

filler_set_blob : (w : Bytes) × (pack_filler_set (513 ∷ []) ≡ ok w) × (length w ≡ 21)
unfolding runs
filler_set_blob = (_, refl, refl)

unpack-pack_order_example :
    (HasAddresses signed_order × (unpack_order checksum wire_order ≡ ok (canonical signed_order)))
    ⊎ ((¬ HasAddresses signed_order) × (unpack_order checksum wire_order ≡ err not_an_address))
unfolding runs
unpack-pack_order_example =
    unpack-pack_order hex_writer checksum signed_order wire_order (λ value size. refl) (λ a. refl)
      refl

pack_order-IsWireOf_example : IsWireOf signed_order wire_order
unfolding runs
pack_order-IsWireOf_example =
    pack_order-IsWireOf hex_writer signed_order wire_order (λ value size. refl)
      (((omega arith, (omega arith, tt)), tt), (tt, tt), ((omega arith, tt), tt)) refl

unpack-pack_order_total_example :
    (w : WireOrder) × (pack_order hex_writer signed_order ≡ ok w)
    × (unpack_order checksum w ≡ ok (canonical signed_order))
unfolding runs
unpack-pack_order_total_example =
    unpack-pack_order_total hex_writer checksum signed_order (λ value size. refl) (λ a. refl) refl
      (ground arith)

pack_guards-IsGuarded_example : IsGuarded signed_order
unfolding runs
pack_guards-IsGuarded_example = (pack_guards-IsGuarded signed_order).0 refl
