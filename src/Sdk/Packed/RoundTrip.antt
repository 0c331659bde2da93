-- ===== src/Sdk/Packed/RoundTrip.antt =====
-- packages/sdk/src/packed.ts: unpackOrder after packOrder.
use delta_x.Prelude.{
  ℕ, ◌^◌, ◌<◌, ◌≡◌, ◌⊎◌, inl, inr, leb, Bool-cases, ◌>>=◌, err, not_an_address, arith, refl, Result,
  ok, >>=-eq-ok, ok-injective,
}
use delta_x.Sdk.Order.{Address, Order}
use delta_x.Sdk.Timing.{pack_params}
use delta_x.Sdk.Timing.RoundTrip.{unpack-pack_params}
use delta_x.Sdk.Packed.{
  Bytes, IsNumberToHex, IsGetAddress, pack_legs_in, pack_legs_out, pack_curve, pack_items,
  pack_validators, write_leg_in, write_leg_out, write_point, write_item, write_validator,
  read_leg_in, read_leg_out, read_point, read_item, read_validator,
}
use delta_x.Sdk.Packed.Reads.{packed-read_all}
use delta_x.Sdk.Packed.Elements.{
  leg_in-Reads, leg_out-Reads, point-Reads, item-Reads, validator-Reads,
}
use delta_x.Sdk.Packed.Order.{
  WireOrder, pack_guards, pack_order, unpack_order, baseline_or_zero, positive_baseline,
}
use delta_x.Sdk.Packed.Words.{
  side_of-fold_timing, expiry_of-fold_timing, author_timing-fold_timing, pack_guards-ok,
}

-- A baseline of zero is the same as none.
abbrev pub canonical : Order → Order
canonical order = record order {
  baseline_priority_fee_wei = positive_baseline (baseline_or_zero order.baseline_priority_fee_wei);
}

-- The addresses that stand in a wire order as they are have 20 bytes. packOrder does not look.
abbrev pub HasAddresses : Order → Type 0
HasAddresses order =
    (order.maker < 256 ^ 20)
    × (order.exclusive_filler < 256 ^ 20)
    × (order.fill_module < 256 ^ 20)
    × (order.pricing_module < 256 ^ 20)

-- What unpackOrder asks of the four addresses, in its order.
abbrev checked : (Address → Result Address) → Order → Result Order
checked get_address order = do
  maker ← get_address order.maker
  exclusive_filler ← get_address order.exclusive_filler
  fill_module ← get_address order.fill_module
  pricing_module ← get_address order.pricing_module
  ok (record order {
    maker = maker;
    exclusive_filler = exclusive_filler;
    fill_module = fill_module;
    pricing_module = pricing_module;
  })

checked-cases :
    (get_address : Address → Result Address) (order : Order)
    → IsGetAddress get_address
    → (HasAddresses order × (checked get_address order ≡ ok order))
      ⊎ ((¬ HasAddresses order) × (checked get_address order ≡ err not_an_address))
checked-cases get order checks =
    let a = checks order.maker in
    let b = checks order.exclusive_filler in
    let c = checks order.fill_module in
    let d = checks order.pricing_module in
    elim (Bool-cases (leb (256 ^ 20) order.maker)) [
      | inl wide ↦ inr ((λ (m, f, l, p). ground (arith, wide)), ground (arith, wide, a))
      | inr maker ↦ elim (Bool-cases (leb (256 ^ 20) order.exclusive_filler)) [
        | inl wide ↦ inr ((λ (m, f, l, p). ground (arith, wide)), ground (arith, wide, maker, a, b))
        | inr filler ↦ elim (Bool-cases (leb (256 ^ 20) order.fill_module)) [
          | inl wide ↦
              inr (
                (λ (m, f, l, p). ground (arith, wide)),
                ground (arith, wide, maker, filler, a, b, c),
              )
          | inr fill ↦ elim (Bool-cases (leb (256 ^ 20) order.pricing_module)) [
            | inl wide ↦ inr (
              (λ (m, f, l, p). ground (arith, wide)),
              ground (arith, wide, maker, filler, fill, a, b, c, d),
            )
            | inr pricing ↦ inl (
              (ground arith, ground arith, ground arith, ground arith),
              ground (arith, pricing, maker, filler, fill, a, b, c, d),
            )
          ]
        ]
      ]
    ]

unpack-pack_order-checked :
    (number_to_hex : ℕ → ℕ → Result Bytes) (get_address : Address → Result Address) (order : Order)
    (w : WireOrder)
    → IsNumberToHex number_to_hex
    → IsGetAddress get_address
    → pack_order number_to_hex order ≡ ok w
    → unpack_order get_address w ≡ checked get_address (canonical order)
unfolding pack_order unpack_order pack_legs_in pack_legs_out pack_curve pack_items pack_validators
unpack-pack_order-checked hex get_address order w hexes checks e =
    let (u, e0, r0) = >>=-eq-ok (pack_guards order) _ e in
    let (w1, e1, r1) = >>=-eq-ok (pack_legs_in hex order.legs_in) _ r0 in
    let (w2, e2, r2) = >>=-eq-ok (pack_legs_out hex order.legs_out) _ r1 in
    let (w3, e3, r3) = >>=-eq-ok (pack_params _) _ r2 in
    let (w4, e4, r4) = >>=-eq-ok (pack_curve hex order.curve) _ r3 in
    let (w5, e5, r5) = >>=-eq-ok (pack_items hex order.items) _ r4 in
    let (w6, e6, r6) = >>=-eq-ok (pack_validators hex order.validators) _ r5 in
    let (w7, e7, r7) = >>=-eq-ok (pack_validators hex order.invariants) _ r6 in
    let (low, clear, fits) = pack_guards-ok order e0 in
    let p = unpack-pack_params _ w3 e3 in
    rw (← ok-injective r7) (
      simp
        (
          packed-read_all hex hexes (write_leg_in hex) (read_leg_in get_address)
              (leg_in-Reads hex hexes get_address checks) order.legs_in w1 e1,
          packed-read_all hex hexes (write_leg_out hex) (read_leg_out get_address)
              (leg_out-Reads hex hexes get_address checks) order.legs_out w2 e2,
          packed-read_all hex hexes (write_point hex) read_point
              (point-Reads hex hexes get_address checks) order.curve w4 e4,
          packed-read_all hex hexes (write_item hex) (read_item get_address)
              (item-Reads hex hexes get_address checks) order.items w5 e5,
          packed-read_all hex hexes (write_validator hex) (read_validator get_address)
              (validator-Reads hex hexes get_address checks) order.validators w6 e6,
          packed-read_all hex hexes (write_validator hex) (read_validator get_address)
              (validator-Reads hex hexes get_address checks) order.invariants w7 e7,
          p,
          side_of-fold_timing order.timing order.side order.expiry low clear,
          expiry_of-fold_timing order.timing order.side order.expiry low clear fits,
          author_timing-fold_timing order.timing order.side order.expiry low clear fits,
        )
        refl)

-- Where `numberToHex` and `getAddress` do what viem documents and packOrder accepts an order: either
-- the maker, exclusive filler, fill module and pricing module are addresses of 20 bytes, and
-- unpackOrder reads the order back as it was, but for a baseline fee of zero, which comes back as
-- none; or they are not, and unpackOrder throws.
pub unpack-pack_order :
    (number_to_hex : ℕ → ℕ → Result Bytes) (get_address : Address → Result Address) (order : Order)
    (w : WireOrder)
    → IsNumberToHex number_to_hex
    → IsGetAddress get_address
    → pack_order number_to_hex order ≡ ok w
    → (HasAddresses order × (unpack_order get_address w ≡ ok (canonical order)))
      ⊎ ((¬ HasAddresses order) × (unpack_order get_address w ≡ err not_an_address))
unpack-pack_order hex get_address order w hexes checks e =
    rw (unpack-pack_order-checked hex get_address order w hexes checks e)
      (checked-cases get_address (canonical order) checks)
