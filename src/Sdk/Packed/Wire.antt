-- ===== src/Sdk/Packed/Wire.antt =====
-- packages/sdk/src/packed.ts: the form of the blobs and the words of a wire order.
use delta_x.Prelude.{
  false, ℕ, ◌+◌, ◌*◌, ◌^◌, ◌<◌, ◌≡◌, arith, Result, ok, >>=-eq-ok, ok-injective, List, [], ◌∷◌,
  length, All,
}
use delta_x.Sdk.Timing.RoundTrip.{pack_params-sum}
use delta_x.Sdk.Order.{Order, OrderSide, sell, buy, Item, Validator}
use delta_x.Sdk.Timing.{pack_params, flag}
use delta_x.Sdk.Packed.{
  Bytes, IsNumberToHex, pack_legs_in, pack_legs_out, pack_curve, pack_items, pack_validators,
  write_leg_in, write_leg_out, write_point, write_item, write_validator,
}
use delta_x.Sdk.Packed.Order.{WireOrder, pack_guards, pack_order, fold_timing, side_bit}
use delta_x.Sdk.Packed.Words.{fold_timing-sum, pack_guards-ok}
use delta_x.Sdk.Packed.Layout.{
  IsByte, IsBlob, total_size, packed-IsBlob, leg_in-IsBlob, leg_out-IsBlob, point-IsBlob,
  item-IsBlob, validator-IsBlob,
}

total_size-fixed : {A : Type 0} (n : ℕ) (xs : List A) → total_size (λ x. n) xs ≡ n * length xs
total_size-fixed n [] = omega arith
total_size-fixed n (x ∷ xs) = grind (arith, total_size-fixed n xs)

anything : {A : Type 0} (xs : List A) → All (λ x. Unit {0}) xs
anything [] = tt
anything (x ∷ xs) = (tt, anything xs)

fold_timing_fits :
    (t : ℕ) (side : OrderSide) (e : ℕ)
    → t < 2 ^ 105
    → flag t side_bit ≡ false
    → e < 2 ^ 48
    → fold_timing t side e < 2 ^ 208
fold_timing_fits t sell e low clear fits = omega (arith, fold_timing-sum t sell e low clear)
fold_timing_fits t buy e low clear fits = omega (arith, fold_timing-sum t buy e low clear)

-- The wire form of an order: a count byte and then the elements, each of its documented length, and
-- two words of 208 bits.
abbrev pub IsWireOf : Order → WireOrder → Type 0
IsWireOf order w =
    IsBlob (1 + 84 * length order.legs_in) w.legs_in
    × IsBlob (1 + 104 * length order.legs_out) w.legs_out
    × IsBlob (1 + 8 * length order.curve) w.curve
    × IsBlob (1 + total_size (λ (x : Item). 75 + length x.calldata) order.items) w.items
    × IsBlob (1 + total_size (λ (x : Validator). 22 + length x.calldata) order.validators)
        w.validators
    × IsBlob (1 + total_size (λ (x : Validator). 22 + length x.calldata) order.invariants)
        w.invariants
    × (w.timing < 2 ^ 208)
    × (w.params < 2 ^ 208)

-- the calldata that the order carries is made of bytes
abbrev pub HasBytes : Order → Type 0
HasBytes order =
    All (λ (x : Item). All IsByte x.calldata) order.items
    × All (λ (x : Validator). All IsByte x.calldata) order.validators
    × All (λ (x : Validator). All IsByte x.calldata) order.invariants

-- Where `numberToHex` does what viem documents and the order's calldata is made of bytes, each
-- blob of a packed order is made of bytes and has exactly the documented length, one byte for the
-- count and the stride or the size of each element, and its `timing` and `params` words are below
-- 2 ^ 208.
pub pack_order-IsWireOf :
    (number_to_hex : ℕ → ℕ → Result Bytes) (order : Order) (w : WireOrder)
    → IsNumberToHex number_to_hex
    → HasBytes order
    → pack_order number_to_hex order ≡ ok w
    → IsWireOf order w
unfolding pack_order pack_legs_in pack_legs_out pack_curve pack_items pack_validators
pack_order-IsWireOf hex order w hexes (bytes1, bytes2, bytes3) e =
    let (u, e0, r0) = >>=-eq-ok (pack_guards order) _ e in
    let (w1, e1, r1) = >>=-eq-ok (pack_legs_in hex order.legs_in) _ r0 in
    let (w2, e2, r2) = >>=-eq-ok (pack_legs_out hex order.legs_out) _ r1 in
    let (w3, e3, r3) = >>=-eq-ok (pack_params _) _ r2 in
    let (w4, e4, r4) = >>=-eq-ok (pack_curve hex order.curve) _ r3 in
    let (w5, e5, r5) = >>=-eq-ok (pack_items hex order.items) _ r4 in
    let (w6, e6, r6) = >>=-eq-ok (pack_validators hex order.validators) _ r5 in
    let (w7, e7, r7) = >>=-eq-ok (pack_validators hex order.invariants) _ r6 in
    let (low, clear, fits) = pack_guards-ok order e0 in
    rw
      (
        ← ok-injective r7,
        ← total_size-fixed 84 order.legs_in,
        ← total_size-fixed 104 order.legs_out,
        ← total_size-fixed 8 order.curve,
      )
      (
        packed-IsBlob hex hexes _ _ (write_leg_in hex) (leg_in-IsBlob hex hexes) order.legs_in w1
            (anything order.legs_in) e1,
        packed-IsBlob hex hexes _ _ (write_leg_out hex) (leg_out-IsBlob hex hexes) order.legs_out w2
            (anything order.legs_out) e2,
        packed-IsBlob hex hexes _ _ (write_point hex) (point-IsBlob hex hexes) order.curve w4
            (anything order.curve) e4,
        packed-IsBlob hex hexes _ _ (write_item hex) (item-IsBlob hex hexes) order.items w5 bytes1
            e5,
        packed-IsBlob hex hexes _ _ (write_validator hex) (validator-IsBlob hex hexes)
            order.validators w6 bytes2 e6,
        packed-IsBlob hex hexes _ _ (write_validator hex) (validator-IsBlob hex hexes)
            order.invariants w7 bytes3 e7,
        fold_timing_fits order.timing order.side order.expiry low clear fits,
        omega (arith, pack_params-sum _ w3 e3),
      )
