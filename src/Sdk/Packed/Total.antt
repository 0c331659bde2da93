-- ===== src/Sdk/Packed/Total.antt =====
-- packages/sdk/src/packed.ts: the orders that packOrder accepts.
use delta_x.Prelude.{
  ℕ, ◌^◌, ◌≤◌, ◌<◌, ◌≡◌, refl, arith, Result, ok, List, [], ◌∷◌, length, All, ◌>>=◌, Result-cases,
  inl, inr,
}
use delta_x.Sdk.Order.{Address, Order, LegIn, LegOut, CurvePoint, Item, Validator}
use delta_x.Sdk.Timing.{Params, pack_params}
use delta_x.Sdk.Packed.{
  Bytes, IsNumberToHex, IsGetAddress, big_endian, addr, count, packed, write_each, pack_legs_in,
  pack_legs_out, pack_curve, pack_items, pack_validators, write_leg_in, write_leg_out, write_point,
  write_item, write_validator,
}
use delta_x.Sdk.Packed.Order.{WireOrder, pack_guards, pack_order, unpack_order, baseline_or_zero}
use delta_x.Sdk.Packed.RoundTrip.{HasAddresses, canonical, unpack-pack_order}

abbrev pub Succeeds : {A : Type 0} → Result A → Type 0
Succeeds {A = A} r = (a : A) × (r ≡ ok a)

>>=-Succeeds :
    {A B : Type 0} {m : Result A} {next : A → Result B}
    → Succeeds m
    → ((a : A) → Succeeds (next a))
    → Succeeds (m >>= next)
>>=-Succeeds {m} {next} (a, e) each = let (b, e') = each a in (b, simp (e, e') refl)

done : {A : Type 0} (a : A) → Succeeds (ok a)
done a = (a, refl)

addr-Succeeds : (a : ℕ) → a < 256 ^ 20 → Succeeds (addr a)
unfolding addr
addr-Succeeds a h = (big_endian 20 a, ground arith)

write_each-Succeeds :
    {A : Type 0} (P : A → Type 0) (f : A → Result Bytes)
    → ((x : A) → P x → Succeeds (f x))
    → (xs : List A) → All P xs
    → Succeeds (write_each f xs)
unfolding write_each
write_each-Succeeds P f each [] p = ([], refl)
write_each-Succeeds P f each (x ∷ xs) (px, p) =
    >>=-Succeeds (each x px)
      λ front. >>=-Succeeds (write_each-Succeeds P f each xs p) λ back. done _

abbrev pub FitsLegIn : LegIn → Type 0
FitsLegIn leg = (leg.token < 256 ^ 20) × (leg.start < 256 ^ 32) × (leg.end < 256 ^ 32)

abbrev pub FitsLegOut : LegOut → Type 0
FitsLegOut leg =
    (leg.token < 256 ^ 20)
    × (leg.start < 256 ^ 32)
    × (leg.end < 256 ^ 32)
    × (leg.recipient < 256 ^ 20)

abbrev pub FitsPoint : CurvePoint → Type 0
FitsPoint point = (point.time_delta < 256 ^ 4) × (point.bump_bps < 256 ^ 4)

abbrev pub FitsItem : Item → Type 0
FitsItem item =
    (item.op < 256 ^ 1)
    × (item.module_address < 256 ^ 20)
    × (item.amount < 256 ^ 32)
    × (item.recipient < 256 ^ 20)
    × (length item.calldata < 256 ^ 2)

abbrev pub FitsValidator : Validator → Type 0
FitsValidator v = (v.target < 256 ^ 20) × (length v.calldata < 256 ^ 2)

-- a blob holds at most 255 elements
abbrev pub FitsList : {A : Type 0} → (A → Type 0) → List A → Type 0
FitsList P xs = (length xs ≤ 255) × All P xs

abbrev pub Fits : Order → Type 0
Fits order =
    FitsList FitsLegIn order.legs_in
    × FitsList FitsLegOut order.legs_out
    × FitsList FitsPoint order.curve
    × FitsList FitsItem order.items
    × FitsList FitsValidator order.validators
    × FitsList FitsValidator order.invariants
    × (order.exclusivity_override_bps < 2 ^ 16)
    × (order.gas_bump_bps < 2 ^ 16)
    × (order.gas_price_ref < 2 ^ 64)
    × (order.priority_scale < 2 ^ 64)
    × (baseline_or_zero order.baseline_priority_fee_wei < 2 ^ 48)
    × HasAddresses order

pack_params-Succeeds :
    (p : Params)
    → p.override_bps < 2 ^ 16
    → p.gas_bump_bps < 2 ^ 16
    → p.gas_price_ref < 2 ^ 64
    → p.priority_scale < 2 ^ 64
    → p.baseline_priority_fee_wei < 2 ^ 48
    → Succeeds (pack_params p)
unfolding pack_params
pack_params-Succeeds p a b c d e = elim (Result-cases (pack_params p)) [
  | inl succeeds ↦ succeeds
  | inr (thrown, q) ↦ absurd (ground arith)
]

module _ (number_to_hex : ℕ → ℕ → Result Bytes) (hexes : IsNumberToHex number_to_hex) where
  number-Succeeds : (n v : ℕ) → v < 256 ^ n → Succeeds (number_to_hex v n)
  number-Succeeds n v h = (big_endian n v, ground (arith, hexes v n))

  packed-Succeeds :
      {A : Type 0} (P : A → Type 0) (f : A → Result Bytes)
      → ((x : A) → P x → Succeeds (f x))
      → (xs : List A) → FitsList P xs
      → Succeeds (packed number_to_hex f xs)
  unfolding packed count
  packed-Succeeds P f each xs (few, p) =
      >>=-Succeeds
        (>>=-Succeeds (tt, ground arith) λ u. (number-Succeeds 1 (length xs) (omega arith)))
        λ n. >>=-Succeeds (write_each-Succeeds P f each xs p) λ body. done _

  leg_in-Succeeds : (x : LegIn) → FitsLegIn x → Succeeds (write_leg_in number_to_hex x)
  unfolding write_leg_in
  leg_in-Succeeds x (a, b, c) = >>=-Succeeds (addr-Succeeds x.token a) λ w1.
      >>=-Succeeds (number-Succeeds 32 x.start b)
        λ w2. >>=-Succeeds (number-Succeeds 32 x.end c) λ w3. done _

  leg_out-Succeeds : (x : LegOut) → FitsLegOut x → Succeeds (write_leg_out number_to_hex x)
  unfolding write_leg_out
  leg_out-Succeeds x (a, b, c, d) = >>=-Succeeds (addr-Succeeds x.token a) λ w1.
      >>=-Succeeds (number-Succeeds 32 x.start b) λ w2.
        >>=-Succeeds (number-Succeeds 32 x.end c)
          λ w3. >>=-Succeeds (addr-Succeeds x.recipient d) λ w4. done _

  point-Succeeds : (x : CurvePoint) → FitsPoint x → Succeeds (write_point number_to_hex x)
  unfolding write_point
  point-Succeeds x (a, b) =
      >>=-Succeeds (number-Succeeds 4 x.time_delta a)
        λ w1. >>=-Succeeds (number-Succeeds 4 x.bump_bps b) λ w2. done _

  item-Succeeds : (x : Item) → FitsItem x → Succeeds (write_item number_to_hex x)
  unfolding write_item
  item-Succeeds x (a, b, c, d, e) = >>=-Succeeds (number-Succeeds 1 x.op a) λ w1.
      >>=-Succeeds (addr-Succeeds x.module_address b) λ w2.
        >>=-Succeeds (number-Succeeds 32 x.amount c) λ w3.
          >>=-Succeeds (addr-Succeeds x.recipient d)
            λ w4. >>=-Succeeds (number-Succeeds 2 (length x.calldata) e) λ w5. done _

  validator-Succeeds :
      (x : Validator) → FitsValidator x → Succeeds (write_validator number_to_hex x)
  unfolding write_validator
  validator-Succeeds x (a, b) =
      >>=-Succeeds (addr-Succeeds x.target a)
        λ w1. >>=-Succeeds (number-Succeeds 2 (length x.calldata) b) λ w2. done _

  pack_order-Succeeds :
      (order : Order)
      → pack_guards order ≡ ok tt
      → Fits order
      → Succeeds (pack_order number_to_hex order)
  unfolding pack_order pack_legs_in pack_legs_out pack_curve pack_items pack_validators
  pack_order-Succeeds order guarded (a, b, c, d, e, f, g, h, i, j, k, l) =
      >>=-Succeeds (tt, guarded)
        λ u. >>=-Succeeds (packed-Succeeds FitsLegIn _ leg_in-Succeeds order.legs_in a) λ w1.
          >>=-Succeeds (packed-Succeeds FitsLegOut _ leg_out-Succeeds order.legs_out b) λ w2.
            >>=-Succeeds (pack_params-Succeeds _ g h i j k) λ w3.
              >>=-Succeeds (packed-Succeeds FitsPoint _ point-Succeeds order.curve c) λ w4.
                >>=-Succeeds (packed-Succeeds FitsItem _ item-Succeeds order.items d) λ w5.
                  >>=-Succeeds
                    (packed-Succeeds FitsValidator _ validator-Succeeds order.validators e)
                    λ w6.
                      >>=-Succeeds
                        (packed-Succeeds FitsValidator _ validator-Succeeds order.invariants f)
                        λ w7. done _

HasAddresses-Fits : (order : Order) → Fits order → HasAddresses order
HasAddresses-Fits order (a, b, c, d, e, f, g, h, i, j, k, l) = l

-- Where `numberToHex` and `getAddress` do what viem documents, an order that passes the guards of
-- packOrder and whose fields fit their bytes, its addresses 20 of them, with at most 255 elements in
-- each array, is packed, and unpackOrder reads it back, a baseline fee of zero as none.
pub unpack-pack_order_total :
    (number_to_hex : ℕ → ℕ → Result Bytes) (get_address : Address → Result Address) (order : Order)
    → IsNumberToHex number_to_hex
    → IsGetAddress get_address
    → pack_guards order ≡ ok tt
    → Fits order
    → (w : WireOrder) × (pack_order number_to_hex order ≡ ok w)
      × (unpack_order get_address w ≡ ok (canonical order))
unpack-pack_order_total hex get_address order hexes checks guarded fits =
    let (w, e) = pack_order-Succeeds hex hexes order guarded fits in
    elim (unpack-pack_order hex get_address order w hexes checks e) [
      | inl (addresses, back) ↦ (w, e, back)
      | inr (other, thrown) ↦ absurd (other (HasAddresses-Fits order fits))
    ]
