-- ===== src/Sdk/Packed/Elements.antt =====
-- packages/sdk/src/packed.ts: the readers of the elements of a blob against their writers.
use mathlib.Core.List.{append_assoc}
use delta_x.Prelude.{ℕ, ◌≡◌, refl, Result, ok, >>=-eq-ok, ◌++◌, length}
use delta_x.Sdk.Order.{Address, LegIn, LegOut, CurvePoint, Item, Validator}
use delta_x.Sdk.Packed.{
  Bytes, IsNumberToHex, IsGetAddress, addr, write_leg_in, write_leg_out, write_point, write_item,
  write_validator, read_leg_in, read_leg_out, read_point, read_item, read_validator,
}
use delta_x.Sdk.Packed.Reads.{Reads, read_addr-Reads, number-Reads, read_calldata-append}

module _ (number_to_hex : ℕ → ℕ → Result Bytes) (hexes : IsNumberToHex number_to_hex)
    (get_address : Address → Result Address) (checks : IsGetAddress get_address) where
  pub leg_in-Reads :
      (x : LegIn) (w : Bytes)
      → write_leg_in number_to_hex x ≡ ok w
      → Reads (read_leg_in get_address) w x
  unfolding write_leg_in read_leg_in
  leg_in-Reads x w e rest =
      let (w1, e1, r1) = >>=-eq-ok (addr x.token) _ e in
      let (w2, e2, r2) = >>=-eq-ok (number_to_hex x.start 32) _ r1 in
      let (w3, e3, r3) = >>=-eq-ok (number_to_hex x.end 32) _ r2 in
      let same : w1 ++ (w2 ++ w3) ≡ w = cc r3 in
      rw (← same) (
        simp
          (
            append_assoc,
            read_addr-Reads get_address checks x.token w1 e1,
            number-Reads number_to_hex hexes 32 x.start w2 e2,
            number-Reads number_to_hex hexes 32 x.end w3 e3,
          )
          refl)

  pub leg_out-Reads :
      (x : LegOut) (w : Bytes)
      → write_leg_out number_to_hex x ≡ ok w
      → Reads (read_leg_out get_address) w x
  unfolding write_leg_out read_leg_out
  leg_out-Reads x w e rest =
      let (w1, e1, r1) = >>=-eq-ok (addr x.token) _ e in
      let (w2, e2, r2) = >>=-eq-ok (number_to_hex x.start 32) _ r1 in
      let (w3, e3, r3) = >>=-eq-ok (number_to_hex x.end 32) _ r2 in
      let (w4, e4, r4) = >>=-eq-ok (addr x.recipient) _ r3 in
      let same : w1 ++ (w2 ++ (w3 ++ w4)) ≡ w = cc r4 in
      rw (← same) (
        simp
          (
            append_assoc,
            read_addr-Reads get_address checks x.token w1 e1,
            number-Reads number_to_hex hexes 32 x.start w2 e2,
            number-Reads number_to_hex hexes 32 x.end w3 e3,
            read_addr-Reads get_address checks x.recipient w4 e4,
          )
          refl)

  pub point-Reads :
      (x : CurvePoint) (w : Bytes) → write_point number_to_hex x ≡ ok w → Reads read_point w x
  unfolding write_point read_point
  point-Reads x w e rest =
      let (w1, e1, r1) = >>=-eq-ok (number_to_hex x.time_delta 4) _ e in
      let (w2, e2, r2) = >>=-eq-ok (number_to_hex x.bump_bps 4) _ r1 in
      let same : w1 ++ w2 ≡ w = cc r2 in
      rw (← same) (
        simp
          (
            append_assoc,
            number-Reads number_to_hex hexes 4 x.time_delta w1 e1,
            number-Reads number_to_hex hexes 4 x.bump_bps w2 e2,
          )
          refl)

  pub item-Reads :
      (x : Item) (w : Bytes) → write_item number_to_hex x ≡ ok w → Reads (read_item get_address) w x
  unfolding write_item read_item
  item-Reads x w e rest =
      let (w1, e1, r1) = >>=-eq-ok (number_to_hex x.op 1) _ e in
      let (w2, e2, r2) = >>=-eq-ok (addr x.module_address) _ r1 in
      let (w3, e3, r3) = >>=-eq-ok (number_to_hex x.amount 32) _ r2 in
      let (w4, e4, r4) = >>=-eq-ok (addr x.recipient) _ r3 in
      let (w5, e5, r5) = >>=-eq-ok (number_to_hex (length x.calldata) 2) _ r4 in
      let same : w1 ++ (w2 ++ (w3 ++ (w4 ++ (w5 ++ x.calldata)))) ≡ w = cc r5 in
      rw (← same) (
        simp
          (
            append_assoc,
            number-Reads number_to_hex hexes 1 x.op w1 e1,
            read_addr-Reads get_address checks x.module_address w2 e2,
            number-Reads number_to_hex hexes 32 x.amount w3 e3,
            read_addr-Reads get_address checks x.recipient w4 e4,
            read_calldata-append number_to_hex hexes x.calldata w5 rest e5,
          )
          refl)

  pub validator-Reads :
      (x : Validator) (w : Bytes)
      → write_validator number_to_hex x ≡ ok w
      → Reads (read_validator get_address) w x
  unfolding write_validator read_validator
  validator-Reads x w e rest =
      let (w1, e1, r1) = >>=-eq-ok (addr x.target) _ e in
      let (w2, e2, r2) = >>=-eq-ok (number_to_hex (length x.calldata) 2) _ r1 in
      let same : w1 ++ (w2 ++ x.calldata) ≡ w = cc r2 in
      rw (← same) (
        simp
          (
            append_assoc,
            read_addr-Reads get_address checks x.target w1 e1,
            read_calldata-append number_to_hex hexes x.calldata w2 rest e2,
          )
          refl)
