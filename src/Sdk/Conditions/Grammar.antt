-- ===== src/Sdk/Conditions/Grammar.antt =====
-- packages/sdk/src/conditions.ts: the documented grammar of a condition, as a reader.
use mathlib.Core.List.{append_assoc}
use delta_x.Prelude.{
  ℕ, ◌/◌, ◌≡◌, refl, some, false, not, List, [], ◌∷◌, map, length, Result, ok, throw_if, ◌>>=◌,
  >>=-eq-ok, ok-injective, arith, ◌==◌, empty_condition, unknown_flags, All,
}
use delta_x.Sdk.Packed.{
  Bytes, Reader, write_each, count, IsNumberToHex, addr, is_empty, packed, int, read_calldata,
  read_all,
}
use delta_x.Sdk.Packed.Reads.{
  Reads, addr-Reads, number-Reads, read_calldata-append, packed-Reads, packed-read_all_as, counted,
}
use delta_x.Sdk.Conditions.{
  ConditionLeaf, ConditionGroup, flags_or_zero, write_leaf, write_group, encode_conditions,
}

-- leaf := flags(1) ‖ target(20) ‖ dataLen(2) ‖ data
abbrev pub read_leaf : Reader ConditionLeaf
read_leaf text = do
  (flags, text1) ← int 1 text
  (target, text2) ← int 20 text1
  (calldata, text3) ← read_calldata text2
  ok (record { target = target; calldata = calldata; flags = some flags }, text3)

-- group := leafCount(1) ‖ leaf*
abbrev pub read_group : Reader ConditionGroup
read_group = counted read_leaf

-- A leaf with its flags written out.
abbrev pub explicit : ConditionLeaf → ConditionLeaf
explicit leaf = record leaf { flags = some (flags_or_zero leaf.flags) }

-- no empty group and no empty list of groups
abbrev pub IsCondition : List ConditionGroup → Type 0
IsCondition groups =
    (is_empty groups ≡ false) × All (λ (group : ConditionGroup). is_empty group ≡ false) groups

module _ (number_to_hex : ℕ → ℕ → Result Bytes) (hexes : IsNumberToHex number_to_hex) where
  leaf-Reads :
      (x : ConditionLeaf) (w : Bytes)
      → write_leaf number_to_hex x ≡ ok w
      → Reads read_leaf w (explicit x)
  unfolding write_leaf
  leaf-Reads x w e rest =
      let (u, e0, r0) =
        >>=-eq-ok (throw_if (not (flags_or_zero x.flags / 4 == 0)) unknown_flags) _ e in
      let (w1, e1, r1) = >>=-eq-ok (addr x.target) _ r0 in
      let (w2, e2, r2) = >>=-eq-ok (number_to_hex (flags_or_zero x.flags) 1) _ r1 in
      let (w3, e3, r3) = >>=-eq-ok (number_to_hex (length x.calldata) 2) _ r2 in
      rw (← ok-injective r3) (
        simp
          (
            append_assoc,
            number-Reads number_to_hex hexes 1 (flags_or_zero x.flags) w2 e2,
            addr-Reads x.target w1 e1,
            read_calldata-append number_to_hex hexes x.calldata w3 rest e3,
          )
          refl)

  group-Reads :
      (x : ConditionGroup) (w : Bytes)
      → write_group number_to_hex x ≡ ok w
      → Reads read_group w (map explicit x)
  unfolding write_group
  group-Reads x w e =
      let (u, e0, r0) = >>=-eq-ok (throw_if (is_empty x) empty_condition) _ e in
      packed-Reads number_to_hex hexes (write_leaf number_to_hex) read_leaf explicit leaf-Reads x w
        r0

  write_each_nonempty :
      (groups : List ConditionGroup) (w : Bytes)
      → write_each (write_group number_to_hex) groups ≡ ok w
      → All (λ (group : ConditionGroup). is_empty group ≡ false) groups
  unfolding write_each write_group
  write_each_nonempty [] w e = tt
  write_each_nonempty (group ∷ groups) w e =
      let (front, e1, r1) = >>=-eq-ok (write_group number_to_hex group) _ e in
      let (back, e2, r2) = >>=-eq-ok (write_each (write_group number_to_hex) groups) _ r1 in
      let (u, e3, r3) = >>=-eq-ok (throw_if (is_empty group) empty_condition) _ e1 in
      (ground arith, write_each_nonempty groups back e2)

  -- Where `numberToHex` does what viem documents, a condition that encodeConditions accepts has at
  -- least one group and no empty group, and the documented grammar reads its bytes back as the
  -- same groups, with absent flags as 0.
  pub read_all-encode_conditions :
      (groups : List ConditionGroup) (w : Bytes)
      → encode_conditions number_to_hex groups ≡ ok w
      → IsCondition groups × (read_all read_group w ≡ ok (map (map explicit) groups))
  unfolding encode_conditions packed
  read_all-encode_conditions groups w e =
      let (u, e0, r0) = >>=-eq-ok (throw_if (is_empty groups) empty_condition) _ e in
      let (n, e1, r1) = >>=-eq-ok (count number_to_hex (length groups)) _ r0 in
      let (body, e2, r2) = >>=-eq-ok (write_each (write_group number_to_hex) groups) _ r1 in
      (
        (ground arith, write_each_nonempty groups body e2),
        packed-read_all_as number_to_hex hexes (write_group number_to_hex) read_group (map explicit)
            group-Reads groups w r0,
      )
