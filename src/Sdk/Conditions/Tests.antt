-- ===== src/Sdk/Conditions/Tests.antt =====
-- (price AND NOT paused) OR timeout
use delta_x.Prelude.{
  ℕ, ◌^◌, ◌≡◌, refl, some, none, List, [], ◌∷◌, map, Result, ok, err, out_of_range, empty_condition,
  unknown_flags, leb, if◌then◌else◌,
}
use delta_x.Sdk.Packed.{
  Bytes, big_endian, addr, write_each, count, packed, take_bytes, big_int, int, read_calldata,
  repeat, read_all,
}
use delta_x.Sdk.Conditions.{
  ConditionGroup, flag_negate, flags_or_zero, write_leaf, write_group, encode_conditions,
}
use delta_x.Sdk.Conditions.Grammar.{IsCondition, read_group, explicit, read_all-encode_conditions}

runs : Unit {0}
unfolding big_endian addr write_each count packed take_bytes big_int int read_calldata repeat
    read_all flags_or_zero write_leaf write_group encode_conditions
runs = tt

abbrev hex_writer : ℕ → ℕ → Result Bytes
hex_writer value size =
    if leb (256 ^ size) value then err out_of_range else ok (big_endian size value)

abbrev groups : List ConditionGroup
groups =
    (record { target = 11; calldata = 1 ∷ 2 ∷ []; flags = none }
      ∷ record { target = 12; calldata = []; flags = some flag_negate }
      ∷ [])
    ∷ (record { target = 13; calldata = 9 ∷ []; flags = some 0 } ∷ [])
    ∷ []

abbrev bytes_or_none : Result Bytes → Bytes
bytes_or_none (ok w) = w
bytes_or_none (err thrown) = []

abbrev encoded : Bytes
unfolding runs
encoded = bytes_or_none (encode_conditions hex_writer groups)

refuses_empty : encode_conditions hex_writer ([] ∷ groups) ≡ err empty_condition
unfolding runs
refuses_empty = refl

refuses_flags :
    encode_conditions hex_writer ((record { target = 11; calldata = []; flags = some 4 } ∷ []) ∷ [])
    ≡ err unknown_flags
unfolding runs
refuses_flags = refl

read_all-encode_conditions_example :
    IsCondition groups × (read_all read_group encoded ≡ ok (map (map explicit) groups))
unfolding runs
read_all-encode_conditions_example =
    read_all-encode_conditions hex_writer (λ value size. refl) groups encoded refl
