-- ===== src/Sdk/Conditions.antt =====
-- packages/sdk/src/conditions.ts: a condition in disjunctive normal form as the calldata of the
-- validator that evaluates it. `numberToHex` of viem is a parameter, as in the packed order.
pub mod Grammar
mod Tests
use delta_x.Prelude.{
  ℕ, ◌/◌, Option, none, some, Bool, not, List, [], ◌∷◌, ◌++◌, length, Result, ok, throw_if, ◌>>=◌,
  ◌>>◌, ◌==◌, empty_condition, unknown_flags,
}
use delta_x.Sdk.Order.{Address, Validator}
use delta_x.Sdk.Packed.{Bytes, is_empty, addr, packed}

abbrev pub flag_negate : ℕ
flag_negate = 1

abbrev pub flag_try : ℕ
flag_try = 2

pub record ConditionLeaf : Type 0 where
  pub target : Address
  pub calldata : Bytes
  pub flags : Option ℕ

abbrev pub ConditionGroup : Type 0
ConditionGroup = List ConditionLeaf

-- `leaf.flags ?? 0`
unfoldable pub flags_or_zero : Option ℕ → ℕ
flags_or_zero none = 0
flags_or_zero (some flags) = flags

module _ (number_to_hex : ℕ → ℕ → Result Bytes) where
  -- The two flags are bits 0 and 1, so `flags & ~3` is zero where `flags / 4` is.
  unfoldable pub write_leaf : ConditionLeaf → Result Bytes
  write_leaf leaf = do
    throw_if (not (flags_or_zero leaf.flags / 4 == 0)) unknown_flags
    target ← addr leaf.target
    flags ← number_to_hex (flags_or_zero leaf.flags) 1
    len ← number_to_hex (length leaf.calldata) 2
    ok (flags ++ (target ++ (len ++ leaf.calldata)))

  unfoldable pub write_group : ConditionGroup → Result Bytes
  write_group group = do
    throw_if (is_empty group) empty_condition
    packed number_to_hex write_leaf group

  unfoldable pub encode_conditions : List ConditionGroup → Result Bytes
  encode_conditions groups = do
    throw_if (is_empty groups) empty_condition
    packed number_to_hex write_group groups

  unfoldable pub condition_validator : Address → List ConditionGroup → Result Validator
  condition_validator tree groups = do
    calldata ← encode_conditions groups
    ok (record { target = tree; calldata = calldata })
