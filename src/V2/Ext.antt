-- ===== src/V2/Ext.antt =====
-- `ext_ref_properties` (src/mfast/ext_ref.h): what the compiler knows of a field, from its operator and
-- the number `properties()` of src/mfast/instructions/field_instruction.h.
use Prim.Native.Nat.{bit_and, bit_or}
use m_fast.Common.{
  ℕ, ◌≡◌, refl, Bool, true, false, not, ◌&&◌, ◌||◌, ◌==◌, ltb, if◌then◌else◌, arith,
}
use m_fast.Field.Storage.{
  Operator, operator_none, operator_constant, operator_delta, operator_default, operator_copy,
  operator_increment, operator_tail, Slot, Instruction, is_nullable, is_constant,
}

-- A field of a generated message: its instruction, and `previous_value_shared_`.
pub record Ext (C : Type 0) : Type 0 where
  pub instruction : Instruction C
  pub shared : Bool

abbrev pub operator_id : Operator → ℕ
operator_id operator_none = 0
operator_id operator_constant = 1
operator_id operator_delta = 2
operator_id operator_default = 3
operator_id operator_copy = 4
operator_id operator_increment = 5
operator_id operator_tail = 6

abbrev pub property_bits : Bool → Bool → Bool → ℕ
property_bits optional has_initial_value shared =
    bit_or (bit_or (if optional then 1 else 0) (if has_initial_value then 2 else 0))
      (if shared then 4 else 0)

optional_bit : (o i s : Bool) → ltb 0 (bit_and (property_bits o i s) 1) ≡ o
optional_bit true true true = refl
optional_bit true true false = refl
optional_bit true false true = refl
optional_bit true false false = refl
optional_bit false true true = refl
optional_bit false true false = refl
optional_bit false false true = refl
optional_bit false false false = refl

nullable_of :
    (op : Operator) (o o' : Bool)
    → o ≡ o'
    → (not (operator_id op == 1) && o) ≡ (o' && not (is_constant op))
nullable_of operator_none o o' e = ground arith
nullable_of operator_constant o o' e = ground arith
nullable_of operator_delta o o' e = ground arith
nullable_of operator_default o o' e = ground arith
nullable_of operator_copy o o' e = ground arith
nullable_of operator_increment o o' e = ground arith
nullable_of operator_tail o o' e = ground arith

module _ {C : Type 0} where
  -- `field_instruction::properties`
  abbrev pub properties : Ext C → ℕ
  properties e = property_bits e.instruction.optional e.instruction.initial.present e.shared

  -- `is_optional_type`
  abbrev pub is_optional : Ext C → Bool
  is_optional e = ltb 0 (bit_and (properties e) 1)

  -- `is_nullable_type`
  abbrev pub nullable : Ext C → Bool
  nullable e = not (operator_id e.instruction.operator == 1) && is_optional e

  -- `mandatory_without_initial_value_type`, which tests a bit of the operator
  abbrev pub ext_mandatory_without_initial_value : Ext C → Bool
  ext_mandatory_without_initial_value e =
      ltb 0 (bit_and (operator_id e.instruction.operator) 2) && not (is_optional e)

  -- `has_pmap_type`
  abbrev pub has_pmap : Ext C → Bool
  has_pmap e =
      ltb 2 (operator_id e.instruction.operator)
      || ((operator_id e.instruction.operator == 1) && is_optional e)

  -- `previous_value_shared_type`, which tests whether no other property is there
  abbrev pub previous_value_shared : Ext C → Bool
  previous_value_shared e = properties e == 4

  -- `present` of an `ext_cref`
  abbrev pub ext_present : Ext C → Slot C → Bool
  ext_present e s = not (is_optional e) || s.present

  pub is_optional_lem : (e : Ext C) → is_optional e ≡ e.instruction.optional
  is_optional_lem e = optional_bit e.instruction.optional e.instruction.initial.present e.shared

  pub nullable_lem : (e : Ext C) → nullable e ≡ is_nullable e.instruction
  nullable_lem e =
      nullable_of e.instruction.operator (is_optional e) e.instruction.optional (is_optional_lem e)
