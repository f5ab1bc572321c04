-- ===== src/Message/Template.antt =====
-- Templates and the dictionary of previous values: src/mfast/instructions,
-- src/mfast/coder/common/template_repo.h and dictionary_builder.cpp.
use m_fast.Common.{
  ℕ, ◌+◌, Bool, false, ◌&&◌, ◌||◌, Option, none, some, List, [], ◌∷◌, ◌==◌, ltb, if◌then◌else◌,
}
use m_fast.Wire.IntType.{IntType}
use m_fast.Field.Storage.{Slot, Instruction, is_constant}
use m_fast.V2.Ext.{operator_id}

-- The instruction of an integer field: its type, and the place that `prev_value_` points to. Fields
-- whose keys are equal share it, as `get_dictionary_storage` arranges.
pub record FieldInstruction : Type 0 where
  pub type : IntType
  pub instruction : Instruction ℕ
  pub key : ℕ

-- `template_instruction` of a template without groups and sequences
pub record Template : Type 0 where
  pub id : ℕ
  pub reset : Bool
  pub fields : List FieldInstruction

-- The previous values, by key.
abbrev pub Dictionary : Type 0
Dictionary = ℕ → Slot ℕ

abbrev pub save_at : ℕ → Slot ℕ → Dictionary → Dictionary
save_at key s dict j = if j == key then s else dict j

-- `template_repo`: `templates_map_` and `reset_entries_`
pub record Repository : Type 0 where
  pub templates : List Template
  pub reset_entries : List ℕ

-- `template_repo::find`
unfoldable pub find_template : ℕ → List Template → Option Template
find_template id [] = none
find_template id (t ∷ ts) = if t.id == id then some t else find_template id ts

-- `template_repo_base::reset_dictionary`
unfoldable pub reset_dictionary : List ℕ → Dictionary → Dictionary
reset_dictionary [] dict = dict
reset_dictionary (key ∷ keys) dict =
    reset_dictionary keys (save_at key (record (dict key) { defined = false }) dict)

-- `force_reset || has_reset_attribute()`
abbrev pub begin_dictionary : Repository → Bool → Template → Dictionary → Dictionary
begin_dictionary repo force_reset t dict =
    if force_reset || t.reset then reset_dictionary repo.reset_entries dict else dict

-- `has_pmap_bit_` as `update_invariant` sets it, which `pmap_size()` gives as a number
abbrev pub has_pmap_bit : Instruction ℕ → Bool
has_pmap_bit inst =
    ltb 2 (operator_id inst.operator) || (is_constant inst.operator && inst.optional)

abbrev pub pmap_size : Instruction ℕ → ℕ
pmap_size inst = if has_pmap_bit inst then 1 else 0

-- `segment_pmap_size_` as `set_subinstructions` counts it
unfoldable pub segment_pmap_size : List FieldInstruction → ℕ
segment_pmap_size [] = 0
segment_pmap_size (i ∷ is) = pmap_size i.instruction + segment_pmap_size is
