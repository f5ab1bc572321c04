-- ===== src/Nested/Template.antt =====
-- Instructions of fields, groups and sequences (src/mfast/instructions/group_instruction.h and
-- sequence_instruction.h), and the values that they describe.
use m_fast.Common.{ℕ, ◌+◌, Option, List}
use m_fast.Wire.IntType.{uint32}
use m_fast.Field.Storage.{Slot}
use m_fast.Message.Template.{FieldInstruction, pmap_size}

-- A sequence has the instruction of its length and the instructions of an element.
mutual
  pub data Item : Type 0 where
    leaf : FieldInstruction → Item
    group optional_group : Items → Item
    sequence optional_sequence : FieldInstruction → Items → Item

  pub data Items : Type 0 where
    no_items : Items
    item : Item → Items → Items

-- The storage of an instruction's field, as far as it is present: an absent group or sequence is `none`.
unfoldable mutual
  pub Value : Item → Type 0
  Value (leaf i) = Slot ℕ
  Value (group is) = Values is
  Value (optional_group is) = Option (Values is)
  Value (sequence i is) = List (Values is)
  Value (optional_sequence i is) = Option (List (Values is))

  pub Values : Items → Type 0
  Values no_items = Unit {0}
  Values (item i is) = Value i × Values is

-- The length of a sequence is a uint32.
abbrev pub length_instruction : FieldInstruction → FieldInstruction
length_instruction i = record i { type = uint32 }

-- `pmap_size()`
unfoldable pub item_pmap_size : Item → ℕ
item_pmap_size (leaf i) = pmap_size i.instruction
item_pmap_size (group is) = 0
item_pmap_size (optional_group is) = 1
item_pmap_size (sequence i is) = pmap_size i.instruction
item_pmap_size (optional_sequence i is) = pmap_size i.instruction

-- `segment_pmap_size_` as `set_subinstructions` counts it
unfoldable pub items_pmap_size : Items → ℕ
items_pmap_size no_items = 0
items_pmap_size (item i is) = item_pmap_size i + items_pmap_size is
