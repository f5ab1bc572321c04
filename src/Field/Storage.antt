-- ===== src/Field/Storage.antt =====
-- What a field operator sees of a field: `value_storage` (src/mfast/value_storage.h), the flags of
-- `field_instruction` (src/mfast/instructions/field_instruction.h), and the reference types
-- (src/mfast/field_ref.h, int_ref.h, vector_ref.h).
use m_fast.Common.{ℕ, ◌≡◌, Bool, true, false, not, ◌&&◌, Option, List, [], ◌∷◌, if◌then◌else◌}
use m_fast.Wire.Outcome.{Reader}

-- `operator_enum_t`
pub data Operator : Type 0 where
  operator_none operator_constant operator_delta operator_default : Operator
  operator_copy operator_increment operator_tail : Operator

-- A `value_storage`: `defined_bit_`, whether `present_` (which `len_` overlays) is not 0, and what
-- `get<T>()` or the characters up to `array_length()` give. A content that is not present is stale.
pub record Slot (C : Type 0) : Type 0 where
  pub defined : Bool
  pub present : Bool
  pub content : C

-- `field_instruction` with the `initial_value_` of its subclasses. The previous value, to which
-- `prev_value_` points, is handed over beside it.
pub record Instruction (C : Type 0) : Type 0 where
  pub operator : Operator
  pub optional : Bool
  pub initial : Slot C

abbrev pub is_constant : Operator → Bool
is_constant operator_constant = true
is_constant _ = false

module _ {C : Type 0} where
  -- `is_nullable`, as `update_invariant` keeps it
  abbrev pub is_nullable : Instruction C → Bool
  is_nullable inst = inst.optional && not (is_constant inst.operator)

  -- `has_initial_value_` is `!initial_value_.is_empty()`.
  abbrev pub mandatory_without_initial_value : Instruction C → Bool
  mandatory_without_initial_value inst = not inst.optional && not inst.initial.present

  -- `field_cref::absent`
  abbrev pub absent : Instruction C → Slot C → Bool
  absent inst s = inst.optional && not s.present

  -- `make_field_mref_base::omit`
  abbrev pub omit : Instruction C → Slot C → Slot C
  omit inst s = if inst.optional then record s { present = false } else s

  -- `as(v)` of a number, `assign` of a string
  abbrev pub assign : C → Slot C → Slot C
  assign v s = record s { present = true; content = v }

  -- `mref.as(cref)`
  abbrev pub as_field : Instruction C → Slot C → Slot C → Slot C
  as_field inst cref s = if absent inst cref then omit inst s else assign cref.content s

  -- `fast_ostream::save_previous_value`
  abbrev pub save_previous_value : Instruction C → Slot C → Slot C → Slot C
  save_previous_value inst cref prev = record (as_field inst cref prev) { defined = true }

-- How the members of the reference type differ between numbers and strings.
pub record FieldKind : Type 1 where
  pub Content : Type 0
  -- `stream << cref`: absence, value, and whether the field is nullable
  pub insert : Bool → Content → Bool → List ℕ
  -- the `stream.decode` in `stream >> mref`
  pub extract : Bool → Reader (Option Content)
  -- `cref.is_initial_value()`
  pub is_initial_value : Instruction Content → Slot Content → Bool
  -- `is_same()(cref, prev)` of the copy and tail operators
  pub is_same : Instruction Content → Slot Content → Slot Content → Bool
  -- `mref.to_initial_value()`
  pub to_initial_value : Instruction Content → Slot Content → Slot Content
  -- `mref.save_to(prev)`
  pub save_to : Instruction Content → Slot Content → Slot Content → Slot Content
  -- what `default_value_` holds
  pub default_content : Content

-- The presence map as the decoder's operators use it: `is_next_bit_set` and the map after it.
pub record BitSource : Type 1 where
  pub Map : Type 0
  pub is_next_bit_set : Map → Bool × Map

-- Reading the bits `bs` from `m` in order leaves `m'`.
abbrev pub Yields : (src : BitSource) → src.Map → List Bool → src.Map → Type 0
Yields src m [] m' = m ≡ m'
Yields src m (b ∷ bs) m' =
    ((src.is_next_bit_set m).0 ≡ b) × Yields src (src.is_next_bit_set m).1 bs m'
