-- ===== src/Field/Encode.antt =====
-- The operators of src/mfast/coder/encoder/encoder_field_operator.cpp that serve every kind of field.
use m_fast.Common.{ℕ, Bool, true, false, not, List, [], ◌∷◌, if◌then◌else◌}
use m_fast.Wire.Outcome.{Error, d6}
use m_fast.Wire.Ostream.{encode_null}
use m_fast.Field.Storage.{Slot, Instruction, FieldKind, absent, is_nullable, save_previous_value}

-- How `encode` of an operator ends: with the previous value, the calls of `set_next_bit` in order and
-- the bytes put on the stream; or with an exception, before anything is written or saved.
pub data Sent (C : Type 0) : Type 0 where
  sent : Slot C → List Bool → List ℕ → Sent C
  refused : Error → Sent C

module _ (k : FieldKind) where
  open k use {Content, insert, is_initial_value}

  -- `stream << cref`
  abbrev pub insert_field : Instruction Content → Slot Content → List ℕ
  insert_field inst cref = insert (absent inst cref) cref.content (is_nullable inst)

  -- `no_operator::encode_impl`
  unfoldable pub encode_none : Instruction Content → Slot Content → Slot Content → Sent Content
  encode_none inst prev cref =
      sent (save_previous_value inst cref prev) []
        (if absent inst cref then encode_null else insert_field inst cref)

  -- `constant_operator::encode_impl`
  unfoldable pub encode_constant : Instruction Content → Slot Content → Slot Content → Sent Content
  encode_constant inst prev cref =
      sent (save_previous_value inst cref prev)
        (if inst.optional then not (absent inst cref) ∷ [] else []) []

  -- `save_previous_value(cref); set_next_bit(false)`
  abbrev pub save_and_skip : Instruction Content → Slot Content → Slot Content → Sent Content
  save_and_skip inst prev cref = sent (save_previous_value inst cref prev) (false ∷ []) []

  -- `save_previous_value(cref); set_next_bit(true); stream << cref`
  abbrev pub save_and_write : Instruction Content → Slot Content → Slot Content → Sent Content
  save_and_write inst prev cref =
      sent (save_previous_value inst cref prev) (true ∷ []) (insert_field inst cref)

  -- `copy_or_increment_operator_impl::encode_impl`; `operation cref prev` is `Operation()(cref, prev)`.
  unfoldable pub encode_copy :
      (Instruction Content → Slot Content → Slot Content → Bool)
      → Instruction Content
      → Slot Content
      → Slot Content
      → Sent Content
  encode_copy operation inst prev cref =
      if not prev.defined
      then (if is_initial_value inst cref
          then save_and_skip inst prev cref
          else save_and_write inst prev cref)
      else (if not prev.present
          then (if absent inst cref
              then save_and_skip inst prev cref
              else (if not inst.optional then refused d6 else save_and_write inst prev cref))
          else (if operation inst cref prev
              then save_and_skip inst prev cref
              else save_and_write inst prev cref))

  -- `default_operator::encode_impl`
  unfoldable pub encode_default : Instruction Content → Slot Content → Slot Content → Sent Content
  encode_default inst prev cref =
      if is_initial_value inst cref
      then save_and_skip inst prev cref
      else (if absent inst cref
          then sent prev (true ∷ []) encode_null
          else save_and_write inst prev cref)
