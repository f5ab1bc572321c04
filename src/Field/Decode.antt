-- ===== src/Field/Decode.antt =====
-- The operators of src/mfast/coder/decoder/decoder_field_operator.cpp that serve every kind of field,
-- and the base values of src/mfast/coder/common/codec_helper.h.
use m_fast.Common.{ℕ, not, Option, none, some, List, if◌then◌else◌}
use m_fast.Wire.Outcome.{Error, d5, d6, Result, ok, err, Reader, ◌>>=◌, return}
use m_fast.Field.Storage.{
  Slot, Instruction, FieldKind, BitSource, absent, omit, assign, is_nullable,
  mandatory_without_initial_value,
}

-- How `decode` of an operator ends: with the previous value, the field, the presence map and the rest
-- of the stream, or with an exception and the previous value that the dictionary then holds.
pub data Step (C M : Type 0) : Type 0 where
  done : Slot C → Slot C → M → List ℕ → Step C M
  thrown : Error → Slot C → Step C M

-- Goes on with what was read from the stream. An exception there leaves the previous value.
abbrev pub on_read {ℓ} :
    {A : Type ℓ} {C M : Type 0} → Slot C → Result A → (A → List ℕ → Step C M) → Step C M
on_read prev (ok a rest) go = go a rest
on_read prev (err e) go = thrown e prev

-- `delta_base_value_of`; `none` is the exception D6. `default_content` is what `default_value_` holds.
unfoldable pub delta_base_value_of : {C : Type 0} → C → Instruction C → Slot C → Option C
delta_base_value_of default_content inst prev =
    if not prev.defined
    then some (if inst.initial.present then inst.initial.content else default_content)
    else (if not prev.present then none else some prev.content)

module _ (k : FieldKind) (src : BitSource) where
  open k use {Content, extract, to_initial_value, save_to}
  open src use {Map, is_next_bit_set}

  -- `stream >> mref`
  abbrev pub extract_into : Instruction Content → Slot Content → Reader (Slot Content)
  extract_into inst field = do
    r ← extract (is_nullable inst)
    return (elim r [ none ↦ omit inst field | some v ↦ assign v field ])

  -- `stream >> mref; save_previous_value(mref)`
  abbrev pub read_and_save :
      Instruction Content → Slot Content → Slot Content → Map → List ℕ → Step Content Map
  read_and_save inst prev field m s =
      on_read prev (extract_into inst field s) λ f rest. done (save_to inst f prev) f m rest

  -- `no_operator::decode_impl`
  unfoldable pub decode_none :
      Instruction Content → Slot Content → Slot Content → Map → List ℕ → Step Content Map
  decode_none inst prev field m s = read_and_save inst prev field m s

  -- `constant_operator::decode_impl`
  unfoldable pub decode_constant :
      Instruction Content → Slot Content → Slot Content → Map → List ℕ → Step Content Map
  decode_constant inst prev field m s =
      let (bit, m') = is_next_bit_set m in
      if not inst.optional
      then (let f = to_initial_value inst field in done (save_to inst f prev) f m s)
      else (if bit
          then (let f = to_initial_value inst field in done (save_to inst f prev) f m' s)
          else (let f = omit inst field in done (save_to inst f prev) f m' s))

  -- `copy_or_increment_operator_impl::decode_impl` where the bit is not set: `operation` is what
  -- `Operation()` does to the previous value.
  unfoldable pub decode_previous :
      (Content → Content)
      → Instruction Content
      → Slot Content
      → Slot Content
      → Map
      → List ℕ
      → Step Content Map
  decode_previous operation inst prev field m s =
      if not prev.defined
      then (let f = to_initial_value inst field in
          if mandatory_without_initial_value inst
          then thrown d5 (save_to inst f prev)
          else done (save_to inst f prev) f m s)
      else (if not prev.present
          then (if not inst.optional then thrown d6 prev else done prev (omit inst field) m s)
          else (let v = operation prev.content in
              done (record prev { content = v }) (assign v field) m s))

  -- `copy_or_increment_operator_impl::decode_impl`
  unfoldable pub decode_copy :
      (Content → Content)
      → Instruction Content
      → Slot Content
      → Slot Content
      → Map
      → List ℕ
      → Step Content Map
  decode_copy operation inst prev field m s =
      let (bit, m') = is_next_bit_set m in
      if bit
      then read_and_save inst prev field m' s
      else decode_previous operation inst prev field m' s

  -- `default_operator::decode_impl`
  unfoldable pub decode_default :
      Instruction Content → Slot Content → Slot Content → Map → List ℕ → Step Content Map
  decode_default inst prev field m s =
      let (bit, m') = is_next_bit_set m in
      if bit
      then (on_read prev (extract_into inst field s) λ f rest.
          if absent inst f then done prev f m' rest else done (save_to inst f prev) f m' rest)
      else (let f = to_initial_value inst field in done (save_to inst f prev) f m' s)
