-- ===== src/V2/Decode.antt =====
-- `fast_decoder_base::decode_field` (src/mfast/coder/decoder_v2/fast_decoder_core.h) for the operators
-- that serve every kind of field, and for the delta of an integer.
use m_fast.Common.{ℕ, not, none, some, List, if◌then◌else◌}
use m_fast.Wire.Outcome.{d5, d6, Reader, ◌>>=◌, return}
use m_fast.Wire.IntType.{IntType, int64}
use m_fast.Wire.Istream.{decode_int}
use m_fast.Field.Storage.{
  Slot, FieldKind, BitSource, omit, assign, Operator, operator_none, operator_constant,
  operator_delta, operator_default, operator_copy, operator_increment, operator_tail,
}
use m_fast.Field.Decode.{Step, done, thrown, on_read, delta_base_value_of}
use m_fast.Field.Ints.{int_kind, int_save_to, next_value, add_delta}
use m_fast.V2.Ext.{
  Ext, is_optional, nullable, ext_mandatory_without_initial_value, previous_value_shared,
  ext_present,
}

module _ (k : FieldKind) (src : BitSource) where
  open k use {Content, extract, to_initial_value, save_to}
  open src use {Map, is_next_bit_set}

  -- `stream >> ext_ref` (src/mfast/coder/decoder/fast_istream_extractor.h)
  abbrev pub ext_extract : Ext Content → Slot Content → Reader (Slot Content)
  ext_extract e field = do
    r ← extract (nullable e)
    return (elim r [ none ↦ omit e.instruction field | some v ↦ assign v field ])

  -- `if (ext_ref.previous_value_shared()) save_previous_value(mref)`
  abbrev pub save_if_shared : Ext Content → Slot Content → Slot Content → Slot Content
  save_if_shared e field prev =
      if previous_value_shared e then save_to e.instruction field prev else prev

  -- `decode_field` with `none_operator_tag`
  unfoldable pub ext_decode_none :
      Ext Content → Slot Content → Slot Content → Map → List ℕ → Step Content Map
  ext_decode_none e prev field m s =
      on_read prev (ext_extract e field s) λ f rest. done (save_if_shared e f prev) f m rest

  -- `decode_field` with `constant_operator_tag`
  unfoldable pub ext_decode_constant :
      Ext Content → Slot Content → Slot Content → Map → List ℕ → Step Content Map
  ext_decode_constant e prev field m s =
      let (bit, m') = is_next_bit_set m in
      let f = to_initial_value e.instruction field in
      let g = omit e.instruction field in
      if is_optional e
      then (if bit
          then done (save_if_shared e f prev) f m' s
          else done (save_if_shared e g prev) g m' s)
      else done (save_if_shared e f prev) f m s

  -- The branch of `copy_operator_tag` and `increment_operator_tag` in which the bit is not set.
  unfoldable pub ext_decode_previous :
      (Content → Content)
      → Ext Content
      → Slot Content
      → Slot Content
      → Map
      → List ℕ
      → Step Content Map
  ext_decode_previous operation e prev field m s =
      if not prev.defined
      then (let f = to_initial_value e.instruction field in
          if ext_mandatory_without_initial_value e
          then thrown d5 (save_to e.instruction f prev)
          else done (save_to e.instruction f prev) f m s)
      else (if not prev.present
          then (if is_optional e then done prev (omit e.instruction field) m s else thrown d6 prev)
          else (let v = operation prev.content in
              done (record prev { content = v }) (assign v field) m s))

  -- `decode_field` with `copy_operator_tag` and with `increment_operator_tag`: two functions that differ
  -- in `operation`.
  unfoldable pub ext_decode_copy :
      (Content → Content)
      → Ext Content
      → Slot Content
      → Slot Content
      → Map
      → List ℕ
      → Step Content Map
  ext_decode_copy operation e prev field m s =
      let (bit, m') = is_next_bit_set m in
      if bit
      then (on_read prev (ext_extract e field s)
          λ f rest. done (save_to e.instruction f prev) f m' rest)
      else ext_decode_previous operation e prev field m' s

  -- `decode_field` with `default_operator_tag`
  unfoldable pub ext_decode_default :
      Ext Content → Slot Content → Slot Content → Map → List ℕ → Step Content Map
  ext_decode_default e prev field m s =
      let (bit, m') = is_next_bit_set m in
      if bit
      then (on_read prev (ext_extract e field s) λ f rest.
          if not (ext_present e f)
          then done prev f m' rest
          else done (save_if_shared e f prev) f m' rest)
      else (let f = to_initial_value e.instruction field in done (save_if_shared e f prev) f m' s)

module _ (ty : IntType) (src : BitSource) where
  open src use {Map}

  -- `decode_field` with `delta_operator_tag` and `integer_type_tag`
  unfoldable pub ext_decode_delta : Ext ℕ → Slot ℕ → Slot ℕ → Map → List ℕ → Step ℕ Map
  ext_decode_delta e prev field m s = on_read prev (decode_int int64 (nullable e) s) λ d rest.
      elim d [
        | none ↦ done prev (omit e.instruction field) m rest
        | some d ↦ elim (delta_base_value_of 0 e.instruction prev) [
          | none ↦ thrown d6 prev
          | some base ↦
              let f = assign (add_delta ty base d) field in
              done (int_save_to e.instruction f prev) f m rest
        ]
      ]

  -- `decode_field` of an integer, by `operator_category`. There is none for the tail operator: such a
  -- program is not compiled.
  unfoldable pub ext_decode_by : Operator → Ext ℕ → Slot ℕ → Slot ℕ → Map → List ℕ → Step ℕ Map
  ext_decode_by operator_none e prev field m s = ext_decode_none (int_kind ty) src e prev field m s
  ext_decode_by operator_constant e prev field m s =
      ext_decode_constant (int_kind ty) src e prev field m s
  ext_decode_by operator_delta e prev field m s = ext_decode_delta e prev field m s
  ext_decode_by operator_default e prev field m s =
      ext_decode_default (int_kind ty) src e prev field m s
  ext_decode_by operator_copy e prev field m s =
      ext_decode_copy (int_kind ty) src (λ v. v) e prev field m s
  ext_decode_by operator_increment e prev field m s =
      ext_decode_copy (int_kind ty) src (next_value ty) e prev field m s
  ext_decode_by operator_tail e prev field m s = done prev field m s
