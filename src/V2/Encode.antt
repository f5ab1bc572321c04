-- ===== src/V2/Encode.antt =====
-- `fast_encoder_core::encode_field` (src/mfast/coder/encoder_v2/fast_encoder_core.h) for the operators at
-- integer fields.
use m_fast.Common.{ℕ, Bool, true, false, not, ◌&&◌, none, some, List, [], ◌∷◌, if◌then◌else◌}
use m_fast.Wire.Outcome.{Error, d6}
use m_fast.Wire.IntType.{IntType, int64}
use m_fast.Wire.Ostream.{encode_int, encode_null}
use m_fast.Field.Storage.{
  Slot, Instruction, FieldKind, absent, save_previous_value, Operator, operator_none,
  operator_constant, operator_delta, operator_default, operator_copy, operator_increment,
  operator_tail,
}
use m_fast.Field.Decode.{delta_base_value_of}
use m_fast.Field.Ints.{int_kind, int_is_same, is_increment, int_delta}
use m_fast.V2.Ext.{Ext, is_optional, nullable, previous_value_shared, ext_present}

-- How `encode_field` ends: with the previous value, the calls of `set_next_bit` and the bytes; or with an
-- exception and the previous value that the dictionary then holds.
pub data ExtSent (C : Type 0) : Type 0 where
  ext_sent : Slot C → List Bool → List ℕ → ExtSent C
  ext_refused : Error → Slot C → ExtSent C

module _ (k : FieldKind) (e : Ext k.Content) (prev cref : Slot k.Content) where
  open k use {Content, insert, is_initial_value}

  -- `strm_ << ext_ref` (src/mfast/coder/encoder_v2/fast_ostream_inserter.h)
  abbrev pub ext_insert : List ℕ
  ext_insert = insert (absent e.instruction cref) cref.content (nullable e)

  abbrev pub ext_saved : Slot Content
  ext_saved = save_previous_value e.instruction cref prev

  -- `if (ext_ref.previous_value_shared()) strm_.save_previous_value(cref)`
  abbrev pub ext_saved_if_shared : Slot Content
  ext_saved_if_shared = if previous_value_shared e then ext_saved else prev

  -- `encode_field` with `none_operator_tag`
  unfoldable pub ext_encode_none : ExtSent Content
  ext_encode_none = ext_sent ext_saved_if_shared [] ext_insert

  -- `encode_field` with `constant_operator_tag`
  unfoldable pub ext_encode_constant : ExtSent Content
  ext_encode_constant =
      ext_sent ext_saved_if_shared
        (if is_optional e then not (absent e.instruction cref) ∷ [] else []) []

  -- The tests of `copy_operator_tag` and `increment_operator_tag`, with what the dictionary holds at D6.
  unfoldable pub ext_encode_unless :
      Slot Content → (Instruction Content → Slot Content → Slot Content → Bool) → ExtSent Content
  ext_encode_unless at_d6 operation =
      let skip = ext_sent ext_saved (false ∷ []) [] in
      let write = ext_sent ext_saved (true ∷ []) ext_insert in
      if not prev.defined
      then (if is_initial_value e.instruction cref then skip else write)
      else (if not prev.present
          then (if not (ext_present e cref)
              then skip
              else (if not (is_optional e) then ext_refused d6 at_d6 else write))
          else (if operation e.instruction cref prev then skip else write))

  -- `encode_field` with `copy_operator_tag` and any type, where `operation` is `equivalent`: the tag of an
  -- integer is matched exactly there, and only by conversion at `number_type_tag`. The value is saved
  -- at each end but D6.
  abbrev pub ext_encode_copy :
      (Instruction Content → Slot Content → Slot Content → Bool) → ExtSent Content
  ext_encode_copy operation = ext_encode_unless prev operation

  -- `encode_field` with `default_operator_tag`
  unfoldable pub ext_encode_default : ExtSent Content
  ext_encode_default =
      if is_initial_value e.instruction cref
      then ext_sent ext_saved_if_shared (false ∷ []) []
      else (if is_optional e && not (ext_present e cref)
          then ext_sent prev (false ∷ []) []
          else (if not (ext_present e cref)
              then ext_sent prev (true ∷ []) encode_null
              else ext_sent ext_saved_if_shared (true ∷ []) ext_insert))

-- `encode_field` with `increment_operator_tag`. The value is saved before the tests, so also at D6.
abbrev pub ext_encode_increment : IntType → Ext ℕ → Slot ℕ → Slot ℕ → ExtSent ℕ
ext_encode_increment ty e prev cref =
    ext_encode_unless (int_kind ty) e prev cref (ext_saved (int_kind ty) e prev cref)
      (is_increment ty)

-- `encode_field` with `delta_operator_tag` and `integer_type_tag`
unfoldable pub ext_encode_delta : IntType → Ext ℕ → Slot ℕ → Slot ℕ → ExtSent ℕ
ext_encode_delta ty e prev cref =
    if not (ext_present e cref)
    then ext_sent prev [] encode_null
    else elim (delta_base_value_of 0 e.instruction prev) [
      | none ↦ ext_refused d6 prev
      | some base ↦
          ext_sent (save_previous_value e.instruction cref prev) []
            (encode_int int64 (int_delta ty cref.content base) false (nullable e))
    ]

-- `encode_field` of an integer, by `operator_category`. There is none for the tail operator.
unfoldable pub ext_encode_by : IntType → Operator → Ext ℕ → Slot ℕ → Slot ℕ → ExtSent ℕ
ext_encode_by ty operator_none e prev cref = ext_encode_none (int_kind ty) e prev cref
ext_encode_by ty operator_constant e prev cref = ext_encode_constant (int_kind ty) e prev cref
ext_encode_by ty operator_delta e prev cref = ext_encode_delta ty e prev cref
ext_encode_by ty operator_default e prev cref = ext_encode_default (int_kind ty) e prev cref
ext_encode_by ty operator_copy e prev cref = ext_encode_copy (int_kind ty) e prev cref int_is_same
ext_encode_by ty operator_increment e prev cref = ext_encode_increment ty e prev cref
ext_encode_by ty operator_tail e prev cref = ext_sent prev [] []
