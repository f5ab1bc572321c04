-- ===== src/Text/Operators.antt =====
-- The delta and tail operators at strings and byte vectors:
-- src/mfast/coder/encoder/encoder_field_operator.cpp, src/mfast/coder/decoder/decoder_field_operator.cpp
-- and `tail_base_value_of` of src/mfast/coder/common/codec_helper.h.
use m_fast.Common.{ℕ, true, false, Option, none, some, List, [], ◌++◌, ltb, if◌then◌else◌, length}
use m_fast.Wire.Outcome.{d6, d7, fault}
use m_fast.Wire.IntType.{int32}
use m_fast.Wire.Istream.{decode_int}
use m_fast.Wire.Ostream.{encode_int, encode_null}
use m_fast.Field.Storage.{Slot, Instruction, absent, omit, assign, is_nullable, save_previous_value}
use m_fast.Field.Decode.{Step, done, thrown, on_read, delta_base_value_of}
use m_fast.Field.Encode.{Sent, sent, refused}
use m_fast.Text.Delta.{
  TextType, encode_text, decode_text, string_delta, Applied, applied, rejected, subtracted,
  apply_string_delta, Memory,
}

-- `vector_cref_base::save_to`: the characters, which stay those of the field. That they stand in the
-- field's block is `shared` of the `Memory` with which the next value is decoded.
unfoldable pub text_save_to : Slot (List ℕ) → Slot (List ℕ)
text_save_to field = record { defined = true; present = field.present; content = field.content }

-- `delta_operator::encode_string`
unfoldable pub encode_text_delta :
    TextType → Instruction (List ℕ) → Slot (List ℕ) → Slot (List ℕ) → Sent (List ℕ)
encode_text_delta ty inst prev cref =
    if absent inst cref then sent prev [] encode_null else elim (delta_base_value_of [] inst prev) [
      | none ↦ refused d6
      | some base ↦ elim (string_delta cref.content base) [
        | none ↦ refused fault
        | some (sub, delta) ↦
            sent (save_previous_value inst cref prev) []
              (encode_int int32 sub false (is_nullable inst) ++ encode_text ty delta false)
      ]
    ]

-- What a pointer and a length that `decode` leaves null stand for.
abbrev pub text_or_empty : Option (List ℕ) → List ℕ
text_or_empty none = []
text_or_empty (some str) = str

-- `mref` after `apply_string_delta`, and what the operator does with it, or the exception
abbrev pub on_applied :
    {M : Type 0} → Slot (List ℕ) → Applied → (List ℕ → Step (List ℕ) M) → Step (List ℕ) M
on_applied prev (applied str) go = go str
on_applied prev (rejected e) go = thrown e prev

module _ {M : Type 0} (ty : TextType) (mem : Memory) where
  -- `delta_operator::decode_string`
  unfoldable pub decode_text_delta :
      Instruction (List ℕ) → Slot (List ℕ) → Slot (List ℕ) → M → List ℕ → Step (List ℕ) M
  decode_text_delta inst prev field m s =
      on_read prev (decode_int int32 (is_nullable inst) s) λ o rest. elim o [
        | none ↦ done prev (omit inst field) m rest
        | some sub ↦ elim (delta_base_value_of [] inst prev) [
          | none ↦ thrown d6 prev
          | some base ↦
              if ltb (length base) (subtracted sub)
              then thrown d7 prev
              else (on_read prev (decode_text ty false rest) λ delta end.
                  on_applied prev (apply_string_delta ty mem base sub (text_or_empty delta))
                    λ str. let f = assign str field in done (text_save_to f) f m end)
        ]
      ]
