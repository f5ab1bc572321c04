-- ===== src/Text/Tail.antt =====
-- The tail operator at strings and byte vectors:
-- src/mfast/coder/encoder/encoder_field_operator.cpp, src/mfast/coder/decoder/decoder_field_operator.cpp
-- and `tail_base_value_of` of src/mfast/coder/common/codec_helper.h.
use m_fast.Common.{
  ℕ, Bool, true, false, not, ◌&&◌, ◌||◌, none, some, List, [], ◌∷◌, ◌==◌, leb, if◌then◌else◌,
  length, drop,
}
use m_fast.Wire.Outcome.{d6, d7}
use m_fast.Wire.Ostream.{encode_null}
use m_fast.Field.Storage.{
  Slot, Instruction, BitSource, absent, omit, assign, is_nullable, save_previous_value,
  mandatory_without_initial_value,
}
use m_fast.Field.Decode.{Step, done, thrown, on_read}
use m_fast.Field.Encode.{Sent, sent}
use m_fast.Text.Delta.{TextType, encode_text, decode_text, mismatch, join_delta}
use m_fast.Text.Operators.{text_save_to, on_applied}

-- `initial_or_default_value` of a string instruction; the default value is the empty string.
abbrev pub initial_or_default : Instruction (List ℕ) → List ℕ
initial_or_default inst = if inst.initial.present then inst.initial.content else []

-- `tail_base_value_of`
unfoldable pub tail_base_value_of : Instruction (List ℕ) → Slot (List ℕ) → List ℕ
tail_base_value_of inst prev =
    if not prev.defined || not prev.present then initial_or_default inst else prev.content

-- The characters up to `size()`, which is 0 where the field is not present.
abbrev pub text_of : Slot (List ℕ) → List ℕ
text_of cref = if cref.present then cref.content else []

-- `is_same` at a `vector_cref` and a base value that is present
unfoldable pub same_text : List ℕ → List ℕ → Bool
same_text [] [] = true
same_text (c ∷ cs) (p ∷ ps) = c == p && same_text cs ps
same_text _ _ = false

-- `tail_itr` and `tail_len`: what differs, where the sizes are equal, and else the whole text.
unfoldable pub tail_of : List ℕ → List ℕ → List ℕ
tail_of str base =
    if length str == length base
    then elim (mismatch str base) [ none ↦ str | some k ↦ drop k str ]
    else str

-- `tail_operator::encode_impl`
unfoldable pub encode_text_tail :
    TextType → Instruction (List ℕ) → Slot (List ℕ) → Slot (List ℕ) → Sent (List ℕ)
encode_text_tail ty inst prev cref =
    if same_text (text_of cref) (tail_base_value_of inst prev)
    then sent (save_previous_value inst cref prev) (false ∷ []) []
    else (if absent inst cref
        then (if prev.defined && not prev.present
            then sent (save_previous_value inst cref prev) (false ∷ []) []
            else sent (save_previous_value inst cref prev) (true ∷ []) encode_null)
        else sent (save_previous_value inst cref prev) (true ∷ []) (
            encode_text ty (tail_of cref.content (tail_base_value_of inst prev))
              (is_nullable inst)))

-- `vector_mref_base::to_initial_value`
unfoldable pub text_to_initial_value : Instruction (List ℕ) → Slot (List ℕ) → Slot (List ℕ)
text_to_initial_value inst field =
    if not inst.initial.present then omit inst field else assign inst.initial.content field

-- `std::min<int>`
abbrev pub min : ℕ → ℕ → ℕ
min a b = if leb a b then a else b

module _ (ty : TextType) (src : BitSource) where
  open src use {Map, is_next_bit_set}

  abbrev pub saved_step : Slot (List ℕ) → Map → List ℕ → Step (List ℕ) Map
  saved_step f m s = done (text_save_to f) f m s

  -- `tail_operator::decode_impl` where the bit is set. Of `apply_string_delta` only the text is modelled:
  -- where a character of the base value is kept, the text is as long as the base value, so that a field
  -- whose block holds the base value does not outgrow it.
  unfoldable pub decode_tail_value :
      Instruction (List ℕ) → Slot (List ℕ) → Slot (List ℕ) → Map → List ℕ → Step (List ℕ) Map
  decode_tail_value inst prev field m s =
      let base = tail_base_value_of inst prev in
      on_read prev (decode_text ty (is_nullable inst) s) λ o rest. elim o [
        | none ↦ saved_step (omit inst field) m rest
        | some str ↦
            on_applied prev (join_delta ty base (min (length str) (length base)) str)
              λ str'. saved_step (assign str' field) m rest
      ]

  -- `tail_operator::decode_impl` where it is not
  unfoldable pub decode_tail_previous :
      Instruction (List ℕ) → Slot (List ℕ) → Slot (List ℕ) → Map → List ℕ → Step (List ℕ) Map
  decode_tail_previous inst prev field m s =
      if not prev.defined
      then (if mandatory_without_initial_value inst
          then thrown d6 prev
          else saved_step (text_to_initial_value inst field) m s)
      else (if not prev.present
          then (if not inst.optional then thrown d7 prev else saved_step (omit inst field) m s)
          else done prev (assign prev.content field) m s)

  unfoldable pub decode_text_tail :
      Instruction (List ℕ) → Slot (List ℕ) → Slot (List ℕ) → Map → List ℕ → Step (List ℕ) Map
  decode_text_tail inst prev field m s =
      let (bit, m') = is_next_bit_set m in
      if bit
      then decode_tail_value inst prev field m' s
      else decode_tail_previous inst prev field m' s
