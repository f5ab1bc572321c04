-- ===== src/Text/Runs.antt =====
-- Concrete runs of the delta and tail operators at texts, and their theorems at concrete inputs.
use m_fast.Common.{
  ℕ, ◌≡◌, refl, inl, Bool, true, false, none, some, List, [], ◌∷◌, arith, length, ◌≤◌,
}
use m_fast.Wire.Ostream.{encode_int, encode_ascii}
use m_fast.Field.Storage.{
  operator_delta, operator_tail, Slot, Instruction, BitSource, as_field, assign,
}
use m_fast.Field.Decode.{done, delta_base_value_of}
use m_fast.Field.Encode.{sent}
use m_fast.Text.Delta.{ascii, string_delta, mismatch, shorter_delta, encode_text, Memory}
use m_fast.Text.Operators.{encode_text_delta, decode_text_delta, text_save_to}
use m_fast.Text.Tail.{encode_text_tail, decode_text_tail, same_text, tail_base_value_of, tail_of}
use m_fast.Text.Bounds.{string_delta_within}
use m_fast.Text.DeltaRoundTrip.{decode_text_delta-encode_text_delta}
use m_fast.Text.TailRoundTrip.{decode_text_tail-encode_text_tail, tail_shorter}

abbrev next_bit : List Bool → Bool × List Bool
next_bit [] = (false, [])
next_bit (b ∷ bs) = (b, bs)

abbrev bit_list : BitSource
bit_list = record { Map = List Bool; is_next_bit_set = next_bit }

abbrev unset : Slot (List ℕ)
unset = record { defined = false; present = false; content = [] }

abbrev held : List ℕ → Slot (List ℕ)
held str = record { defined = true; present = true; content = str }

abbrev delta_instruction : Instruction (List ℕ)
delta_instruction = record { operator = operator_delta; optional = false; initial = unset }

abbrev tail_instruction : Instruction (List ℕ)
tail_instruction = record { operator = operator_tail; optional = true; initial = unset }

-- The field's block holds the base value and has room for two characters.
abbrev in_place : Memory
in_place = record { shared = true; capacity = 3 }

-- "AC" behind "AB": one character less at the back, and "C".
delta_sends :
    encode_text_delta ascii delta_instruction (held (0x41 ∷ 0x42 ∷ [])) (held (0x41 ∷ 0x43 ∷ []))
    ≡ sent (held (0x41 ∷ 0x43 ∷ [])) [] (0x81 ∷ 0xC3 ∷ [])
unfolding encode_text_delta delta_base_value_of string_delta mismatch encode_int shorter_delta
    encode_text encode_ascii
delta_sends = refl

-- "CB" behind "AB": one character less at the front, as -2.
delta_sends_front :
    encode_text_delta ascii delta_instruction (held (0x41 ∷ 0x42 ∷ [])) (held (0x43 ∷ 0x42 ∷ []))
    ≡ sent (held (0x43 ∷ 0x42 ∷ [])) [] (0xFE ∷ 0xC3 ∷ [])
unfolding encode_text_delta delta_base_value_of string_delta mismatch encode_int shorter_delta
    encode_text encode_ascii
delta_sends_front = refl

decode_text_delta-encode_text_delta_example :
    (◌≡◌ {A = List Bool} [] [])
    × (decode_text_delta {M = Unit} ascii in_place delta_instruction
          (held (0x41 ∷ 0x42 ∷ []))
          unset
          tt
          (0x81 ∷ 0xC3 ∷ 9 ∷ [])
        ≡ done
            (held (0x41 ∷ 0x43 ∷ []))
            (as_field delta_instruction (held (0x41 ∷ 0x43 ∷ [])) unset)
            tt
            (9 ∷ []))
decode_text_delta-encode_text_delta_example =
    decode_text_delta-encode_text_delta ascii in_place delta_instruction (held (0x41 ∷ 0x43 ∷ []))
      unset (held (0x41 ∷ 0x42 ∷ [])) (held (0x41 ∷ 0x43 ∷ [])) [] (0x81 ∷ 0xC3 ∷ []) (9 ∷ []) tt
      refl (ground arith) (omega arith) (omega arith) refl delta_sends

string_delta_within_example :
    (length {A = ℕ} (0x41 ∷ []) ≤ length {A = ℕ} (0x41 ∷ 0x42 ∷ [])
      → (d : ℕ × List ℕ) × (string_delta (0x41 ∷ []) (0x41 ∷ 0x42 ∷ []) ≡ some d))
    × (string_delta (0x41 ∷ 0x42 ∷ 0x43 ∷ 0x44 ∷ []) (0x41 ∷ 0x42 ∷ []) ≡ none)
    × (string_delta (0x44 ∷ 0x43 ∷ 0x41 ∷ 0x42 ∷ []) (0x41 ∷ 0x42 ∷ []) ≡ none)
string_delta_within_example = string_delta_within 0x43 (0x41 ∷ []) (0x44 ∷ []) (0x41 ∷ 0x42 ∷ [])

tail_sends :
    encode_text_tail ascii tail_instruction (held (0x41 ∷ 0x42 ∷ [])) (held (0x41 ∷ 0x43 ∷ []))
    ≡ sent (held (0x41 ∷ 0x43 ∷ [])) (true ∷ []) (0xC3 ∷ [])
unfolding encode_text_tail same_text tail_base_value_of encode_text encode_ascii tail_of mismatch
tail_sends = refl

decode_text_tail-encode_text_tail_example :
    decode_text_tail ascii bit_list tail_instruction
      (held (0x41 ∷ 0x42 ∷ []))
      unset
      (true ∷ false ∷ [])
      (0xC3 ∷ 9 ∷ [])
    ≡ done
        (held (0x41 ∷ 0x43 ∷ []))
        (as_field tail_instruction (held (0x41 ∷ 0x43 ∷ [])) unset)
        (false ∷ [])
        (9 ∷ [])
unfolding tail_base_value_of
decode_text_tail-encode_text_tail_example =
    decode_text_tail-encode_text_tail ascii bit_list tail_instruction (held (0x41 ∷ 0x43 ∷ []))
      unset (held (0x41 ∷ 0x42 ∷ [])) (held (0x41 ∷ 0x43 ∷ [])) (true ∷ []) (0xC3 ∷ []) (9 ∷ [])
      (true ∷ false ∷ []) (false ∷ []) refl (ground arith) (omega arith) (omega arith)
      (λ _. inl (refl, refl)) tail_sends (refl, refl)

-- "C" behind "AB" comes back as "AC".
tail_sends_shorter :
    encode_text_tail ascii tail_instruction (held (0x41 ∷ 0x42 ∷ [])) (held (0x43 ∷ []))
    ≡ sent (held (0x43 ∷ [])) (true ∷ []) (0xC3 ∷ [])
unfolding encode_text_tail same_text tail_base_value_of encode_text encode_ascii tail_of mismatch
tail_sends_shorter = refl

tail_shorter_example :
    decode_text_tail ascii bit_list tail_instruction
      (held (0x41 ∷ 0x42 ∷ []))
      unset
      (true ∷ [])
      (0xC3 ∷ 9 ∷ [])
    ≡ done
        (text_save_to (assign (0x41 ∷ 0x43 ∷ []) unset))
        (assign (0x41 ∷ 0x43 ∷ []) unset)
        []
        (9 ∷ [])
unfolding tail_base_value_of
tail_shorter_example =
    tail_shorter ascii bit_list tail_instruction (held (0x43 ∷ [])) unset (held (0x41 ∷ 0x42 ∷ []))
      (held (0x43 ∷ [])) (true ∷ []) (0xC3 ∷ []) (9 ∷ []) (true ∷ []) [] refl (ground arith)
      (omega arith) (omega arith) tail_sends_shorter (refl, refl)
