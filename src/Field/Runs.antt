-- ===== src/Field/Runs.antt =====
-- Concrete runs of the field operators, and their theorems at concrete inputs.
use m_fast.Common.{ℕ, ◌≡◌, refl, Bool, true, false, List, [], ◌∷◌, arith}
use m_fast.Wire.IntType.{uint32}
use m_fast.Wire.Ostream.{encode_int}
use m_fast.Field.Storage.{operator_copy, Slot, Instruction, BitSource}
use m_fast.Field.Encode.{sent, encode_copy}
use m_fast.Field.Ints.{encode_field, decode_field, encode_by, int_is_same}
use m_fast.Field.Agreement.{Agrees}
use m_fast.Field.IntRoundTrip.{decode_field-encode_field}

-- A presence map that is a list of bits, with zeros behind it.
abbrev next_bit : List Bool → Bool × List Bool
next_bit [] = (false, [])
next_bit (b ∷ bs) = (b, bs)

abbrev bit_list : BitSource
bit_list = record { Map = List Bool; is_next_bit_set = next_bit }

abbrev unset : Slot ℕ
unset = record { defined = false; present = false; content = 0 }

abbrev held : ℕ → Slot ℕ
held v = record { defined = true; present = true; content = v }

abbrev copy_instruction : Instruction ℕ
copy_instruction = record { operator = operator_copy; optional = true; initial = unset }

-- 5 behind 4 is written, and both sides hold 5 afterwards.
copy_sends :
    encode_field uint32 copy_instruction (held 4) (held 5) ≡ sent (held 5) (true ∷ []) (0x86 ∷ [])
unfolding encode_by encode_copy int_is_same encode_int
copy_sends = refl

decode_field-encode_field_example :
    Agrees copy_instruction
      (held 5)
      (held 5)
      (decode_field uint32 bit_list copy_instruction
        (held 4)
        unset
        (true ∷ false ∷ [])
        (0x86 ∷ 9 ∷ []))
      (false ∷ [])
      (9 ∷ [])
decode_field-encode_field_example =
    decode_field-encode_field uint32 bit_list copy_instruction (held 5) unset (held 4) (held 4)
      (held 5) (true ∷ []) (0x86 ∷ []) (9 ∷ []) (true ∷ false ∷ []) (false ∷ []) (omega arith) tt
      (record { defined = refl; present = refl; content = λ _. refl }) tt copy_sends (refl, refl)
