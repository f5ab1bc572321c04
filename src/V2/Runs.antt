-- ===== src/V2/Runs.antt =====
-- The theorems on the second version at concrete fields.
use m_fast.Common.{ℕ, ◌≡◌, refl, ◌⊎◌, Bool, true, false, List, [], ◌∷◌, arith}
use m_fast.Wire.IntType.{uint32}
use m_fast.Field.Storage.{Slot, BitSource, Operator, operator_default, operator_increment}
use m_fast.Field.Decode.{done}
use m_fast.Field.Ints.{encode_by, decode_by, int_is_initial_value, int_kind}
use m_fast.V2.Ext.{Ext}
use m_fast.V2.Decode.{ext_decode_by}
use m_fast.V2.DecodeSame.{SameStep, Accepts, is_copying, both_save, ext_decode_by-decode_by}
use m_fast.V2.Encode.{ext_sent, ext_encode_by, ext_encode_default}
use m_fast.V2.EncodeSame.{SameSent, Dropped, ext_encode_by-encode_by}
use m_fast.V2.RoundTrip.{IsReceived, IsInitial, ext_decode_by-ext_encode_by}

-- A presence map that is a list of bits, with zeros behind it.
abbrev take_bit : List Bool → Bool × List Bool
take_bit [] = (false, [])
take_bit (b ∷ bs) = (b, bs)

abbrev bit_list : BitSource
bit_list = record { Map = List Bool; is_next_bit_set = take_bit }

abbrev slot : Bool → Bool → ℕ → Slot ℕ
slot defined present content = record { defined = defined; present = present; content = content }

abbrev field_of : Operator → Bool → Slot ℕ → Ext ℕ
field_of op optional initial = record {
  instruction = record { operator = op; optional = optional; initial = initial };
  shared = false;
}

abbrev counter : Ext ℕ
counter = field_of operator_increment false (slot false true 1)

ext_decode_by-decode_by_example :
    SameStep true
      (decode_by uint32 bit_list operator_increment counter.instruction
        (slot true true 4)
        (slot false false 0)
        (false ∷ [])
        (9 ∷ []))
      (ext_decode_by uint32 bit_list operator_increment counter
        (slot true true 4)
        (slot false false 0)
        (false ∷ [])
        (9 ∷ []))
    ⊎ ((is_copying operator_increment ≡ true)
        × Accepts
            (int_kind uint32)
            bit_list
            counter
            (slot true true 4)
            (slot false false 0)
            (false ∷ [])
            (9 ∷ [])
            (decode_by uint32 bit_list operator_increment counter.instruction
              (slot true true 4)
              (slot false false 0)
              (false ∷ [])
              (9 ∷ []))
            (ext_decode_by uint32 bit_list operator_increment counter
              (slot true true 4)
              (slot false false 0)
              (false ∷ [])
              (9 ∷ [])))
ext_decode_by-decode_by_example =
    ext_decode_by-decode_by uint32 bit_list counter (slot true true 4) (slot false false 0)
      (false ∷ []) (9 ∷ []) operator_increment refl

abbrev defaulted : Ext ℕ
defaulted = field_of operator_default true (slot false true 7)

ext_encode_by-encode_by_example :
    SameSent
      (both_save operator_default defaulted)
      (encode_by uint32 operator_default defaulted.instruction
        (slot true true 4)
        (slot false true 5))
      (ext_encode_by uint32 operator_default defaulted (slot true true 4) (slot false true 5))
    ⊎ Dropped uint32 defaulted
        (slot true true 4)
        (slot false true 5)
        operator_default
        (encode_by uint32 operator_default defaulted.instruction
          (slot true true 4)
          (slot false true 5))
        (ext_encode_by uint32 operator_default defaulted (slot true true 4) (slot false true 5))
ext_encode_by-encode_by_example =
    ext_encode_by-encode_by uint32 operator_default defaulted (slot true true 4) (slot false true 5)
      refl

-- An absent field comes back as 7.
absent_sent :
    ext_encode_by uint32 operator_default defaulted (slot true true 4) (slot false false 5)
    ≡ ext_sent (slot true true 4) (false ∷ []) []
unfolding ext_encode_by ext_encode_default int_is_initial_value
absent_sent = refl

ext_decode_by-ext_encode_by_example :
    (pd : Slot ℕ) × (f : Slot ℕ) × (ext_decode_by uint32 bit_list operator_default defaulted
        (slot true true 4)
        (slot false false 0)
        (false ∷ [])
        (9 ∷ [])
      ≡ done pd f [] (9 ∷ []))
    × (IsReceived false defaulted.instruction (slot false false 5) f (slot true true 4) pd
        ⊎ IsInitial defaulted.instruction (slot false false 5) f)
ext_decode_by-ext_encode_by_example =
    ext_decode_by-ext_encode_by uint32 bit_list defaulted (slot false false 5) (slot false false 0)
      (slot true true 4) (slot true true 4) (slot true true 4) (false ∷ []) [] (9 ∷ []) (false ∷ [])
      [] (omega arith) tt (record { defined = refl; present = refl; content = λ _. refl }) tt
      absent_sent (refl, refl)
