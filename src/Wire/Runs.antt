-- ===== src/Wire/Runs.antt =====
-- Concrete runs of the transfer encoding, and its theorems at concrete inputs.
use m_fast.Common.{◌-◌, ◌^◌, ◌≤◌, length, ◌≡◌, refl, true, false, none, some, [], ◌∷◌, ◌++◌, arith}
use m_fast.Wire.Outcome.{ok, err, buffer_underflow, d9, fault}
use m_fast.Wire.IntType.{int32, uint32}
use m_fast.Wire.Istream.{decode_int, decode_ascii, extract_ascii, decode_bytes}
use m_fast.Wire.Ostream.{encode_int, encode_ascii, encode_bytes}
use m_fast.Wire.IntRoundTrip.{decode_int-encode_int}
use m_fast.Wire.Decimal.{Decimal, insert_decimal, extract_decimal, extract_decimal-insert_decimal}
use m_fast.Wire.Bounds.{length-encode_int}
use m_fast.Wire.Safety.{Takes, AnyValueIn, decode_int-Takes, decode_bytes_overrun}
use m_fast.Wire.StringRoundTrip.{extract_ascii-encode_ascii, decode_bytes-encode_bytes}

-- The examples of the FAST specification: 942755, -942755 and 8193 as int32.
encode_examples :
    (encode_int int32 942755 false false ≡ 0x39 ∷ 0x45 ∷ 0xa3 ∷ [])
    × (encode_int int32 (2 ^ 32 - 942755) false false ≡ 0x46 ∷ 0x3a ∷ 0xdd ∷ [])
    × (encode_int int32 8193 false false ≡ 0x00 ∷ 0x40 ∷ 0x81 ∷ [])
unfolding encode_int
encode_examples = (refl, refl, refl)

decode_cut : decode_int uint32 false (0x39 ∷ 0x45 ∷ []) ≡ err buffer_underflow
unfolding decode_int
decode_cut = refl

decode_ascii_bad : decode_ascii false (0x00 ∷ 0x41 ∷ 0x80 ∷ []) ≡ err d9
unfolding decode_ascii
decode_ascii_bad = refl

decode_int-encode_int_example :
    (decode_int int32 true (encode_int int32 (2 ^ 32 - 942755) false true ++ (7 ∷ []))
      ≡ ok (some (2 ^ 32 - 942755)) (7 ∷ []))
    × (decode_int int32 true (encode_int int32 (2 ^ 32 - 942755) true true ++ (7 ∷ []))
        ≡ ok none (7 ∷ []))
decode_int-encode_int_example =
    decode_int-encode_int int32 (2 ^ 32 - 942755) true (7 ∷ []) (omega arith) tt

extract_ascii-encode_ascii_example :
    (extract_ascii true (encode_ascii (some (0x41 ∷ 0x42 ∷ [])) true ++ (7 ∷ []))
      ≡ ok (some (0x41 ∷ 0x42 ∷ [])) (7 ∷ []))
    × (extract_ascii true (encode_ascii none true ++ (7 ∷ [])) ≡ ok none (7 ∷ []))
extract_ascii-encode_ascii_example =
    extract_ascii-encode_ascii true (0x41 ∷ 0x42 ∷ []) (7 ∷ []) (omega arith)

decode_bytes-encode_bytes_example :
    (decode_bytes false (encode_bytes (some (0xC3 ∷ 0xA4 ∷ [])) false ++ (7 ∷ []))
      ≡ ok (some (0xC3 ∷ 0xA4 ∷ [])) (7 ∷ []))
    × (decode_bytes true (encode_bytes none true ++ (7 ∷ [])) ≡ ok none (7 ∷ []))
decode_bytes-encode_bytes_example =
    decode_bytes-encode_bytes false (0xC3 ∷ 0xA4 ∷ []) (7 ∷ []) (omega arith)

-- Eleven groups, more than a uint32 has.
decode_int-Takes_example :
    Takes
      (1 ∷ 2 ∷ 3 ∷ 4 ∷ 5 ∷ 6 ∷ 7 ∷ 8 ∷ 9 ∷ 10 ∷ 0x8B ∷ 9 ∷ [])
      (decode_int uint32 true (1 ∷ 2 ∷ 3 ∷ 4 ∷ 5 ∷ 6 ∷ 7 ∷ 8 ∷ 9 ∷ 10 ∷ 0x8B ∷ 9 ∷ []))
    × AnyValueIn uint32
        (decode_int uint32 true (1 ∷ 2 ∷ 3 ∷ 4 ∷ 5 ∷ 6 ∷ 7 ∷ 8 ∷ 9 ∷ 10 ∷ 0x8B ∷ 9 ∷ []))
decode_int-Takes_example =
    decode_int-Takes uint32 true (1 ∷ 2 ∷ 3 ∷ 4 ∷ 5 ∷ 6 ∷ 7 ∷ 8 ∷ 9 ∷ 10 ∷ 0x8B ∷ 9 ∷ [])

length-encode_int_example :
    (1 ≤ length (encode_int int32 (2 ^ 31) false true))
    × (length (encode_int int32 (2 ^ 31) false true) ≤ 5)
length-encode_int_example = length-encode_int int32 (2 ^ 31) false true (omega arith)

-- 12.5 as 125 with the exponent -1
abbrev twelve_and_a_half : Decimal
twelve_and_a_half = record { mantissa = 125; exponent = 2 ^ 16 - 1 }

extract_decimal-insert_decimal_example :
    (extract_decimal true (insert_decimal true 0 (some twelve_and_a_half) ++ (7 ∷ []))
      ≡ ok (some twelve_and_a_half) (7 ∷ []))
    × (extract_decimal true (insert_decimal true 0 none ++ (7 ∷ [])) ≡ ok none (7 ∷ []))
extract_decimal-insert_decimal_example =
    extract_decimal-insert_decimal true twelve_and_a_half 0 (7 ∷ []) (omega arith) (omega arith)
      (λ h. absurd (omega (arith, h)))

decode_bytes_overrun_example :
    decode_bytes true (encode_int uint32 300 false true ++ (7 ∷ 8 ∷ [])) ≡ err fault
decode_bytes_overrun_example =
    decode_bytes_overrun true 300 (7 ∷ 8 ∷ []) (omega arith) (omega arith)
