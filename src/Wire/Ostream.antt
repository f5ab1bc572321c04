-- ===== src/Wire/Ostream.antt =====
-- `fast_ostream` (src/mfast/coder/encoder/fast_ostream.h). Each `encode` is modelled by the bytes that
-- it hands to `sputc` and `sputn`, in order.
use m_fast.Common.{
  ℕ, zero, suc, ◌+◌, ◌-◌, ◌*◌, ◌/◌, ◌%◌, ◌^◌, Bool, true, false, ◌&&◌, Option, none, some, List, [],
  ◌∷◌, ◌++◌, ◌==◌, not, if◌then◌else◌, length,
}
use m_fast.Wire.IntType.{
  IntType, int16, int32, uint32, int64, uint64, modulus, is_signed, is_positive,
}
use m_fast.Wire.Istream.{has_stop, has_sign}

-- `std::numeric_limits<T>::max()`
abbrev pub numeric_max : IntType → ℕ
numeric_max int16 = 2 ^ 15 - 1
numeric_max int32 = 2 ^ 31 - 1
numeric_max uint32 = 2 ^ 32 - 1
numeric_max int64 = 2 ^ 63 - 1
numeric_max uint64 = 2 ^ 64 - 1

-- The literals of the overloads of `encode_max_value`; the one for int16_t writes none.
abbrev pub max_bytes : IntType → List ℕ
max_bytes int16 = []
max_bytes int32 = 0x08 ∷ 0 ∷ 0 ∷ 0 ∷ 0x80 ∷ []
max_bytes uint32 = 0x10 ∷ 0 ∷ 0 ∷ 0 ∷ 0x80 ∷ []
max_bytes int64 = 0x01 ∷ 0 ∷ 0 ∷ 0 ∷ 0 ∷ 0 ∷ 0 ∷ 0 ∷ 0 ∷ 0x80 ∷ []
max_bytes uint64 = 0x02 ∷ 0 ∷ 0 ∷ 0 ∷ 0 ∷ 0 ∷ 0 ∷ 0 ∷ 0 ∷ 0x80 ∷ []

-- `encode_max_value`: the bytes for the greatest value of the type, in the nullable form.
unfoldable pub encode_max_value : IntType → ℕ → Option (List ℕ)
encode_max_value int16 v = none
encode_max_value ty v = if v == numeric_max ty then some (max_bytes ty) else none

-- `value > 0`
abbrev pub gt_zero : IntType → ℕ → Bool
gt_zero ty v = is_positive ty v && not (v == 0)

-- `0xFE << (sizeof(IntType) - 1) * 8` for a value that is not above 0.
abbrev pub padding_mask : IntType → Bool → ℕ
padding_mask ty gt = if gt then 0 else 0xFE * (modulus ty / 256)

-- 0, or -1 as a pattern
abbrev pub no_significant_bits : IntType → Bool → ℕ
no_significant_bits ty gt = if gt then 0 else modulus ty - 1

abbrev pub max_encoded_length : IntType → ℕ
max_encoded_length int16 = 3
max_encoded_length int32 = 5
max_encoded_length uint32 = 5
max_encoded_length int64 = 10
max_encoded_length uint64 = 10

-- `value = (value >> 7) | padding_mask`. The shift brings in copies of the sign, and these are bits of
-- the mask: with the bits of `value / 128` they make a sum.
abbrev pub shift_right : ℕ → ℕ → ℕ
shift_right mask v = v / 128 + mask

-- `for (; i >= 0 && value != no_significant_bits; --i)`, with `i + 1` rounds left, and the bytes of
-- `buffer` behind index `i`.
unfoldable pub encode_groups : ℕ → ℕ → ℕ → ℕ → List ℕ → List ℕ
encode_groups zero mask nsb v buffer = buffer
encode_groups (suc i) mask nsb v buffer =
    let more = encode_groups i mask nsb (shift_right mask v) ((v % 128) ∷ buffer) in
    if v == nsb then buffer else more

-- `buffer[i]`, which is the spare `\0` at the end where the loop has written nothing.
abbrev pub head_byte : List ℕ → ℕ
head_byte [] = 0
head_byte (b ∷ bs) = b

-- The extra byte in front where bit 0x40 is not the sign.
unfoldable pub pad_sign : IntType → Bool → List ℕ → List ℕ
pad_sign ty positive buffer =
    if is_signed ty
    then (if positive
        then (if has_sign (head_byte buffer) then 0x00 ∷ buffer else buffer)
        else (if has_sign (head_byte buffer) then buffer else 0x7F ∷ buffer))
    else buffer

-- `b | 0x80`
abbrev pub or_stop : ℕ → ℕ
or_stop b = if has_stop b then b else b + 128

-- `buffer[max_encoded_length - 1] |= 0x80`
unfoldable pub set_stop : List ℕ → List ℕ
set_stop [] = []
set_stop (b ∷ []) = or_stop b ∷ []
set_stop (b ∷ c ∷ bs) = b ∷ set_stop (c ∷ bs)

-- `encode` from the line `bool positive` on.
unfoldable pub encode_value : IntType → ℕ → List ℕ
unfolding encode_groups pad_sign set_stop
encode_value ty v =
    let gt = gt_zero ty v in
    set_stop (
      pad_sign ty (is_positive ty v) (
        encode_groups (max_encoded_length ty) (padding_mask ty gt) (no_significant_bits ty gt) v
          []))

-- `if (is_positive(value)) ++value`
abbrev pub increment : IntType → ℕ → ℕ
increment ty v = if is_positive ty v then (v + 1) % modulus ty else v

-- `encode(IntType t, bool is_null, Nullable nullable)`
unfoldable pub encode_int : IntType → ℕ → Bool → Bool → List ℕ
unfolding encode_value encode_max_value
encode_int ty v is_null nullable =
    if nullable
    then (if is_null then 0x80 ∷ [] else elim (encode_max_value ty v) [
      | some bytes ↦ bytes
      | none ↦ encode_value ty (increment ty v)
    ])
    else (if v == 0 then 0x80 ∷ [] else encode_value ty v)

-- `encode_null`
abbrev pub encode_null : List ℕ
encode_null = 0x80 ∷ []

-- The last two lines of the ascii `encode`: the last byte goes out with the stop bit.
unfoldable pub put_ascii : List ℕ → List ℕ
unfolding set_stop
put_ascii str = set_stop str

-- `encode` of an ascii string; `none` is a null pointer, which comes with the length 0 and so writes the
-- same byte where the field is not nullable.
unfoldable pub encode_ascii : Option (List ℕ) → Bool → List ℕ
unfolding put_ascii
encode_ascii none nullable = 0x80 ∷ []
encode_ascii (some []) nullable = if nullable then 0x00 ∷ 0x80 ∷ [] else 0x80 ∷ []
encode_ascii (some (c ∷ [])) nullable =
    if c == 0
    then (if nullable then 0x00 ∷ 0x00 ∷ 0x80 ∷ [] else 0x00 ∷ 0x80 ∷ [])
    else put_ascii (c ∷ [])
encode_ascii (some (c ∷ d ∷ str)) nullable = put_ascii (c ∷ d ∷ str)

-- `encode` of a unicode string and of a byte vector, which have the same body; `none` is a null
-- pointer, which comes with the length 0.
unfoldable pub encode_bytes : Option (List ℕ) → Bool → List ℕ
encode_bytes none nullable = encode_int uint32 0 true nullable
encode_bytes (some str) nullable = encode_int uint32 (length str % 2 ^ 32) false nullable ++ str
