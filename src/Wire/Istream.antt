-- ===== src/Wire/Istream.antt =====
-- `fast_istream` (src/mfast/coder/decoder/fast_istream.h) over `fast_istreambuf`.
use m_fast.Common.{
  ℕ, ◌+◌, ◌-◌, ◌*◌, ◌/◌, ◌%◌, ◌^◌, Bool, false, ◌&&◌, Option, none, some, List, [], ◌∷◌, ◌==◌, leb,
  if◌then◌else◌, length, take, drop,
}
use mathlib.Core.Option
use m_fast.Wire.Outcome.{buffer_underflow, d9, fault, ok, err, Reader, ◌>>=◌, return, throw}
use m_fast.Wire.IntType.{IntType, uint32, uint64, modulus, temp_modulus, is_signed}

-- `sbumpc`: the next byte, or the exception "Buffer underflow".
unfoldable pub sbumpc : Reader ℕ
sbumpc [] = err buffer_underflow
sbumpc (c ∷ rest) = ok c rest

-- `sgetc` with the `gbump(1)` that follows it: it does not look at `egptr_`.
unfoldable pub sgetc_gbump : Reader ℕ
sgetc_gbump [] = err fault
sgetc_gbump (c ∷ rest) = ok c rest

-- The pointer `gptr()` and `gbump(len)`, with the bytes between.
unfoldable pub gbump : ℕ → Reader (List ℕ)
gbump len s = if leb len (length s) then ok (take len s) (drop len s) else err fault

-- `c & 0x80`, the stop bit
abbrev pub has_stop : ℕ → Bool
has_stop c = c / 128 % 2 == 1

-- `get_entity_length`: the place of the first stop bit, counted from 1.
unfoldable pub entity_length_from : ℕ → List ℕ → Option ℕ
entity_length_from i [] = none
entity_length_from i (c ∷ rest) =
    if has_stop c then some (i + 1) else entity_length_from (i + 1) rest

unfoldable pub get_entity_length : List ℕ → Option ℕ
unfolding entity_length_from
get_entity_length s = entity_length_from 0 s

-- `temp_type`. The flag is `temp_uint64_t::carry`, which the other types leave alone.
pub record Temp : Type 0 where
  pub value : ℕ
  pub carry : Bool

-- `tmp <<= 7`
unfoldable pub shift_left : IntType → Temp → Temp
shift_left uint64 t = record {
  value = t.value * 128 % 2 ^ 64;
  carry = t.value == 0x0200_0000_0000_0000;
}
shift_left ty t = record t { value = t.value * 128 % temp_modulus ty }

-- `tmp |= (c & 0x7F)` where the low seven bits of `tmp` are zero, as `shift_left` leaves them.
unfoldable pub or_group : Temp → ℕ → Temp
or_group t c = record t { value = t.value + c % 128 }

-- `c & 0x40`
abbrev pub has_sign : ℕ → Bool
has_sign c = c / 64 % 2 == 1

-- The branch of `decode` in which the value is negative.
abbrev pub is_negative : IntType → ℕ → Bool
is_negative ty c = is_signed ty && has_sign c

-- The first assignment to `tmp`.
unfoldable pub first_temp : IntType → ℕ → Temp
first_temp ty c =
    if is_signed ty
    then (if has_sign c
        then record { value = temp_modulus ty - 128 + c % 128; carry = false }
        else record { value = c % 64; carry = false })
    else record { value = c % 128; carry = false }

-- `while ((c & 0x80) == 0)`, entered with a byte that has no stop bit.
unfoldable pub decode_groups : IntType → Temp → Reader Temp
unfolding shift_left or_group
decode_groups ty t [] = err buffer_underflow
decode_groups ty t (c ∷ rest) =
    let t' = or_group (shift_left ty t) c in
    if has_stop c then ok t' rest else decode_groups ty t' rest

-- `detail::to_nullable_value`; `none` is the answer `false`, a null.
unfoldable pub to_nullable_value : IntType → Temp → ℕ → Option ℕ
to_nullable_value uint64 t decrement =
    if t.value == 0
    then (if t.carry then some (2 ^ 64 - 1) else none)
    else some ((t.value + 2 ^ 64 - decrement) % 2 ^ 64)
to_nullable_value ty t decrement =
    if t.value == 0 then none else some ((t.value + temp_modulus ty - decrement) % modulus ty)

-- `decrement_value`
abbrev pub decrement_value : IntType → ℕ → Bool → ℕ
decrement_value ty c nullable = if is_negative ty c then 0 else (if nullable then 1 else 0)

unfoldable pub finish : IntType → Bool → ℕ → Temp → Option ℕ
unfolding to_nullable_value
finish ty nullable c t =
    if nullable
    then to_nullable_value ty t (decrement_value ty c nullable)
    else some (t.value % modulus ty)

-- `decode(T &result, Nullable)`; `none` is a null.
unfoldable pub decode_int : IntType → Bool → Reader (Option ℕ)
unfolding sbumpc first_temp decode_groups finish
decode_int ty nullable = do
  c ← sbumpc
  t ← if has_stop c then return (first_temp ty c) else decode_groups ty (first_temp ty c)
  return (finish ty nullable c t)

-- `decode` of an ascii string: the bytes as they stand in the buffer, the stop bit included. The length
-- is below 2 ^ 32, at which the cast to `uint32_t` keeps it.
unfoldable pub decode_ascii_entity : Reader (Option (List ℕ))
decode_ascii_entity s = elim (get_entity_length s) [
  | none ↦ err buffer_underflow
  | some len ↦ (gbump len >>= λ str. return (some str)) s
]

-- The third byte of `\x00\x00\x80`.
unfoldable pub decode_ascii_zero : ℕ → Reader (Option (List ℕ))
unfolding sgetc_gbump
decode_ascii_zero c = do
  third ← sgetc_gbump
  if third == 0x80 then return (some (c ∷ [])) else throw d9

-- The byte behind a first byte `c` that is `\x00`.
unfoldable pub decode_ascii_special : Bool → ℕ → Reader (Option (List ℕ))
unfolding sgetc_gbump decode_ascii_zero
decode_ascii_special nullable c = do
  second ← sgetc_gbump
  if second == 0x80
      then return (some (if nullable then [] else c ∷ []))
      else (if nullable && second == 0 then decode_ascii_zero c else throw d9)

unfoldable pub decode_ascii : Bool → Reader (Option (List ℕ))
unfolding decode_ascii_entity decode_ascii_special
decode_ascii nullable [] = err fault
decode_ascii nullable (c ∷ rest) =
    if c % 128 == 0
    then (if c == 0x80
        then ok (if nullable then none else some []) rest
        else decode_ascii_special nullable c rest)
    else decode_ascii_entity (c ∷ rest)

-- `decode` of a unicode string and of a byte vector, which have the same body.
unfoldable pub decode_bytes : Bool → Reader (Option (List ℕ))
decode_bytes nullable = do
  len ← decode_int uint32 nullable
  elim len [ none ↦ return none | some n ↦ gbump n >>= λ bv. return (some bv) ]

-- `mref[len - 1] &= '\x7F'`, where `len > 0`
unfoldable pub clear_stop : List ℕ → List ℕ
clear_stop [] = []
clear_stop (b ∷ []) = (b % 128) ∷ []
clear_stop (b ∷ c ∷ bs) = b ∷ clear_stop (c ∷ bs)

-- The text that `operator>>` of fast_istream_extractor.h stores for an ascii string.
unfoldable pub extract_ascii : Bool → Reader (Option (List ℕ))
extract_ascii nullable = do str ← decode_ascii nullable; return (Option.map clear_stop str)
