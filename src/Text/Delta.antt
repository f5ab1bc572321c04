-- ===== src/Text/Delta.antt =====
-- The difference of two texts: `delta_operator::encode_string` of
-- src/mfast/coder/encoder/encoder_field_operator.cpp and `apply_string_delta` of
-- src/mfast/coder/common/codec_helper.h. Lengths stay below 2 ^ 31, as `resize` asserts.
use m_fast.Common.{
  ℕ, suc, ◌-◌, ◌^◌, Bool, ◌&&◌, Option, none, some, List, [], ◌∷◌, ◌++◌, ◌==◌, ltb, leb,
  if◌then◌else◌, length, take, drop,
}
use mathlib.Core.List.{reverse}
use mathlib.Core.Option
use m_fast.Wire.Outcome.{Error, d7, fault, Reader}
use m_fast.Wire.Istream.{decode_ascii, decode_bytes, clear_stop}
use m_fast.Wire.Ostream.{encode_ascii, encode_bytes}

-- `ascii_string_cref`, `unicode_string_cref`, `byte_vector_cref`
pub data TextType : Type 0 where
  ascii unicode byte_vector : TextType

-- `stream.encode(ptr, len, instruction, nullable)` with a pointer that is not null
unfoldable pub encode_text : TextType → List ℕ → Bool → List ℕ
encode_text ascii str nullable = encode_ascii (some str) nullable
encode_text ty str nullable = encode_bytes (some str) nullable

-- `stream.decode(ptr, len, instruction, nullable)`
unfoldable pub decode_text : TextType → Bool → Reader (Option (List ℕ))
decode_text ascii nullable = decode_ascii nullable
decode_text ty nullable = decode_bytes nullable

-- `copy_string_raw`, which takes the stop bit off an ascii string
unfoldable pub copy_string_raw : TextType → List ℕ → List ℕ
copy_string_raw ascii str = clear_stop str
copy_string_raw ty str = str

-- `std::mismatch` with the end of the first range only: how many characters agree. `none` is a read
-- behind the end of the second range.
unfoldable pub mismatch : List ℕ → List ℕ → Option ℕ
mismatch [] ps = some 0
mismatch (c ∷ cs) [] = none
mismatch (c ∷ cs) (p ∷ ps) = if c == p then Option.map suc (mismatch cs ps) else some 0

-- The subtraction length, as the pattern of an int32, and the delta, for a text and what agrees of it
-- at the front and at the back.
unfoldable pub shorter_delta : List ℕ → List ℕ → ℕ → ℕ → ℕ × List ℕ
shorter_delta str base prefix suffix =
    if leb (length str - prefix) (length str - suffix)
    then (length base - prefix, drop prefix str)
    else (2 ^ 32 - 1 - (length base - suffix), take (length str - suffix) str)

-- `encode_string` up to the first `stream.encode`
unfoldable pub string_delta : List ℕ → List ℕ → Option (ℕ × List ℕ)
string_delta str base = elim (mismatch str base) [
  | none ↦ none
  | some prefix ↦ elim (mismatch (reverse str) (reverse base)) [
    | none ↦ none
    | some suffix ↦ some (shorter_delta str base prefix suffix)
  ]
]

-- How `apply_string_delta` ends.
pub data Applied : Type 0 where
  applied : List ℕ → Applied
  rejected : Error → Applied

-- `substraction_length >= 0 ? substraction_length : ~substraction_length`
abbrev pub subtracted : ℕ → ℕ
subtracted sub = if ltb sub (2 ^ 31) then sub else 2 ^ 32 - 1 - sub

-- The text that `apply_string_delta` leaves in the field. It does not compare a negative subtraction
-- length with the length of the base value, and moves the pointer beyond it.
unfoldable pub join_delta : TextType → List ℕ → ℕ → List ℕ → Applied
join_delta ty base sub delta =
    if ltb sub (2 ^ 31)
    then (if ltb (length base) sub
        then rejected d7
        else applied (take (length base - sub) base ++ copy_string_raw ty delta))
    else (if ltb (length base) (2 ^ 32 - 1 - sub)
        then rejected fault
        else applied (copy_string_raw ty delta ++ drop (2 ^ 32 - 1 - sub) base))

-- The memory of the field: whether `content_` of the base value is the field's own, as `save_to` leaves it,
-- and how many characters the block of the field holds; 0 where it owns none.
pub record Memory : Type 0 where
  pub shared : Bool
  pub capacity : ℕ

-- Whether `resize` to so many characters gives back the block in which the base value stands: `resize`
-- keeps a place behind the text, and a block that is not owned is not given back.
abbrev pub outgrows : Memory → ℕ → Bool
outgrows mem n = mem.shared && (ltb 0 mem.capacity && leb mem.capacity n)

-- Reading the characters of the base value that are kept, behind `resize`: where the text outgrows the
-- block, a read of memory that was given back. Within the block `memmove` moves them to their place,
-- or they stand there already (`base_str != mref.data()`).
abbrev pub read_base : Memory → ℕ → Applied → Applied
read_base mem kept (rejected e) = rejected e
read_base mem kept (applied str) =
    if outgrows mem (length str) && ltb 0 kept then rejected fault else applied str

-- `apply_string_delta`, which takes `base_str` before `resize`
unfoldable pub apply_string_delta : TextType → Memory → List ℕ → ℕ → List ℕ → Applied
apply_string_delta ty mem base sub delta =
    read_base mem (length base - subtracted sub) (join_delta ty base sub delta)
