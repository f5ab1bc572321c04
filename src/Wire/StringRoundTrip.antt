-- ===== src/Wire/StringRoundTrip.antt =====
-- Strings and byte vectors, written by `fast_ostream::encode` and read back by `fast_istream::decode`.
use m_fast.Common.{
  ℕ, suc, ◌+◌, ◌%◌, ◌^◌, ◌<◌, ◌≡◌, refl, ◌∙◌, ap, Bool, true, false, ◌≢◌, none, some, List, [], ◌∷◌,
  ◌++◌, ◌==◌, if-false, arith, length, length-append, take-length_append, drop-length_append,
  append_assoc, All,
}
use native.Mathlib.Nat.{mod-eq_of_lt}
use native.Mathlib.Decide.{ℕ_discrete}
use m_fast.Wire.Outcome.{ok}
use m_fast.Wire.IntType.{uint32}
use m_fast.Wire.Istream.{
  gbump, entity_length_from, get_entity_length, decode_ascii_entity, decode_ascii, extract_ascii,
  clear_stop, decode_bytes,
}
use m_fast.Wire.Ostream.{set_stop, encode_ascii, encode_bytes, encode_int, or_stop}
use m_fast.Wire.Groups.{IsGroup, has_stop_group, has_stop-or_stop, or_stop_bits}
use m_fast.Wire.IntRoundTrip.{decode_int-encode_int, decode_null}

-- Seven-bit text. A text of two bytes or more that begins with NUL has no encoding.
abbrev pub IsAscii : List ℕ → Type 0
IsAscii [] = Unit
IsAscii (c ∷ []) = c < 128
IsAscii (c ∷ d ∷ str) = (c ≢ 0) × All IsGroup (c ∷ d ∷ str)

entity_length_from-set_stop :
    (i c : ℕ) (str rest : List ℕ)
    → All IsGroup (c ∷ str)
    → entity_length_from i (set_stop (c ∷ str) ++ rest) ≡ some (i + length (c ∷ str))
unfolding entity_length_from set_stop
entity_length_from-set_stop i c [] rest h = rw (has_stop-or_stop c h.0)
entity_length_from-set_stop i c (d ∷ str) rest h =
    rw (has_stop_group c h.0)
      (entity_length_from-set_stop (i + 1) d str rest h.1 ∙ ap some (omega arith))

pub length-set_stop : (str : List ℕ) → length (set_stop str) ≡ length str
unfolding set_stop
length-set_stop [] = refl
length-set_stop (c ∷ []) = refl
length-set_stop (c ∷ d ∷ str) = ap suc (length-set_stop (d ∷ str))

pub clear_stop-set_stop : (str : List ℕ) → All IsGroup str → clear_stop (set_stop str) ≡ str
unfolding clear_stop set_stop
clear_stop-set_stop [] h = refl
clear_stop-set_stop (c ∷ []) h = ap (λ b. b ∷ []) (omega (arith, or_stop_bits c h.0))
clear_stop-set_stop (c ∷ d ∷ []) h = ap (λ b. c ∷ b ∷ []) (omega (arith, or_stop_bits d h.1.0))
clear_stop-set_stop (c ∷ d ∷ e ∷ str) h = ap (◌∷◌ c) (clear_stop-set_stop (d ∷ e ∷ str) h.1)

pub gbump_append : (xs rest : List ℕ) → gbump (length xs) (xs ++ rest) ≡ ok xs rest
unfolding gbump
gbump_append xs rest =
    ground (arith, length-append xs rest, take-length_append xs rest, drop-length_append xs rest)

get_entity_length-set_stop :
    (c : ℕ) (str rest : List ℕ)
    → All IsGroup (c ∷ str)
    → get_entity_length (set_stop (c ∷ str) ++ rest) ≡ some (length (set_stop (c ∷ str)))
unfolding get_entity_length
get_entity_length-set_stop c str rest h =
    entity_length_from-set_stop 0 c str rest h ∙ ap some (omega (arith, length-set_stop (c ∷ str)))

decode_ascii_entity-set_stop :
    (c : ℕ) (str rest : List ℕ)
    → All IsGroup (c ∷ str)
    → decode_ascii_entity (set_stop (c ∷ str) ++ rest) ≡ ok (some (set_stop (c ∷ str))) rest
unfolding decode_ascii_entity
decode_ascii_entity-set_stop c str rest h =
    rw (get_entity_length-set_stop c str rest h, decode_ascii_entity)
      (rw (gbump_append (set_stop (c ∷ str)) rest))

-- The first byte is no `\x00` and no `\x80`: the decoder looks for the stop bit.
decode_ascii-entity :
    (nullable : Bool) (c : ℕ) (rest : List ℕ)
    → c % 128 ≢ 0
    → decode_ascii nullable (c ∷ rest) ≡ decode_ascii_entity (c ∷ rest)
unfolding decode_ascii
decode_ascii-entity nullable c rest h = if-false {b = c % 128 == 0} _ _ (ground arith)

decode_ascii-set_stop :
    (nullable : Bool) (c : ℕ) (str rest : List ℕ)
    → c ≢ 0
    → All IsGroup (c ∷ str)
    → decode_ascii nullable (set_stop (c ∷ str) ++ rest) ≡ ok (some (set_stop (c ∷ str))) rest
unfolding set_stop
decode_ascii-set_stop nullable c [] rest ne h =
    decode_ascii-entity nullable (or_stop c) rest (λ e. ne (omega (arith, or_stop_bits c h.0)))
    ∙ decode_ascii_entity-set_stop c [] rest h
decode_ascii-set_stop nullable c (d ∷ str) rest ne h =
    decode_ascii-entity nullable c (set_stop (d ∷ str) ++ rest) (λ e. ne (omega arith))
    ∙ decode_ascii_entity-set_stop c (d ∷ str) rest h

extract_ascii-set_stop :
    (nullable : Bool) (c : ℕ) (str rest : List ℕ)
    → c ≢ 0
    → All IsGroup (c ∷ str)
    → extract_ascii nullable (set_stop (c ∷ str) ++ rest) ≡ ok (some (c ∷ str)) rest
unfolding extract_ascii
extract_ascii-set_stop nullable c str rest ne h =
    rw (decode_ascii-set_stop nullable c str rest ne h, clear_stop-set_stop (c ∷ str) h)

-- The three texts that are written specially.
extract_ascii-empty :
    (nullable : Bool) (rest : List ℕ)
    → extract_ascii nullable (encode_ascii (some []) nullable ++ rest) ≡ ok (some []) rest
unfolding extract_ascii decode_ascii clear_stop encode_ascii
extract_ascii-empty true rest = refl
extract_ascii-empty false rest = refl

extract_ascii-nul :
    (nullable : Bool) (rest : List ℕ)
    → extract_ascii nullable (encode_ascii (some (0 ∷ [])) nullable ++ rest)
      ≡ ok (some (0 ∷ [])) rest
unfolding extract_ascii decode_ascii clear_stop encode_ascii
extract_ascii-nul true rest = refl
extract_ascii-nul false rest = refl

extract_ascii-null :
    (rest : List ℕ) → extract_ascii true (encode_ascii none true ++ rest) ≡ ok none rest
unfolding extract_ascii decode_ascii clear_stop encode_ascii
extract_ascii-null rest = refl

encode_ascii-put :
    (nullable : Bool) (c : ℕ) (str : List ℕ)
    → c ≢ 0
    → encode_ascii (some (c ∷ str)) nullable ≡ set_stop (c ∷ str)
unfolding encode_ascii
encode_ascii-put nullable c [] ne = if-false {b = c == 0} _ _ (ground arith)
encode_ascii-put nullable c (d ∷ str) ne = refl

extract_ascii-text :
    (nullable : Bool) (str rest : List ℕ)
    → IsAscii str
    → extract_ascii nullable (encode_ascii (some str) nullable ++ rest) ≡ ok (some str) rest
extract_ascii-text nullable [] rest h = extract_ascii-empty nullable rest
extract_ascii-text nullable (c ∷ []) rest h = elim (ℕ_discrete c 0) [
  | yes e ↦ rw e (extract_ascii-nul nullable rest)
  | no ne ↦
      rw (encode_ascii-put nullable c [] ne)
        (extract_ascii-set_stop nullable c [] rest ne (omega arith))
]
extract_ascii-text nullable (c ∷ d ∷ str) rest h =
    rw (encode_ascii-put nullable c (d ∷ str) h.0)
      (extract_ascii-set_stop nullable c (d ∷ str) rest h.0 h.1)

-- Seven-bit text that is empty, a single byte, or does not begin with NUL is read back from its
-- encoding, nullable or not, and a null from the nullable encoding; the bytes that follow are left.
pub extract_ascii-encode_ascii :
    (nullable : Bool) (str rest : List ℕ)
    → IsAscii str
    → (extract_ascii nullable (encode_ascii (some str) nullable ++ rest) ≡ ok (some str) rest)
      × (extract_ascii true (encode_ascii none true ++ rest) ≡ ok none rest)
extract_ascii-encode_ascii nullable str rest h =
    (extract_ascii-text nullable str rest h, extract_ascii-null rest)

decode_bytes-some :
    (nullable : Bool) (str rest : List ℕ)
    → length str < 2 ^ 32
    → decode_bytes nullable (encode_bytes (some str) nullable ++ rest) ≡ ok (some str) rest
unfolding decode_bytes encode_bytes
decode_bytes-some nullable str rest h = rw (
  append_assoc (encode_int uint32 (length str % 2 ^ 32) false nullable) str rest,
  (decode_int-encode_int uint32 (length str % 2 ^ 32) nullable (str ++ rest) (omega arith) tt).0,
  mod-eq_of_lt h,
  gbump_append str rest,
)

-- A unicode string or byte vector shorter than 2 ^ 32 is read back from its encoding, nullable or not,
-- and a null from the nullable encoding; the bytes that follow are left.
pub decode_bytes-encode_bytes :
    (nullable : Bool) (str rest : List ℕ)
    → length str < 2 ^ 32
    → (decode_bytes nullable (encode_bytes (some str) nullable ++ rest) ≡ ok (some str) rest)
      × (decode_bytes true (encode_bytes none true ++ rest) ≡ ok none rest)
unfolding decode_bytes encode_bytes
decode_bytes-encode_bytes nullable str rest h =
    (decode_bytes-some nullable str rest h, rw (decode_null uint32 0 rest))
