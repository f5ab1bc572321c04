-- ===== src/Message/IntVector.antt =====
-- Vectors of integers: `visit(int_vector_cref)` of src/mfast/coder/encoder/fast_encoder.cpp and
-- `visit(int_vector_mref)` of src/mfast/coder/decoder/fast_decoder.cpp.
use m_fast.Common.{
  ℕ, zero, suc, ◌%◌, ◌^◌, ◌<◌, ◌≡◌, refl, Bool, true, false, Option, none, some, List, [], ◌∷◌,
  ◌++◌, append_assoc, length, All, arith,
}
use native.Mathlib.Nat.{mod-eq_of_lt}
use m_fast.Wire.Outcome.{ok, Reader, ◌>>=◌, return}
use m_fast.Wire.IntType.{IntType, int16, int32, uint32, int64, uint64, InRange}
use m_fast.Wire.IntRoundTrip.{decode_int-encode_int, decode_null, Representable}
use m_fast.Wire.Istream.{decode_int}
use m_fast.Wire.Ostream.{encode_int}

-- `absent()` of an optional or mandatory field
abbrev pub is_absent : Bool → Option (List ℕ) → Bool
is_absent optional none = optional
is_absent optional (some vs) = false

-- The loop over the elements, `strm_.encode(cref[i], false, false)`.
unfoldable pub encode_elements : IntType → List ℕ → List ℕ
encode_elements ty [] = []
encode_elements ty (v ∷ vs) = encode_int ty v false false ++ encode_elements ty vs

-- `visit(int_vector_cref)`
unfoldable pub encode_int_vector : IntType → Bool → Option (List ℕ) → List ℕ
encode_int_vector ty optional none = encode_int uint32 0 (is_absent optional none) optional
encode_int_vector ty optional (some vs) =
    encode_int uint32 (length vs % 2 ^ 32) (is_absent optional (some vs)) optional
    ++ encode_elements ty vs

-- `result` of a `decode` that is not nullable, so that it is never left alone.
abbrev pub decoded_value : Option ℕ → ℕ
decoded_value none = 0
decoded_value (some v) = v

-- The loop over the elements, with the rounds that are left.
unfoldable pub decode_elements : IntType → ℕ → Reader (List ℕ)
decode_elements ty zero = return []
decode_elements ty (suc n) = do
  v ← decode_int ty false
  vs ← decode_elements ty n
  return (decoded_value v ∷ vs)

-- `visit(int_vector_mref)`; `none` is `omit()`.
unfoldable pub decode_int_vector : IntType → Bool → Reader (Option (List ℕ))
decode_int_vector ty optional = do
  len ← decode_int uint32 optional
  elim len [ none ↦ return none | some n ↦ decode_elements ty n >>= λ vs. return (some vs) ]

-- A value that is not nullable always has a representation.
plain_Representable : (ty : IntType) (v : ℕ) → Representable ty v false
plain_Representable int16 v = tt
plain_Representable int32 v = tt
plain_Representable uint32 v = tt
plain_Representable int64 v = tt
plain_Representable uint64 v = tt

decode_elements-encode_elements :
    (ty : IntType) (vs rest : List ℕ)
    → All (InRange ty) vs
    → decode_elements ty (length vs) (encode_elements ty vs ++ rest) ≡ ok vs rest
unfolding decode_elements encode_elements
decode_elements-encode_elements ty [] rest h = refl
decode_elements-encode_elements ty (v ∷ vs) rest h =
    rw
      (
        append_assoc (encode_int ty v false false) (encode_elements ty vs) rest,
        (decode_int-encode_int ty v false (encode_elements ty vs ++ rest) h.0
            (plain_Representable ty v)).0,
        decode_elements-encode_elements ty vs rest h.1,
      )
      refl

-- A mandatory vector that holds nothing is sent as one without elements, and comes back so.
mandatory_none :
    (ty : IntType) (rest : List ℕ)
    → decode_int_vector ty false (encode_int_vector ty false none ++ rest) ≡ ok (some []) rest
unfolding decode_int_vector encode_int_vector decode_elements
mandatory_none ty rest = rw ((decode_int-encode_int uint32 0 false rest (omega arith) tt).0) refl

-- A vector of integers of the type, shorter than 2 ^ 32, is read back with its elements in order, and an
-- absent vector of an optional field as absent; a mandatory field that holds no vector is read back as
-- the empty one. The bytes that follow are left.
pub decode_int_vector-encode_int_vector :
    (ty : IntType) (optional : Bool) (vs rest : List ℕ)
    → All (InRange ty) vs
    → length vs < 2 ^ 32
    → (decode_int_vector ty optional (encode_int_vector ty optional (some vs) ++ rest)
        ≡ ok (some vs) rest)
      × (decode_int_vector ty true (encode_int_vector ty true none ++ rest) ≡ ok none rest)
      × (decode_int_vector ty false (encode_int_vector ty false none ++ rest) ≡ ok (some []) rest)
unfolding decode_int_vector encode_int_vector
decode_int_vector-encode_int_vector ty optional vs rest h l = (
  rw
      (
        append_assoc (encode_int uint32 (length vs % 2 ^ 32) false optional) (encode_elements ty vs)
            rest,
        (decode_int-encode_int uint32 (length vs % 2 ^ 32) optional (encode_elements ty vs ++ rest)
            (omega arith) tt).0,
        mod-eq_of_lt l,
        decode_elements-encode_elements ty vs rest h,
      )
      refl,
  rw (decode_null uint32 0 rest) refl,
  mandatory_none ty rest,
)
