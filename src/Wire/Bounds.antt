-- ===== src/Wire/Bounds.antt =====
-- The buffer of `fast_ostream::encode`: `buffer[i]` holds the first of the bytes, so its index is 0 or
-- more as long as they are at most `max_encoded_length`.
use m_fast.Common.{
  ℕ, ◌≤◌, ◌≡◌, ◌≢◌, refl, sym, ◌∙◌, ap, subst, Bool, false, Option, none, some, List, [], ◌∷◌, ◌++◌,
  inl, inr, Bool-cases, ◌==◌, if-elim, if-true, if-false, length, arith, if◌then◌else◌,
}
use m_fast.Wire.IntType.{IntType, int16, int32, uint32, int64, uint64, InRange}
use m_fast.Wire.Istream.{decode_int}
use m_fast.Wire.Ostream.{
  encode_value, encode_int, encode_max_value, max_encoded_length, increment, max_bytes, numeric_max,
}
use mathlib.Core.Option.{none-ne-some, some-injective}
use m_fast.Wire.Outcome.{Error, buffer_underflow, ok, err}
use m_fast.Wire.IntRoundTrip.{decode_int-encode_value}
use m_fast.Wire.Room.{length-encode_value}

abbrev Within : IntType → List ℕ → Type 0
Within ty bytes = (1 ≤ length bytes) × (length bytes ≤ max_encoded_length ty)

one_Within : (ty : IntType) → Within ty (0x80 ∷ [])
one_Within int16 = omega arith
one_Within int32 = omega arith
one_Within uint32 = omega arith
one_Within int64 = omega arith
one_Within uint64 = omega arith

option_Within :
    (ty : IntType) (o : Option (List ℕ)) (bytes : List ℕ)
    → ((b : List ℕ) → o ≡ some b → Within ty b)
    → (o ≡ none → Within ty bytes)
    → Within ty (elim o [ some b ↦ b | none ↦ bytes ])
option_Within ty none bytes s n = n refl
option_Within ty (some b) bytes s n = s b refl

max_value_branch :
    (ty : IntType) (v : ℕ) (bytes : List ℕ)
    → Within ty (max_bytes ty)
    → (if v == numeric_max ty then some (max_bytes ty) else none) ≡ some bytes
    → Within ty bytes
max_value_branch ty v bytes h e = elim (Bool-cases (v == numeric_max ty)) [
  | inl t ↦ subst (Within ty) (some-injective _ _ (sym (if-true _ _ t) ∙ e)) h
  | inr f ↦ absurd (none-ne-some bytes (sym (if-false _ _ f) ∙ e))
]

decode_nothing : (ty : IntType) → decode_int ty false [] ≡ err buffer_underflow
unfolding decode_int
decode_nothing ty = refl

ok_is_not_err : (r : Option ℕ) (rest : List ℕ) (e : Error) → ok r rest ≢ err e
ok_is_not_err r rest e h = cc

nonempty : (bytes : List ℕ) → bytes ≢ [] → 1 ≤ length bytes
nonempty [] h = absurd (h refl)
nonempty (b ∷ bytes) h = omega arith

-- No byte at all is no encoding: the decoder would not read one.
encode_value_nonempty : (ty : IntType) (v : ℕ) → InRange ty v → v ≢ 0 → encode_value ty v ≢ []
encode_value_nonempty ty v h ne e = ok_is_not_err _ _ _ (
    sym (decode_int-encode_value ty false v [] h ne)
    ∙ ap (λ b. decode_int ty false (b ++ [])) e
    ∙ decode_nothing ty)

encode_value-Within : (ty : IntType) (v : ℕ) → InRange ty v → v ≢ 0 → Within ty (encode_value ty v)
encode_value-Within ty v h ne =
    (nonempty (encode_value ty v) (encode_value_nonempty ty v h ne), length-encode_value ty v h ne)

max_value_Within :
    (ty : IntType) (v : ℕ) (bytes : List ℕ) → encode_max_value ty v ≡ some bytes → Within ty bytes
unfolding encode_max_value
max_value_Within int16 v bytes e = absurd (none-ne-some bytes e)
max_value_Within int32 v bytes e = max_value_branch int32 v bytes (omega arith) e
max_value_Within uint32 v bytes e = max_value_branch uint32 v bytes (omega arith) e
max_value_Within int64 v bytes e = max_value_branch int64 v bytes (omega arith) e
max_value_Within uint64 v bytes e = max_value_branch uint64 v bytes (omega arith) e

increment_nonzero :
    (ty : IntType) (v : ℕ)
    → InRange ty v
    → encode_max_value ty v ≡ none
    → InRange ty (increment ty v) × (increment ty v ≢ 0)
unfolding encode_max_value
increment_nonzero int16 v h e = (ground arith, ground arith)
increment_nonzero int32 v h e = (ground arith, ground (arith, e))
increment_nonzero uint32 v h e = (ground arith, ground (arith, e))
increment_nonzero int64 v h e = (ground arith, ground (arith, e))
increment_nonzero uint64 v h e = (ground arith, ground (arith, e))

-- `encode` of an integer hands over at least one and at most `max_encoded_length` bytes, null or not and
-- nullable or not, so the index into its buffer stays 0 or more.
pub length-encode_int :
    (ty : IntType) (v : ℕ) (is_null nullable : Bool)
    → InRange ty v
    → (1 ≤ length (encode_int ty v is_null nullable))
      × (length (encode_int ty v is_null nullable) ≤ max_encoded_length ty)
unfolding encode_int
length-encode_int ty v is_null nullable h =
    if-elim (Within ty) nullable _ _
      (λ _.
        if-elim (Within ty) is_null _ _ (λ _. one_Within ty)
          (λ _. option_Within ty (encode_max_value ty v) _ (max_value_Within ty v) (λ e.
            let (r, ne) = increment_nonzero ty v h e in
            encode_value-Within ty (increment ty v) r ne)))
      (λ _.
        if-elim (Within ty) (v == 0) _ _ (λ _. one_Within ty)
          (λ e. encode_value-Within ty v h (ground (arith, e))))
