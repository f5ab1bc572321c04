-- ===== src/Wire/IntRoundTrip.antt =====
-- `fast_istream::decode` reads back the integers that `fast_ostream::encode` writes.
use m_fast.Common.{
  ℕ, ◌-◌, ◌^◌, ◌≡◌, refl, ◌∙◌, ap, Bool, true, false, not, ◌≢◌, inl, inr, ◌&&◌, none, some, List,
  [], ◌∷◌, ◌++◌, Bool-cases, ◌==◌, ==→eq, if-false, if◌then◌else◌, arith, ◌⊎◌,
}
use m_fast.Wire.Outcome.{ok}
use m_fast.Wire.IntType.{IntType, int16, int32, uint32, int64, uint64, is_positive, InRange}
use m_fast.Wire.Istream.{Temp, finish, decode_int, is_negative}
use m_fast.Wire.Ostream.{
  encode_value, encode_int, encode_max_value, numeric_max, max_bytes, increment, set_stop,
}
use m_fast.Wire.Groups.{decode_int-set_stop}
use m_fast.Wire.ValueGroups.{Spells, value_groups, Spells-value_groups}

-- The word that the caller of `decode` gets for a word read from the stream.
abbrev taken_off : IntType → Bool → ℕ → ℕ
taken_off ty nullable v = if nullable && is_positive ty v then v - 1 else v

finish-value :
    (ty : IntType) (nullable : Bool) (g v : ℕ) (t : Temp)
    → t.value ≡ v
    → InRange ty v
    → v ≢ 0
    → is_negative ty g ≡ not (is_positive ty v)
    → finish ty nullable g t ≡ some (taken_off ty nullable v)
unfolding finish
finish-value ty false g v t e h ne s = ground arith
finish-value int16 true g v t e h ne s = ground arith
finish-value int32 true g v t e h ne s = ground arith
finish-value uint32 true g v t e h ne s = ground arith
finish-value int64 true g v t e h ne s = ground arith
finish-value uint64 true g v t e h ne s = ground arith

decode_Spells :
    (ty : IntType) (nullable : Bool) (v : ℕ) (gs rest : List ℕ)
    → InRange ty v
    → v ≢ 0
    → Spells ty v gs
    → decode_int ty nullable (set_stop gs ++ rest) ≡ ok (some (taken_off ty nullable v)) rest
decode_Spells ty nullable v [] rest h ne s = absurd s
decode_Spells ty nullable v (g ∷ gs) rest h ne s =
    let (t, e, r) = decode_int-set_stop ty nullable g gs rest s.0 in
    e ∙ ap (λ o. ok o rest) (finish-value ty nullable g v t (r ∙ s.2) h ne s.1)

pub decode_int-encode_value :
    (ty : IntType) (nullable : Bool) (v : ℕ) (rest : List ℕ)
    → InRange ty v
    → v ≢ 0
    → decode_int ty nullable (encode_value ty v ++ rest) ≡ ok (some (taken_off ty nullable v)) rest
unfolding encode_value
decode_int-encode_value ty nullable v rest h ne =
    decode_Spells ty nullable v (value_groups ty v) rest h ne (Spells-value_groups ty v h ne)

-- The nullable form of an int16 cannot hold its greatest value: `++value` wraps to the least one.
abbrev pub Representable : IntType → ℕ → Bool → Type 0
Representable int16 v true = v ≢ 2 ^ 15 - 1
Representable ty v nullable = Unit

-- The greatest value has bytes of its own, which the decoder reads back; no other value wraps.
decode-max_bytes :
    (ty : IntType) (rest : List ℕ)
    → ty ≢ int16
    → decode_int ty true (max_bytes ty ++ rest) ≡ ok (some (numeric_max ty)) rest
unfolding decode_int
decode-max_bytes int16 rest h = absurd (h refl)
decode-max_bytes int32 rest h = refl
decode-max_bytes uint32 rest h = refl
decode-max_bytes int64 rest h = refl
decode-max_bytes uint64 rest h = refl

increment_lem :
    (ty : IntType) (v : ℕ)
    → InRange ty v
    → v ≢ numeric_max ty
    → InRange ty (increment ty v) × (increment ty v ≢ 0) × (taken_off ty true (increment ty v) ≡ v)
increment_lem int16 v h k = (ground arith, ground arith, ground arith)
increment_lem int32 v h k = (ground arith, ground arith, ground arith)
increment_lem uint32 v h k = (ground arith, ground arith, ground arith)
increment_lem int64 v h k = (ground arith, ground arith, ground arith)
increment_lem uint64 v h k = (ground arith, ground arith, ground arith)

encode_max_value_cases :
    (ty : IntType) (v : ℕ)
    → Representable ty v true
    → ((ty ≢ int16) × (v ≡ numeric_max ty) × (encode_max_value ty v ≡ some (max_bytes ty)))
      ⊎ ((v ≢ numeric_max ty) × (encode_max_value ty v ≡ none))
unfolding encode_max_value
encode_max_value_cases int16 v k = inr (k, refl)
encode_max_value_cases int32 v k = ground arith
encode_max_value_cases uint32 v k = ground arith
encode_max_value_cases int64 v k = ground arith
encode_max_value_cases uint64 v k = ground arith

decode_int-encode_int_nullable :
    (ty : IntType) (v : ℕ) (rest : List ℕ)
    → InRange ty v
    → Representable ty v true
    → decode_int ty true (encode_int ty v false true ++ rest) ≡ ok (some v) rest
unfolding encode_int
decode_int-encode_int_nullable ty v rest h k = elim (encode_max_value_cases ty v k) [
  | inl (n, e, m) ↦ rw (m, e) (decode-max_bytes ty rest n)
  | inr (n, m) ↦
      let (r, ne, back) = increment_lem ty v h n in
      rw m (
        decode_int-encode_value ty true (increment ty v) rest r ne
        ∙ ap (λ w. ok (some w) rest) back)
]

decode_stop : (ty : IntType) (rest : List ℕ) → decode_int ty false (0x80 ∷ rest) ≡ ok (some 0) rest
unfolding decode_int
decode_stop int16 rest = refl
decode_stop int32 rest = refl
decode_stop uint32 rest = refl
decode_stop int64 rest = refl
decode_stop uint64 rest = refl

pub decode_null :
    (ty : IntType) (v : ℕ) (rest : List ℕ)
    → decode_int ty true (encode_int ty v true true ++ rest) ≡ ok none rest
unfolding decode_int encode_int
decode_null int16 v rest = refl
decode_null int32 v rest = refl
decode_null uint32 v rest = refl
decode_null int64 v rest = refl
decode_null uint64 v rest = refl

decode_int-encode_int_plain :
    (ty : IntType) (v : ℕ) (rest : List ℕ)
    → InRange ty v
    → decode_int ty false (encode_int ty v false false ++ rest) ≡ ok (some v) rest
unfolding encode_int
decode_int-encode_int_plain ty v rest h = elim (Bool-cases (v == 0)) [
  | inl e ↦ rw (e, ==→eq v 0 e) (decode_stop ty rest)
  | inr e ↦
      ap (λ bytes. decode_int ty false (bytes ++ rest)) (if-false (0x80 ∷ []) (encode_value ty v) e)
      ∙ decode_int-encode_value ty false v rest h (ground arith)
]

-- Every value of the five integer types, in the nullable form and in the plain one, is read back, and
-- so is a null; the bytes that follow are left. The greatest int16 in the nullable form is excepted.
pub decode_int-encode_int :
    (ty : IntType) (v : ℕ) (nullable : Bool) (rest : List ℕ)
    → InRange ty v
    → Representable ty v nullable
    → (decode_int ty nullable (encode_int ty v false nullable ++ rest) ≡ ok (some v) rest)
      × (decode_int ty true (encode_int ty v true true ++ rest) ≡ ok none rest)
decode_int-encode_int ty v true rest h k =
    (decode_int-encode_int_nullable ty v rest h k, decode_null ty v rest)
decode_int-encode_int ty v false rest h k =
    (decode_int-encode_int_plain ty v rest h, decode_null ty v rest)
