-- ===== src/Wire/ValueGroups.antt =====
-- The groups that `fast_ostream::encode` writes for an integer, as the decoder reads them.
use m_fast.Common.{
  ℕ, zero, suc, ◌+◌, ◌-◌, ◌*◌, ◌/◌, ◌%◌, ◌^◌, ◌≤◌, ◌<◌, ◌≡◌, refl, sym, ◌∙◌, ap, true, false, not,
  ◌≢◌, inl, inr, List, [], ◌∷◌, All, Bool-cases, ◌==◌, arith,
}
use m_fast.Wire.IntType.{
  IntType, int16, int32, uint32, int64, uint64, modulus, temp_modulus, is_signed, is_positive,
  InRange,
}
use m_fast.Wire.Istream.{has_sign, first_temp, is_negative}
use m_fast.Wire.Ostream.{
  shift_right, encode_groups, pad_sign, max_encoded_length, padding_mask, no_significant_bits,
  gt_zero,
}
use m_fast.Wire.Groups.{read, IsGroup, read-encode_groups}

-- The facts about the words of each type that the proofs need.
temp_undo :
    (ty : IntType) (u : ℕ) → u < modulus ty → shift_right 0 u * 128 % temp_modulus ty + u % 128 ≡ u
temp_undo int16 u h = omega arith
temp_undo int32 u h = omega arith
temp_undo uint32 u h = omega arith
temp_undo int64 u h = omega arith
temp_undo uint64 u h = omega arith

abbrev sign_mask : IntType → ℕ
sign_mask ty = padding_mask ty false

negative_round :
    (ty : IntType) (u : ℕ)
    → u < modulus ty
    → (shift_right (sign_mask ty) u * 128 % modulus ty + u % 128 ≡ u)
      × (shift_right (sign_mask ty) u < modulus ty)
      × (modulus ty - 1 - shift_right (sign_mask ty) u ≤ (modulus ty - 1 - u) / 128)
negative_round int16 u h = omega arith
negative_round int32 u h = omega arith
negative_round uint32 u h = omega arith
negative_round int64 u h = omega arith
negative_round uint64 u h = omega arith

modulus-le-pow : (ty : IntType) → modulus ty ≤ 128 ^ max_encoded_length ty
modulus-le-pow int16 = omega arith
modulus-le-pow int32 = omega arith
modulus-le-pow uint32 = omega arith
modulus-le-pow int64 = omega arith
modulus-le-pow uint64 = omega arith

-- What the loop writes for a value above 0, and for one below.
read_positive :
    (ty : IntType) (i v : ℕ)
    → InRange ty v
    → v < 128 ^ i
    → read (temp_modulus ty) 0 (encode_groups i 0 0 v []) ≡ v
read_positive ty i v h r =
    read-encode_groups (temp_modulus ty) (modulus ty) 0 0 (λ u. u) (temp_undo ty)
      (λ u k. omega arith) (λ u k. omega arith) (λ u k e. e) i v [] h r

read_negative :
    (ty : IntType) (i v : ℕ)
    → InRange ty v
    → v < 128 ^ i
    → modulus ty ≤ 128 ^ i
    → read (modulus ty) (modulus ty - 1) (encode_groups i (sign_mask ty) (modulus ty - 1) v []) ≡ v
read_negative ty i v h r f =
    read-encode_groups (modulus ty) (modulus ty) (sign_mask ty) (modulus ty - 1)
      (λ u. modulus ty - 1 - u) (λ u k. (negative_round ty u k).0)
      (λ u k. (negative_round ty u k).1) (λ u k. (negative_round ty u k).2) (λ u k e. omega arith) i
      v [] h (omega arith)

encode_groups-IsGroup :
    (i mask nsb v : ℕ) (buffer : List ℕ)
    → All IsGroup buffer
    → All IsGroup (encode_groups i mask nsb v buffer)
unfolding encode_groups
encode_groups-IsGroup zero mask nsb v buffer h = h
encode_groups-IsGroup (suc i) mask nsb v buffer h = elim (Bool-cases (v == nsb)) [
  | inl e ↦ rw e h
  | inr e ↦
      rw e (
        encode_groups-IsGroup i mask nsb (shift_right mask v) ((v % 128) ∷ buffer) (omega arith, h))
]

-- The first byte decides the word that the decoder starts from.
first_temp_positive :
    (ty : IntType) (g : ℕ)
    → IsGroup g
    → is_negative ty g ≡ false
    → (first_temp ty g).value ≡ 0 * 128 % temp_modulus ty + g
unfolding first_temp
first_temp_positive int16 g h e = ground arith
first_temp_positive int32 g h e = ground arith
first_temp_positive uint32 g h e = ground arith
first_temp_positive int64 g h e = ground arith
first_temp_positive uint64 g h e = ground arith

first_temp_negative :
    (ty : IntType) (g : ℕ)
    → IsGroup g
    → is_negative ty g ≡ true
    → (first_temp ty g).value ≡ (modulus ty - 1) * 128 % modulus ty + g
unfolding first_temp
first_temp_negative int16 g h e = ground arith
first_temp_negative int32 g h e = ground arith
first_temp_negative uint32 g h e = ground arith
first_temp_negative int64 g h e = ground arith
first_temp_negative uint64 g h e = ground arith

temp_modulus_signed :
    (ty : IntType) (g : ℕ) → is_negative ty g ≡ true → temp_modulus ty ≡ modulus ty
temp_modulus_signed int16 g e = refl
temp_modulus_signed int32 g e = refl
temp_modulus_signed uint32 g e = cc
temp_modulus_signed int64 g e = refl
temp_modulus_signed uint64 g e = refl

is_signed_negative : (ty : IntType) (v : ℕ) → is_positive ty v ≡ false → is_signed ty ≡ true
is_signed_negative int16 v e = refl
is_signed_negative int32 v e = refl
is_signed_negative uint32 v e = cc
is_signed_negative int64 v e = refl
is_signed_negative uint64 v e = cc

pub ne_zero : (v : ℕ) → v ≢ 0 → (v == 0) ≡ false
ne_zero v ne = ground arith

-- A list of groups that the decoder reads as `v`, from its first byte on.
abbrev pub Spells : IntType → ℕ → List ℕ → Type 0
Spells ty v [] = ⊥
Spells ty v (g ∷ gs) =
    All IsGroup (g ∷ gs)
    × (is_negative ty g ≡ not (is_positive ty v))
    × (read (temp_modulus ty) (first_temp ty g).value gs ≡ v)

Spells-cons_positive :
    (ty : IntType) (v g : ℕ) (gs : List ℕ)
    → is_positive ty v ≡ true
    → is_negative ty g ≡ false
    → All IsGroup (g ∷ gs)
    → read (temp_modulus ty) 0 (g ∷ gs) ≡ v
    → Spells ty v (g ∷ gs)
Spells-cons_positive ty v g gs p n h r =
    (h, rw p n, ap (λ t. read (temp_modulus ty) t gs) (first_temp_positive ty g h.0 n) ∙ r)

Spells-cons_negative :
    (ty : IntType) (v g : ℕ) (gs : List ℕ)
    → is_positive ty v ≡ false
    → is_negative ty g ≡ true
    → All IsGroup (g ∷ gs)
    → read (modulus ty) (modulus ty - 1) (g ∷ gs) ≡ v
    → Spells ty v (g ∷ gs)
Spells-cons_negative ty v g gs p n h r = (
  h,
  rw p n,
  rw (temp_modulus_signed ty g n)
      (ap (λ t. read (modulus ty) t gs) (first_temp_negative ty g h.0 n) ∙ r),
)

-- The sign byte in front changes no value.
read_zero : (m : ℕ) (gs : List ℕ) → read m 0 (0 ∷ gs) ≡ read m 0 gs
read_zero m gs = ap (λ t. read m t gs) (omega arith)

read_ones :
    (ty : IntType) (gs : List ℕ)
    → read (modulus ty) (modulus ty - 1) (0x7F ∷ gs) ≡ read (modulus ty) (modulus ty - 1) gs
read_ones int16 gs = refl
read_ones int32 gs = refl
read_ones uint32 gs = refl
read_ones int64 gs = refl
read_ones uint64 gs = refl

Spells-pad_positive :
    (ty : IntType) (v : ℕ) (gs : List ℕ)
    → is_positive ty v ≡ true
    → v ≢ 0
    → All IsGroup gs
    → read (temp_modulus ty) 0 gs ≡ v
    → Spells ty v (pad_sign ty true gs)
unfolding pad_sign
Spells-pad_positive ty v [] p ne h r = absurd (ne (sym r))
Spells-pad_positive ty v (g ∷ gs) p ne h r = elim (Bool-cases (is_signed ty)) [
  | inl e ↦ elim (Bool-cases (has_sign g)) [
    | inl n ↦
        rw (e, n)
          (Spells-cons_positive ty v 0 (g ∷ gs) p (rw e) (omega arith, h)
            (read_zero (temp_modulus ty) (g ∷ gs) ∙ r))
    | inr n ↦ rw (e, n) (Spells-cons_positive ty v g gs p (rw (e, n)) h r)
  ]
  | inr e ↦ rw e (Spells-cons_positive ty v g gs p (rw e) h r)
]

Spells-pad_negative :
    (ty : IntType) (v : ℕ) (gs : List ℕ)
    → is_positive ty v ≡ false
    → All IsGroup gs
    → read (modulus ty) (modulus ty - 1) gs ≡ v
    → Spells ty v (pad_sign ty false gs)
unfolding pad_sign
Spells-pad_negative ty v [] p h r = rw (is_signed_negative ty v p) (
    Spells-cons_negative ty v 0x7F [] p (rw (is_signed_negative ty v p)) (omega arith)
      (read_ones ty [] ∙ r))
Spells-pad_negative ty v (g ∷ gs) p h r = elim (Bool-cases (has_sign g)) [
  | inl n ↦
      rw (is_signed_negative ty v p, n)
        (Spells-cons_negative ty v g gs p (rw (is_signed_negative ty v p, n)) h r)
  | inr n ↦
      rw (is_signed_negative ty v p, n)
        (Spells-cons_negative ty v 0x7F (g ∷ gs) p (rw (is_signed_negative ty v p)) (omega arith, h)
          (read_ones ty (g ∷ gs) ∙ r))
]

-- What `encode` writes from `bool positive` on, up to the stop bit.
abbrev pub value_groups : IntType → ℕ → List ℕ
value_groups ty v = pad_sign ty (is_positive ty v) (
    encode_groups (max_encoded_length ty) (padding_mask ty (gt_zero ty v))
      (no_significant_bits ty (gt_zero ty v)) v [])

pub Spells-value_groups :
    (ty : IntType) (v : ℕ) → InRange ty v → v ≢ 0 → Spells ty v (value_groups ty v)
Spells-value_groups ty v h ne = elim (Bool-cases (is_positive ty v)) [
  | inl p ↦
      rw (p, ne_zero v ne)
        (Spells-pad_positive ty v _ p ne (encode_groups-IsGroup _ _ _ _ [] tt)
          (read_positive ty _ v h (omega (arith, modulus-le-pow ty))))
  | inr p ↦ rw p (
      Spells-pad_negative ty v _ p (encode_groups-IsGroup _ _ _ _ [] tt)
        (read_negative ty _ v h (omega (arith, modulus-le-pow ty)) (modulus-le-pow ty)))
]
