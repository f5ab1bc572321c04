-- ===== src/Wire/Groups.antt =====
-- Groups of seven bits: what the decoding loop makes of a list of groups, and what list the encoding
-- loop of `fast_ostream::encode` writes.
use m_fast.Common.{
  ℕ, zero, suc, ◌+◌, ◌*◌, ◌/◌, ◌%◌, ◌^◌, ◌≤◌, ◌<◌, ◌≡◌, refl, ◌∙◌, ap, Bool, true, false, inl, inr,
  List, [], ◌∷◌, ◌++◌, All, Bool-cases, ◌==◌, ==→eq, arith,
}
use m_fast.Wire.Outcome.{ok}
use native.Mathlib.Nat.{pow-suc}
use m_fast.Wire.IntType.{IntType, int16, int32, uint32, int64, uint64, temp_modulus}
use m_fast.Wire.Istream.{
  has_stop, Temp, shift_left, or_group, first_temp, decode_groups, finish, decode_int,
}
use m_fast.Wire.Ostream.{shift_right, encode_groups, set_stop, or_stop}

-- The number that a word of modulus `m` holds after the groups have been shifted in.
abbrev pub read : ℕ → ℕ → List ℕ → ℕ
read m t [] = t
read m t (g ∷ gs) = read m (t * 128 % m + g) gs

abbrev pub IsGroup : ℕ → Type 0
IsGroup g = g < 128

value-shift_left :
    (ty : IntType) (t : Temp) (g : ℕ)
    → (or_group (shift_left ty t) g).value ≡ t.value * 128 % temp_modulus ty + g % 128
unfolding shift_left or_group
value-shift_left int16 t g = refl
value-shift_left int32 t g = refl
value-shift_left uint32 t g = refl
value-shift_left int64 t g = refl
value-shift_left uint64 t g = refl

-- The stop bit is off in a group, on after `or_stop`, and no other bit is changed.
pub has_stop_group : (g : ℕ) → IsGroup g → has_stop g ≡ false
has_stop_group g h = ground arith

pub has_stop-or_stop : (g : ℕ) → IsGroup g → has_stop (or_stop g) ≡ true
has_stop-or_stop g h = ground arith

pub or_stop_bits : (g : ℕ) → IsGroup g → or_stop g ≡ g + 128
or_stop_bits g h = ground arith

or_group-or_stop : (t : Temp) (g : ℕ) → IsGroup g → or_group t (or_stop g) ≡ or_group t g
unfolding or_group
or_group-or_stop t g h = rw (or_stop_bits g h) (ground arith)

first_temp-or_stop :
    (ty : IntType) (g : ℕ) → IsGroup g → first_temp ty (or_stop g) ≡ first_temp ty g
unfolding first_temp
first_temp-or_stop ty g h = rw (or_stop_bits g h) (ground arith)

finish-or_stop :
    (ty : IntType) (nullable : Bool) (g : ℕ) (t : Temp)
    → IsGroup g
    → finish ty nullable (or_stop g) t ≡ finish ty nullable g t
unfolding finish
finish-or_stop ty nullable g t h = rw (or_stop_bits g h) (ground arith)

value-round :
    (ty : IntType) (t : Temp) (g : ℕ)
    → IsGroup g
    → (or_group (shift_left ty t) g).value ≡ t.value * 128 % temp_modulus ty + g
value-round ty t g h = value-shift_left ty t g ∙ omega arith

-- The decoding loop over groups whose last one carries the stop bit.
pub decode_groups-set_stop :
    (ty : IntType) (t : Temp) (g : ℕ) (gs rest : List ℕ)
    → All IsGroup (g ∷ gs)
    → (t' : Temp) × (decode_groups ty t (set_stop (g ∷ gs) ++ rest) ≡ ok t' rest)
      × (t'.value ≡ read (temp_modulus ty) t.value (g ∷ gs))
unfolding decode_groups set_stop
decode_groups-set_stop ty t g [] rest h = (
  or_group (shift_left ty t) g,
  rw (has_stop-or_stop g h.0, or_group-or_stop (shift_left ty t) g h.0),
  value-round ty t g h.0,
)
decode_groups-set_stop ty t g (g' ∷ gs) rest h =
    let (t', e, v) = decode_groups-set_stop ty (or_group (shift_left ty t) g) g' gs rest h.1 in
    (
      t',
      rw (has_stop_group g h.0) e,
      v ∙ ap (λ w. read (temp_modulus ty) w (g' ∷ gs)) (value-round ty t g h.0),
    )

-- `decode` over groups whose last one carries the stop bit.
pub decode_int-set_stop :
    (ty : IntType) (nullable : Bool) (g : ℕ) (gs rest : List ℕ)
    → All IsGroup (g ∷ gs)
    → (t : Temp) × (decode_int ty nullable (set_stop (g ∷ gs) ++ rest)
        ≡ ok (finish ty nullable g t) rest)
      × (t.value ≡ read (temp_modulus ty) (first_temp ty g).value gs)
unfolding decode_int set_stop
decode_int-set_stop ty nullable g [] rest h = (
  first_temp ty g,
  rw (
    has_stop-or_stop g h.0,
    first_temp-or_stop ty g h.0,
    finish-or_stop ty nullable g (first_temp ty g) h.0,
  ),
  refl,
)
decode_int-set_stop ty nullable g (g' ∷ gs) rest h =
    let (t, e, v) = decode_groups-set_stop ty (first_temp ty g) g' gs rest h.1 in
    (t, rw (has_stop_group g h.0, e), v)

-- One round of the encoding loop undoes one round of the decoding loop: `m` is the modulus of the
-- decoding word, `bound` limits the encoded word, and `rank` says how far a word is from the end.
module _ (m bound mask nsb : ℕ) (rank : ℕ → ℕ)
    (undo : (u : ℕ) → u < bound → shift_right mask u * 128 % m + u % 128 ≡ u)
    (stays : (u : ℕ) → u < bound → shift_right mask u < bound)
    (falls : (u : ℕ) → u < bound → rank (shift_right mask u) ≤ rank u / 128)
    (ends : (u : ℕ) → u < bound → rank u ≡ 0 → u ≡ nsb) where
  fewer : (v i : ℕ) → v < bound → rank v < 128 ^ suc i → rank (shift_right mask v) < 128 ^ i
  fewer v i h r = omega (arith, falls v h, pow-suc 128 i)

  pub read-encode_groups :
      (i v : ℕ) (buffer : List ℕ)
      → v < bound
      → rank v < 128 ^ i
      → read m nsb (encode_groups i mask nsb v buffer) ≡ read m v buffer
  unfolding encode_groups
  read-encode_groups zero v buffer h r = rw (ends v h (omega arith))
  read-encode_groups (suc i) v buffer h r = elim (Bool-cases (v == nsb)) [
    | inl e ↦ rw (e, ==→eq v nsb e)
    | inr e ↦ rw e (
        read-encode_groups i (shift_right mask v) ((v % 128) ∷ buffer) (stays v h) (fewer v i h r)
        ∙ ap (λ w. read m w buffer) (undo v h))
  ]
