-- ===== src/Field/Branches.antt =====
-- What the decoder's operators do on each branch, and what both sides of the codec agree on there.
use m_fast.Common.{
  ℕ, ◌≡◌, sym, ◌∙◌, Bool, true, false, none, some, List, [], ◌∷◌, ◌++◌, if◌then◌else◌, Bool-cases,
  inl, inr, arith, if-true, if-false,
}
use m_fast.Wire.Outcome.{ok}
use m_fast.Wire.IntType.{IntType, int16, int32, uint32, int64, uint64, InRange}
use m_fast.Wire.Ostream.{encode_null, encode_int}
use m_fast.Wire.Istream.{decode_int}
use m_fast.Wire.IntRoundTrip.{decode_null}
use m_fast.Field.Storage.{
  Slot, Instruction, BitSource, Yields, absent, omit, assign, is_nullable, is_constant,
}
use m_fast.Field.Decode.{
  Step, done, extract_into, delta_base_value_of, decode_constant, decode_default,
}
use m_fast.Field.Encode.{insert_field}
use m_fast.Field.Ints.{
  int_kind, int_save_to, int_to_initial_value, set_content, int_delta, add_delta, decode_int_delta,
}
use m_fast.Field.Agreement.{nullable_of_absent, SamePrevious, SameField}

-- A difference in the type of the field, added back.
pub add_delta-int_delta :
    (ty : IntType) (v base : ℕ)
    → InRange ty v
    → InRange ty base
    → (add_delta ty base (int_delta ty v base) ≡ v) × InRange int64 (int_delta ty v base)
unfolding set_content int_delta
add_delta-int_delta int16 v base h b = ground arith
add_delta-int_delta int32 v base h b = ground arith
add_delta-int_delta uint32 v base h b = ground arith
add_delta-int_delta int64 v base h b = ground arith
add_delta-int_delta uint64 v base h b = ground arith

-- A null that an operator writes by `encode_null` is what `stream << cref` would write.
pub null_bytes :
    (ty : IntType) (inst : Instruction ℕ) (f : Slot ℕ)
    → is_constant inst.operator ≡ false
    → absent inst f ≡ true
    → insert_field (int_kind ty) inst f ≡ encode_null
unfolding encode_int
null_bytes ty inst f c a = rw (a, nullable_of_absent inst f c a)

pub none_bytes :
    (ty : IntType) (inst : Instruction ℕ) (f : Slot ℕ)
    → is_constant inst.operator ≡ false
    → (if absent inst f then encode_null else insert_field (int_kind ty) inst f)
      ≡ insert_field (int_kind ty) inst f
none_bytes ty inst f c = elim (Bool-cases (absent inst f)) [
  | inl a ↦ if-true _ _ a ∙ sym (null_bytes ty inst f c a)
  | inr a ↦ if-false _ _ a
]

pub present_of_mandatory :
    (inst : Instruction ℕ) (f : Slot ℕ) → inst.optional ≡ false → absent inst f ≡ false
present_of_mandatory inst f o = rw o

pub omit-SameField :
    (inst : Instruction ℕ) (f fd : Slot ℕ) → absent inst f ≡ true → SameField inst f (omit inst fd)
omit-SameField inst f fd a = ground arith

pub assigned-SameField :
    (inst : Instruction ℕ) (f fd : Slot ℕ) (v : ℕ)
    → absent inst f ≡ false
    → f.content ≡ v
    → SameField inst f (assign v fd)
assigned-SameField inst f fd v a e = ground arith

pub decode_encode_null :
    (ty : IntType) (nullable : Bool) (rest : List ℕ)
    → nullable ≡ true
    → decode_int ty nullable (encode_null ++ rest) ≡ ok none rest
unfolding encode_int
decode_encode_null ty nullable rest e = rw e (decode_null ty 0 rest)

pub constant-SameField :
    (inst : Instruction ℕ) (f : Slot ℕ)
    → absent inst f ≡ false
    → (absent inst f ≡ false → (inst.initial.present ≡ true) × (f.content ≡ inst.initial.content))
    → SameField inst f inst.initial
constant-SameField inst f a h = ground (arith, h a)

-- Both sides start from the same base value, and it is of the type.
pub base_same :
    (inst : Instruction ℕ) (pe pd : Slot ℕ)
    → SamePrevious pe pd
    → delta_base_value_of 0 inst pe ≡ delta_base_value_of 0 inst pd
unfolding delta_base_value_of
base_same inst pe pd h = ground (arith, h.defined, h.present, h.content)

pub base-InRange :
    (ty : IntType) (inst : Instruction ℕ) (pe : Slot ℕ) (base : ℕ)
    → InRange ty pe.content
    → InRange ty inst.initial.content
    → delta_base_value_of 0 inst pe ≡ some base
    → InRange ty base
unfolding delta_base_value_of
base-InRange int16 inst pe base h i e = ground arith
base-InRange int32 inst pe base h i e = ground arith
base-InRange uint32 inst pe base h i e = ground arith
base-InRange int64 inst pe base h i e = ground arith
base-InRange uint64 inst pe base h i e = ground arith

-- What the decoder does on each branch of the constant and default operators.
module _ (ty : IntType) (src : BitSource) (inst : Instruction ℕ) (fd pd : Slot ℕ) (m m' : src.Map)
    (s : List ℕ) where
  abbrev pub initial_taken : src.Map → Step ℕ src.Map
  initial_taken n = done (int_save_to inst inst.initial pd) inst.initial n s

  pub constant_mandatory :
      inst.optional ≡ false → decode_constant (int_kind ty) src inst pd fd m s ≡ initial_taken m
  unfolding decode_constant int_to_initial_value
  constant_mandatory o = rw o

  pub constant_set :
      inst.optional ≡ true
      → Yields src m (true ∷ []) m'
      → decode_constant (int_kind ty) src inst pd fd m s ≡ initial_taken m'
  unfolding decode_constant int_to_initial_value
  constant_set o (h, e) = rw (o, h, e)

  pub constant_clear :
      inst.optional ≡ true
      → Yields src m (false ∷ []) m'
      → decode_constant (int_kind ty) src inst pd fd m s
        ≡ done (int_save_to inst (omit inst fd) pd) (omit inst fd) m' s
  unfolding decode_constant
  constant_clear o (h, e) = rw (o, h, e)

  pub default_clear :
      Yields src m (false ∷ []) m'
      → decode_default (int_kind ty) src inst pd fd m s ≡ initial_taken m'
  unfolding decode_default int_to_initial_value
  default_clear (h, e) = rw (h, e)

  pub default_absent :
      (g : Slot ℕ) (rest : List ℕ)
      → Yields src m (true ∷ []) m'
      → extract_into (int_kind ty) src inst fd s ≡ ok g rest
      → absent inst g ≡ true
      → decode_default (int_kind ty) src inst pd fd m s ≡ done pd g m' rest
  unfolding decode_default
  default_absent g rest (h, e) x a = rw (h, e, x, a)

  pub default_present :
      (g : Slot ℕ) (rest : List ℕ)
      → Yields src m (true ∷ []) m'
      → extract_into (int_kind ty) src inst fd s ≡ ok g rest
      → absent inst g ≡ false
      → decode_default (int_kind ty) src inst pd fd m s ≡ done (int_save_to inst g pd) g m' rest
  unfolding decode_default
  default_present g rest (h, e) x a = rw (h, e, x, a)

  -- The delta operator.
  pub delta_null :
      (rest : List ℕ)
      → decode_int int64 (is_nullable inst) s ≡ ok none rest
      → decode_int_delta ty src inst pd fd m s ≡ done pd (omit inst fd) m rest
  unfolding decode_int_delta
  delta_null rest e = rw e

  pub delta_value :
      (rest : List ℕ) (d base : ℕ)
      → decode_int int64 (is_nullable inst) s ≡ ok (some d) rest
      → delta_base_value_of 0 inst pd ≡ some base
      → let g = assign (add_delta ty base d) fd in
        decode_int_delta ty src inst pd fd m s ≡ done (int_save_to inst g pd) g m rest
  unfolding decode_int_delta
  delta_value rest d base e b = ground (arith, e, b)
