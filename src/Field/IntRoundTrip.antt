-- ===== src/Field/IntRoundTrip.antt =====
-- Every operator at an integer field: what the encoder sends, the decoder receives.
use m_fast.Common.{
  ℕ, ◌≡◌, ◌≢◌, refl, sym, ◌∙◌, if-elim, option-elim, subst, Bool, true, false, not, List, [], ◌∷◌,
  ◌++◌, if◌then◌else◌, Bool-cases, inl, inr, arith, ==→eq,
}
use m_fast.Wire.Outcome.{ok}
use m_fast.Wire.IntType.{IntType, int64, InRange}
use m_fast.Wire.IntRoundTrip.{decode_int-encode_int, Representable}
use m_fast.Field.Storage.{
  Operator, operator_none, operator_constant, operator_delta, operator_default, operator_copy,
  operator_increment, operator_tail, Slot, Instruction, BitSource, Yields, absent, omit, assign,
  is_nullable, is_constant, save_previous_value,
}
use m_fast.Field.Decode.{
  extract_into, delta_base_value_of, decode_none, decode_constant, decode_default,
}
use m_fast.Field.Encode.{sent, encode_none, encode_constant, encode_default}
use m_fast.Field.Ints.{
  int_kind, int_is_initial_value, int_is_same, is_increment, next_value, int_delta, add_delta,
  encode_int_delta, decode_int_delta, decode_field, encode_field, decode_by, encode_by,
}
use m_fast.Field.Agreement.{
  nullable_of_absent, SamePrevious, Agrees, received, received-SameField, extract_into-insert_field,
}
use m_fast.Field.Branches.{
  add_delta-int_delta, null_bytes, none_bytes, present_of_mandatory, omit-SameField,
  assigned-SameField, decode_encode_null, constant-SameField, base_same, base-InRange,
  constant_mandatory, constant_set, constant_clear, default_clear, default_absent, default_present,
  delta_null, delta_value,
}
use m_fast.Field.CopyRoundTrip.{
  Delivers, saved_Agrees, read_and_save-Agrees, encode_copy-Delivers, initial-SameField,
}

-- What the encoder takes for granted about a field. A constant is absent or has the initial value; an
-- absent field with the increment operator does not hold the number behind the previous value; the
-- initial and the previous value are of the type; and integers have no tail operator.
abbrev pub Encodable : IntType → Instruction ℕ → Slot ℕ → Slot ℕ → Operator → Type 0
Encodable ty inst pe f operator_constant =
    absent inst f ≡ false → (inst.initial.present ≡ true) × (f.content ≡ inst.initial.content)
Encodable ty inst pe f operator_increment =
    absent inst f ≡ true → f.content ≢ next_value ty pe.content
Encodable ty inst pe f operator_delta = InRange ty pe.content × InRange ty inst.initial.content
Encodable ty inst pe f operator_tail = ⊥
Encodable ty inst pe f op = Unit

module _ (ty : IntType) (src : BitSource) (inst : Instruction ℕ) (f fd pe pd : Slot ℕ)
    (r : InRange ty f.content) (k : Representable ty f.content (is_nullable inst))
    (same : SamePrevious pe pd) where
  open src use {Map, is_next_bit_set}

  none_Delivers :
      is_constant inst.operator ≡ false
      → Delivers src inst f
          (decode_none (int_kind ty) src inst pd fd)
          (encode_none (int_kind ty) inst pe f)
  unfolding encode_none decode_none
  none_Delivers c m m' rest e =
      rw (none_bytes ty inst f c, ← e) (read_and_save-Agrees ty src inst f fd pe pd c r k m rest)

  constant_Delivers :
      Encodable ty inst pe f operator_constant
      → Delivers src inst f
          (decode_constant (int_kind ty) src inst pd fd)
          (encode_constant (int_kind ty) inst pe f)
  unfolding encode_constant
  constant_Delivers h m m' rest y =
      let bits = λ (b a : Bool). Yields src m (if b then not a ∷ [] else []) m' in
      elim (Bool-cases inst.optional) [
        | inr o ↦
            subst
              (λ n.
                Agrees inst f (save_previous_value inst f pe)
                  (decode_constant (int_kind ty) src inst pd fd m rest) n rest)
              (subst (λ b. bits b (absent inst f)) o y)
              (saved_Agrees inst f inst.initial pe pd _ m rest
                (constant-SameField inst f (present_of_mandatory inst f o) h)
                (constant_mandatory ty src inst fd pd m m rest o))
        | inl o ↦ elim (Bool-cases (absent inst f)) [
          | inl a ↦
              saved_Agrees inst f (omit inst fd) pe pd _ m' rest (omit-SameField inst f fd a) (
                constant_clear ty src inst fd pd m m' rest o
                  (subst (bits true) a (subst (λ b. bits b (absent inst f)) o y)))
          | inr a ↦
              saved_Agrees inst f inst.initial pe pd _ m' rest (constant-SameField inst f a h) (
                constant_set ty src inst fd pd m m' rest o
                  (subst (bits true) a (subst (λ b. bits b (absent inst f)) o y)))
        ]
      ]

  default_Delivers :
      is_constant inst.operator ≡ false
      → Delivers src inst f
          (decode_default (int_kind ty) src inst pd fd)
          (encode_default (int_kind ty) inst pe f)
  unfolding encode_default
  default_Delivers c =
      let D = Delivers src inst f (decode_default (int_kind ty) src inst pd fd) in
      if-elim D (int_is_initial_value inst f) _ _
        (λ i m m' rest y.
          saved_Agrees inst f inst.initial pe pd _ m' rest (initial-SameField inst f i)
            (default_clear ty src inst fd pd m m' rest y))
        (λ _.
          if-elim D (absent inst f) _ _
            (λ a m m' rest y.
              let x =
                subst
                  (λ b.
                    extract_into (int_kind ty) src inst fd (b ++ rest)
                    ≡ ok (received inst f fd) rest)
                  (null_bytes ty inst f c a)
                  (extract_into-insert_field ty src inst f fd rest c r k) in
              (
                pd,
                received inst f fd,
                default_absent ty src inst fd pd m m' _ (received inst f fd) rest y x
                    (sym (received-SameField inst f fd).absence ∙ a),
                same,
                received-SameField inst f fd,
              ))
            (λ a m m' rest y.
              saved_Agrees inst f (received inst f fd) pe pd _ m' rest
                (received-SameField inst f fd)
                (default_present ty src inst fd pd m m' _ (received inst f fd) rest y
                  (extract_into-insert_field ty src inst f fd rest c r k)
                  (sym (received-SameField inst f fd).absence ∙ a))))

  delta_Delivers :
      is_constant inst.operator ≡ false
      → Encodable ty inst pe f operator_delta
      → Delivers src inst f (decode_int_delta ty src inst pd fd) (encode_int_delta ty inst pe f)
  unfolding encode_int_delta
  delta_Delivers c h =
      let D = Delivers src inst f (decode_int_delta ty src inst pd fd) in
      if-elim D (absent inst f) _ _
        (λ a m m' rest e. (
          pd,
          omit inst fd,
          rw (← e) (
              delta_null ty src inst fd pd m m _ rest
                (decode_encode_null int64 (is_nullable inst) rest (nullable_of_absent inst f c a))),
          same,
          omit-SameField inst f fd a,
        ))
        (λ a.
          option-elim D (delta_base_value_of 0 inst pe) _ _ (λ _. tt)
            (λ base b m m' rest e.
              let (back, range) =
                add_delta-int_delta ty f.content base r (base-InRange ty inst pe base h.0 h.1 b) in
              rw (← e) (
                saved_Agrees inst f (assign (add_delta ty base (int_delta ty f.content base)) fd) pe
                  pd _ m rest (assigned-SameField inst f fd _ a (sym back))
                  (delta_value ty src inst fd pd m m _ rest (int_delta ty f.content base) base
                    (decode_int-encode_int int64 (int_delta ty f.content base) (is_nullable inst)
                      rest range tt).0
                    (sym (base_same inst pe pd same) ∙ b)))))

module _ (ty : IntType) (inst : Instruction ℕ) (f pe : Slot ℕ) where
  same_sound :
      pe.present ≡ true
      → int_is_same inst f pe ≡ true
      → (absent inst f ≡ false) × (f.content ≡ pe.content)
  unfolding int_is_same
  same_sound p e = ground arith

  increment_sound :
      Encodable ty inst pe f operator_increment
      → is_increment ty inst f pe ≡ true
      → (absent inst f ≡ false) × (f.content ≡ next_value ty pe.content)
  unfolding is_increment
  increment_sound h e = elim (Bool-cases (absent inst f)) [
    | inl a ↦ absurd (h a (==→eq _ _ e))
    | inr a ↦ (a, ==→eq _ _ e)
  ]

module _ (ty : IntType) (src : BitSource) (inst : Instruction ℕ) (f fd pe pd : Slot ℕ)
    (r : InRange ty f.content) (k : Representable ty f.content (is_nullable inst))
    (same : SamePrevious pe pd) where
  pub by_Delivers :
      (op : Operator)
      → inst.operator ≡ op
      → Encodable ty inst pe f op
      → Delivers src inst f (decode_by ty src op inst pd fd) (encode_by ty op inst pe f)
  unfolding decode_by encode_by
  by_Delivers operator_none o h = none_Delivers ty src inst f fd pe pd r k same (rw o)
  by_Delivers operator_constant o h = constant_Delivers ty src inst f fd pe pd r k same h
  by_Delivers operator_delta o h = delta_Delivers ty src inst f fd pe pd r k same (rw o) h
  by_Delivers operator_default o h = default_Delivers ty src inst f fd pe pd r k same (rw o)
  by_Delivers operator_copy o h =
      encode_copy-Delivers ty src (λ v. v) int_is_same inst f fd pe pd (rw o) r k same
        (λ _ p e. same_sound ty inst f pe p e)
  by_Delivers operator_increment o h =
      encode_copy-Delivers ty src (next_value ty) (is_increment ty) inst f fd pe pd (rw o) r k same
        (λ _ _ e. increment_sound ty inst f pe h e)
  by_Delivers operator_tail o h = absurd h

-- An integer field with any operator but tail, sent by the encoder and read by the decoder from the same
-- previous value, comes out as it went in, absent or with its value; the two previous values agree
-- again; and the decoder has taken exactly the bits and the bytes that were sent.
pub decode_field-encode_field :
    (ty : IntType) (src : BitSource) (inst : Instruction ℕ) (f fd pe pd pe' : Slot ℕ)
    (bits : List Bool) (bytes rest : List ℕ) (m m' : src.Map)
    → InRange ty f.content
    → Representable ty f.content (is_nullable inst)
    → SamePrevious pe pd
    → Encodable ty inst pe f inst.operator
    → encode_field ty inst pe f ≡ sent pe' bits bytes
    → Yields src m bits m'
    → Agrees inst f pe' (decode_field ty src inst pd fd m (bytes ++ rest)) m' rest
decode_field-encode_field ty src inst f fd pe pd pe' bits bytes rest m m' r k same h e y =
    subst (Delivers src inst f (decode_field ty src inst pd fd)) e
      (by_Delivers ty src inst f fd pe pd r k same inst.operator refl h) m m' rest y
