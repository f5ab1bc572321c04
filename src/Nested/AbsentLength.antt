-- ===== src/Nested/AbsentLength.antt =====
-- The length of a sequence that is absent, which the encoder sends without the field operator.
use m_fast.Common.{
  ℕ, ◌≡◌, refl, sym, ap, ◌∙◌, subst, Bool, Option, some, true, false, List, [], ◌∷◌, ◌++◌, ◌==◌,
  ==→eq, append-nil, if◌then◌else◌, if-elim, arith,
}
use mathlib.Core.Bool.{true≢false}
use m_fast.Wire.IntType.{uint32, InRange}
use m_fast.Wire.IntRoundTrip.{Representable}
use m_fast.Wire.Ostream.{encode_null}
use m_fast.Field.Storage.{
  Operator, operator_none, operator_constant, operator_delta, operator_default, operator_copy,
  operator_increment, operator_tail, Slot, Instruction, Yields, absent, is_nullable,
  save_previous_value,
}
use m_fast.Field.Encode.{sent, encode_none, encode_constant}
use m_fast.Field.Ints.{encode_by}
use m_fast.Field.Agreement.{SamePrevious}
use m_fast.Field.IntRoundTrip.{Encodable, decode_field-encode_field}
use mathlib.Core.Option.{some-injective}
use m_fast.PresenceMap.Encoder.{EncoderMap}
use m_fast.PresenceMap.EncoderRun.{set_bits}
use m_fast.PresenceMap.Decoder.{DecoderMap, map_source}
use m_fast.Message.Template.{FieldInstruction, Dictionary, save_at, has_pmap_bit}
use m_fast.Message.Encoder.{encoded, and_then, put_bits, put_bytes, with_map}
use m_fast.Nested.Template.{length_instruction}
use m_fast.Nested.Encoder.{new_storage, sends_null}
use m_fast.Nested.Decoder.{Reader, got, read_leaf, from_step, bind, give, then_read}
use m_fast.Nested.Plan.{planned, SameShared, AbsentReady, AbsentOperator, absent_bits}
use m_fast.Nested.Carries.{Carries, in_state}
use m_fast.Nested.Leaf.{SamePrevious-refl}

-- What is written in place of the length.
abbrev pub null_of : Operator → List ℕ
null_of op = if sends_null op then encode_null else []

absent-new_storage : (inst : Instruction ℕ) → inst.optional ≡ true → absent inst new_storage ≡ true
absent-new_storage inst o = rw o refl

-- The field operator would send the same bits and bytes.
absent_sent :
    (shared : ℕ → Bool) (key : ℕ) (op : Operator) (inst : Instruction ℕ) (prev : Slot ℕ)
    → inst.operator ≡ op
    → inst.optional ≡ true
    → AbsentOperator shared key op
    → (p : Slot ℕ) × (encode_by uint32 op inst prev new_storage
        ≡ sent p (if has_pmap_bit inst then false ∷ [] else []) (null_of op))
unfolding encode_by encode_none encode_constant
absent_sent shared key operator_none inst prev o opt h =
    (save_previous_value inst new_storage prev, rw (o, opt) refl)
absent_sent shared key operator_constant inst prev o opt h =
    (save_previous_value inst new_storage prev, rw (o, opt) refl)
absent_sent shared key operator_delta inst prev o opt h = absurd h
absent_sent shared key operator_default inst prev o opt h = absurd h
absent_sent shared key operator_copy inst prev o opt h = absurd h
absent_sent shared key operator_increment inst prev o opt h = absurd h
absent_sent shared key operator_tail inst prev o opt h = absurd h

absent_Encodable :
    (shared : ℕ → Bool) (key : ℕ) (op : Operator) (inst : Instruction ℕ) (prev : Slot ℕ)
    → inst.optional ≡ true
    → AbsentOperator shared key op
    → Encodable uint32 inst prev new_storage op
absent_Encodable shared key operator_none inst prev opt h = tt
absent_Encodable shared key operator_constant inst prev opt h =
    λ a. absurd (true≢false (sym (absent-new_storage inst opt) ∙ a))
absent_Encodable shared key operator_delta inst prev opt h = absurd h
absent_Encodable shared key operator_default inst prev opt h = absurd h
absent_Encodable shared key operator_copy inst prev opt h = absurd h
absent_Encodable shared key operator_increment inst prev opt h = absurd h
absent_Encodable shared key operator_tail inst prev opt h = absurd h

unshared :
    (shared : ℕ → Bool) (key : ℕ) (op : Operator)
    → AbsentOperator shared key op
    → shared key ≡ false
unshared shared key operator_none h = h
unshared shared key operator_constant h = h
unshared shared key operator_delta h = absurd h
unshared shared key operator_default h = absurd h
unshared shared key operator_copy h = absurd h
unshared shared key operator_increment h = absurd h
unshared shared key operator_tail h = absurd h

-- A previous value at a key that is not shared.
unshared-SameShared :
    (shared : ℕ → Bool) (key : ℕ) (p : Slot ℕ) (de dd : Dictionary)
    → shared key ≡ false
    → SameShared shared de dd
    → SameShared shared de (save_at key p dd)
unshared-SameShared shared key p de dd u same j s =
    if-elim (SamePrevious (de j)) (j == key) _ _
      (λ t. absurd (true≢false (sym (subst (λ k. shared k ≡ true) (==→eq j key t) s) ∙ u)))
      (λ _. same j s)

null_InRange : InRange uint32 0
null_InRange = omega arith

null_Representable : (nullable : Bool) → Representable uint32 0 nullable
null_Representable nullable = tt

module _ (shared : ℕ → Bool) (i : FieldInstruction) (de : Dictionary)
    (ready : AbsentReady shared i) where
  abbrev op : Operator
  op = i.instruction.operator

  -- The decoder finds the length absent.
  pub absent_length :
      (dd : Dictionary) (dm dm' : Option DecoderMap) (rest : List ℕ)
      → SameShared shared de dd
      → Yields map_source dm (absent_bits i) dm'
      → (dd' : Dictionary) × (f : Slot ℕ) × (read_leaf
            (length_instruction i)
            new_storage
            dd
            dm
            (null_of op ++ rest)
          ≡ got dd' f dm' rest)
        × SameShared shared de dd'
        × (absent i.instruction f ≡ true)
  absent_length dd dm dm' rest same y =
      let inst = i.instruction in
      let prev = dd i.key in
      let (p, sends) =
        absent_sent shared i.key op inst prev refl ready.optional ready.operator_is in
      let (pd, f, eq, sp, sf) =
        decode_field-encode_field uint32 map_source inst new_storage new_storage prev prev p
          (absent_bits i) (null_of op) rest dm dm' null_InRange
          (null_Representable (is_nullable inst)) (SamePrevious-refl prev)
          (absent_Encodable shared i.key op inst prev ready.optional ready.operator_is) sends y in
      (
        save_at i.key pd dd,
        f,
        ap (from_step i.key dd) eq,
        unshared-SameShared shared i.key pd de dd (unshared shared i.key op ready.operator_is) same,
        sym sf.absence ∙ rw ready.optional refl,
      )

  bit_put :
      (b : Bool) (map m : EncoderMap) (stream w : List ℕ)
      → set_bits (if b then false ∷ [] else []) (map, stream) ≡ some (m, w)
      → (if b
          then put_bits (false ∷ []) (in_state de map stream)
          else encoded (in_state de map stream))
        ≡ encoded (in_state de m w)
  bit_put true map m stream w e = ap (with_map (in_state de map stream)) e
  bit_put false map m stream w e = ap (λ p. encoded (in_state de p.0 p.1)) (some-injective _ _ e)

  null_put :
      (b : Bool) (m : EncoderMap) (w : List ℕ)
      → (if b then put_bytes encode_null (in_state de m w) else in_state de m w)
        ≡ in_state de m (w ++ (if b then encode_null else []))
  null_put true m w = refl
  null_put false m w = ap (in_state de m) (sym (append-nil w))

  pub absent-Carries :
      {B : Type 0} (read : Slot ℕ → Reader B) (b : B) (R : B → Type 0)
      → ((f : Slot ℕ) → absent i.instruction f ≡ true → read f ≡ give b)
      → R b
      → Carries shared de
          (λ st.
            and_then
              (if has_pmap_bit i.instruction then put_bits (false ∷ []) st else encoded st)
              λ st'.
                encoded
                  (if sends_null i.instruction.operator then put_bytes encode_null st' else st'))
          (bind (read_leaf (length_instruction i) new_storage) read)
          R
          (planned de (absent_bits i))
  absent-Carries read b R given r map m stream w e = (
    null_of op,
    ap (λ r. and_then r λ st'. encoded (if sends_null op then put_bytes encode_null st' else st'))
          (bit_put (has_pmap_bit i.instruction) map m stream w e)
        ∙ ap encoded (null_put (sends_null op) m w),
    λ a g dd same dm dm' rest y.
        let (dd', f, eq, same', gone) = absent_length dd dm dm' rest same y in
        (dd', b, ap (λ r. then_read r read) eq ∙ ap (λ k. k dd' dm' rest) (given f gone), same', r),
  )
