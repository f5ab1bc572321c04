-- ===== src/V2/EncodeSame.antt =====
-- The encoder of the second version against that of the first, at integer fields.
use m_fast.Common.{
  ℕ, ◌≡◌, refl, sym, ap, subst, ◌∙◌, ◌⊎◌, inl, inr, Bool-cases, Bool, true, false, not, ◌&&◌,
  Option, none, some, List, [], ◌∷◌, if◌then◌else◌, if-true, if-false, if-both, arith,
}
use m_fast.Wire.Outcome.{d6}
use m_fast.Wire.IntType.{IntType, int64}
use m_fast.Wire.Ostream.{encode_int, encode_null}
use m_fast.Field.Storage.{
  Slot, Instruction, absent, is_constant, save_previous_value, Operator, operator_none,
  operator_constant, operator_delta, operator_default, operator_copy, operator_increment,
  operator_tail,
}
use m_fast.Field.Decode.{delta_base_value_of}
use m_fast.Field.Encode.{
  Sent, sent, refused, insert_field, encode_none, encode_constant, encode_copy, encode_default,
  save_and_write,
}
use m_fast.Field.Branches.{none_bytes}
use m_fast.Field.Ints.{
  int_kind, int_is_same, is_increment, int_delta, int_is_initial_value, encode_by, encode_int_delta,
}
use m_fast.V2.Ext.{
  Ext, is_optional, previous_value_shared, ext_present, is_optional_lem, nullable_lem,
}
use m_fast.V2.Encode.{
  ExtSent, ext_sent, ext_refused, ext_insert, ext_saved_if_shared, ext_encode_none,
  ext_encode_constant, ext_encode_unless, ext_encode_default, ext_encode_delta, ext_encode_by,
}
use m_fast.V2.DecodeSame.{both_save}

-- The two encoders end alike: the same bits and bytes, or the same exception. The previous values are the
-- same too where `saves` holds and nothing is thrown.
abbrev pub SameSent : {C : Type 0} → Bool → Sent C → ExtSent C → Type 0
SameSent saves (sent p bits bytes) (ext_sent p' bits' bytes') =
    (bits ≡ bits') × (bytes ≡ bytes') × (saves ≡ true → p ≡ p')
SameSent saves (refused x) (ext_refused x' p) = x ≡ x'
SameSent saves _ _ = ⊥

base_same :
    (base : Option ℕ) (prev saved : Slot ℕ) (bytes bytes' : ℕ → List ℕ)
    → ((b : ℕ) → bytes b ≡ bytes' b)
    → SameSent true
        (elim base [ none ↦ refused d6 | some b ↦ sent saved [] (bytes b) ])
        (elim base [ none ↦ ext_refused d6 prev | some b ↦ ext_sent saved [] (bytes' b) ])
base_same none prev saved bytes bytes' h = refl
base_same (some b) prev saved bytes bytes' h = (refl, h b, λ _. refl)

module _ (ty : IntType) (e : Ext ℕ) (prev cref : Slot ℕ) where
  abbrev inst : Instruction ℕ
  inst = e.instruction

  insert_same : insert_field (int_kind ty) inst cref ≡ ext_insert (int_kind ty) e prev cref
  insert_same = rw (nullable_lem e) refl

  saved_same :
      (bits : List Bool) (bytes bytes' : List ℕ)
      → bytes ≡ bytes'
      → SameSent
          (previous_value_shared e)
          (sent (save_previous_value inst cref prev) bits bytes)
          (ext_sent (ext_saved_if_shared (int_kind ty) e prev cref) bits bytes')
  saved_same bits bytes bytes' b = (refl, b, λ h. sym (if-true _ _ h))

  absent_same : absent inst cref ≡ not (ext_present e cref)
  absent_same = rw (is_optional_lem e) (ground arith)

  both_absent_same : absent inst cref ≡ (is_optional e && not (ext_present e cref))
  both_absent_same = rw (is_optional_lem e) (ground arith)

  none_same :
      is_constant inst.operator ≡ false
      → SameSent
          (previous_value_shared e)
          (encode_none (int_kind ty) inst prev cref)
          (ext_encode_none (int_kind ty) e prev cref)
  unfolding encode_none ext_encode_none
  none_same c = saved_same [] _ _ (none_bytes ty inst cref c ∙ insert_same)

  constant_same :
      SameSent
        (previous_value_shared e)
        (encode_constant (int_kind ty) inst prev cref)
        (ext_encode_constant (int_kind ty) e prev cref)
  unfolding encode_constant ext_encode_constant
  constant_same = (
    ap (λ o. if o then not (absent inst cref) ∷ [] else []) (sym (is_optional_lem e)),
    refl,
    λ h. sym (if-true _ _ h),
  )

  skip :
      SameSent true
        (sent (save_previous_value inst cref prev) (false ∷ []) [])
        (ext_sent (save_previous_value inst cref prev) (false ∷ []) [])
  skip = (refl, refl, λ _. refl)

  write :
      SameSent true
        (sent
          (save_previous_value inst cref prev)
          (true ∷ [])
          (insert_field (int_kind ty) inst cref))
        (ext_sent
          (save_previous_value inst cref prev)
          (true ∷ [])
          (ext_insert (int_kind ty) e prev cref))
  write = (refl, insert_same, λ _. refl)

  copy_same :
      (at_d6 : Slot ℕ) (operation : Instruction ℕ → Slot ℕ → Slot ℕ → Bool)
      → SameSent true
          (encode_copy (int_kind ty) operation inst prev cref)
          (ext_encode_unless (int_kind ty) e prev cref at_d6 operation)
  unfolding encode_copy ext_encode_unless
  copy_same at_d6 operation =
      let S = SameSent {C = ℕ} true in
      if-both S (not prev.defined) _ _ _ _ _ refl
        (λ _. if-both S (int_is_initial_value inst cref) _ _ _ _ _ refl (λ _. skip) (λ _. write))
        (λ _.
          if-both S (not prev.present) _ _ _ _ _ refl
            (λ _.
              if-both S (absent inst cref) (not (ext_present e cref)) _ _ _ _ absent_same
                (λ _. skip)
                (λ _.
                  if-both S (not inst.optional) (not (is_optional e)) _ _ _ _
                    (ap not (sym (is_optional_lem e))) (λ _. refl) (λ _. write)))
            (λ _. if-both S (operation inst cref prev) _ _ _ _ _ refl (λ _. skip) (λ _. write)))

  default_same :
      (absent inst cref ≡ false) ⊎ (int_is_initial_value inst cref ≡ true)
      → SameSent
          (previous_value_shared e)
          (encode_default (int_kind ty) inst prev cref)
          (ext_encode_default (int_kind ty) e prev cref)
  unfolding encode_default ext_encode_default
  default_same h =
      let S = SameSent {C = ℕ} (previous_value_shared e) in
      if-both S (int_is_initial_value inst cref) _ _ _ _ _ refl
        (λ _. saved_same (false ∷ []) [] [] refl)
        (λ i.
          if-both S (absent inst cref) (is_optional e && not (ext_present e cref)) _ _ _ _
            both_absent_same (λ a. ground (arith, h, i, a))
            (λ a.
              subst (λ z. S (save_and_write (int_kind ty) inst prev cref) z)
                (sym (if-false _ _ (sym absent_same ∙ a)))
                (saved_same (true ∷ []) _ _ insert_same)))

  delta_same : SameSent true (encode_int_delta ty inst prev cref) (ext_encode_delta ty e prev cref)
  unfolding encode_int_delta ext_encode_delta
  delta_same =
      if-both (SameSent {C = ℕ} true) (absent inst cref) (not (ext_present e cref)) _ _ _ _
        absent_same (λ _. (refl, refl, λ _. refl))
        (λ _.
          base_same (delta_base_value_of 0 inst prev) prev (save_previous_value inst cref prev) _ _
            (λ base.
              ap (encode_int int64 (int_delta ty cref.content base) false) (sym (nullable_lem e))))

  default_absent :
      absent inst cref ≡ true
      → int_is_initial_value inst cref ≡ false
      → (encode_default (int_kind ty) inst prev cref ≡ sent prev (true ∷ []) encode_null)
        × (ext_encode_default (int_kind ty) e prev cref ≡ ext_sent prev (false ∷ []) [])
  unfolding encode_default ext_encode_default
  default_absent a i =
      (if-false _ _ i ∙ if-true _ _ a, if-false _ _ i ∙ if-true _ _ (sym both_absent_same ∙ a))

  -- The one difference: an absent field with the default operator and an initial value is sent as a
  -- null, which the second version leaves out with its bit at 0.
  abbrev pub Dropped : Operator → Sent ℕ → ExtSent ℕ → Type 0
  Dropped op first second =
      (op ≡ operator_default)
      × (absent inst cref ≡ true)
      × (int_is_initial_value inst cref ≡ false)
      × (first ≡ sent prev (true ∷ []) encode_null)
      × (second ≡ ext_sent prev (false ∷ []) [])

  default_compared :
      SameSent
        (previous_value_shared e)
        (encode_default (int_kind ty) inst prev cref)
        (ext_encode_default (int_kind ty) e prev cref)
      ⊎ Dropped operator_default
          (encode_default (int_kind ty) inst prev cref)
          (ext_encode_default (int_kind ty) e prev cref)
  default_compared = elim (Bool-cases (absent inst cref)) [
    | inr a ↦ inl (default_same (inl a))
    | inl a ↦ elim (Bool-cases (int_is_initial_value inst cref)) [
      | inl i ↦ inl (default_same (inr i))
      | inr i ↦ let both = default_absent a i in inr (refl, a, i, both.0, both.1)
    ]
  ]

-- An integer field is sent by the second version as by the first: both end with the same exception, or
-- with the same bits and the same bytes, and where nothing is thrown the previous value is then the
-- same too; with no operator, constant or default that is claimed only where the second version takes the
-- value to be shared. Or the field is absent with the default operator and is not the initial value:
-- the first version sends the bit 1 and a null, the second the bit 0 and nothing, and both leave the
-- previous value.
pub ext_encode_by-encode_by :
    (ty : IntType) (op : Operator) (e : Ext ℕ) (prev cref : Slot ℕ)
    → e.instruction.operator ≡ op
    → SameSent
        (both_save op e)
        (encode_by ty op e.instruction prev cref)
        (ext_encode_by ty op e prev cref)
      ⊎ Dropped ty e prev cref op
          (encode_by ty op e.instruction prev cref)
          (ext_encode_by ty op e prev cref)
unfolding encode_by ext_encode_by
ext_encode_by-encode_by ty operator_none e prev cref o = inl (none_same ty e prev cref (rw o refl))
ext_encode_by-encode_by ty operator_constant e prev cref o = inl (constant_same ty e prev cref)
ext_encode_by-encode_by ty operator_delta e prev cref o = inl (delta_same ty e prev cref)
ext_encode_by-encode_by ty operator_default e prev cref o = default_compared ty e prev cref
ext_encode_by-encode_by ty operator_copy e prev cref o =
    inl (copy_same ty e prev cref prev int_is_same)
ext_encode_by-encode_by ty operator_increment e prev cref o =
    inl (copy_same ty e prev cref _ (is_increment ty))
ext_encode_by-encode_by ty operator_tail e prev cref o = inl (refl, refl, λ _. refl)
