-- ===== src/V2/DecodeSame.antt =====
-- The decoder of the second version against that of the first, at integer fields.
use m_fast.Common.{
  ℕ, ◌≡◌, refl, sym, ap, subst, ◌∙◌, ◌⊎◌, Bool, true, false, not, List, if◌then◌else◌, if-both,
  if-true, if-false, inl, inr, Bool-cases, arith,
}
use m_fast.Wire.Outcome.{d5, Result, ok, err}
use m_fast.Wire.IntType.{IntType, int64}
use m_fast.Wire.Istream.{decode_int}
use m_fast.Field.Storage.{
  Slot, Instruction, FieldKind, BitSource, absent, omit, Operator, operator_none, operator_constant,
  operator_delta, operator_default, operator_copy, operator_increment, operator_tail,
  mandatory_without_initial_value,
}
use m_fast.Field.Decode.{
  Step, done, thrown, on_read, extract_into, decode_none, decode_constant, decode_previous,
  decode_copy, decode_default,
}
use m_fast.Field.Ints.{int_kind, next_value, decode_by, decode_int_delta}
use m_fast.V2.Ext.{
  Ext, is_optional, previous_value_shared, ext_mandatory_without_initial_value, ext_present,
  is_optional_lem, nullable_lem,
}
use m_fast.V2.Decode.{
  ext_extract, save_if_shared, ext_decode_none, ext_decode_constant, ext_decode_previous,
  ext_decode_copy, ext_decode_default, ext_decode_delta, ext_decode_by,
}

-- The two decoders end alike: the same exception, or the same field, presence map and rest of the
-- stream. The previous values are the same too where `saves` holds.
abbrev pub SameStep : {C M : Type 0} → Bool → Step C M → Step C M → Type 0
SameStep saves (done p f m r) (done p' f' m' r') =
    (f ≡ f') × (m ≡ m') × (r ≡ r') × (saves ≡ true → p ≡ p')
SameStep saves (thrown x p) (thrown x' p') = (x ≡ x') × (p ≡ p')
SameStep saves _ _ = ⊥

SameStep-refl : {C M : Type 0} (saves : Bool) (x : Step C M) → SameStep saves x x
SameStep-refl saves (done p f m r) = (refl, refl, refl, λ _. refl)
SameStep-refl saves (thrown x p) = (refl, refl)

same_read :
    {A C M : Type 0} (saves : Bool) (prev : Slot C) (r : Result A) (go go' : A → List ℕ → Step C M)
    → ((a : A) (rest : List ℕ) → SameStep saves (go a rest) (go' a rest))
    → SameStep saves (on_read prev r go) (on_read prev r go')
same_read saves prev (ok a rest) go go' h = h a rest
same_read saves prev (err x) go go' h = (refl, refl)

on_read-both :
    {A C M : Type 0} (saves : Bool) (prev : Slot C) (r r' : Result A)
    (go go' : A → List ℕ → Step C M)
    → r ≡ r'
    → ((a : A) (rest : List ℕ) → SameStep saves (go a rest) (go' a rest))
    → SameStep saves (on_read prev r go) (on_read prev r' go')
on_read-both saves prev r r' go go' e h =
    subst (λ q. SameStep saves (on_read prev r go) (on_read prev q go')) e
      (same_read saves prev r go go' h)

-- A conditional on a test against one on its negation.
if-not {ℓ κ} :
    {A : Type ℓ} (R : A → A → Type κ) (b b' : Bool) (x x' y y' : A)
    → b ≡ b'
    → R x x'
    → R y y'
    → R (if not b then x else y) (if b' then y' else x')
if-not R true true x x' y y' e f t = t
if-not R true false x x' y y' e f t = cc
if-not R false true x x' y y' e f t = cc
if-not R false false x x' y y' e f t = f

undefined_mandatory :
    (defined mandatory : Bool)
    → not defined ≡ true
    → (defined ≡ true) ⊎ (mandatory ≡ false)
    → mandatory ≡ false
undefined_mandatory defined mandatory u h = ground arith

module _ (k : FieldKind) (src : BitSource) (e : Ext k.Content) where
  open k use {Content, extract, to_initial_value, save_to}
  open src use {Map, is_next_bit_set}

  abbrev inst : Instruction Content
  inst = e.instruction

  extract_same :
      (field : Slot Content) (s : List ℕ)
      → extract_into k src inst field s ≡ ext_extract k src e field s
  extract_same field s = rw (nullable_lem e) refl

  saved_done :
      (f prev : Slot Content) (m : Map) (s : List ℕ)
      → SameStep
          (previous_value_shared e)
          (done (save_to inst f prev) f m s)
          (done (save_if_shared k src e f prev) f m s)
  saved_done f prev m s = (refl, refl, refl, λ h. sym (if-true _ _ h))

  present_same : (f : Slot Content) → absent inst f ≡ not (ext_present e f)
  present_same f = rw (is_optional_lem e) (ground arith)

  none_same :
      (prev field : Slot Content) (m : Map) (s : List ℕ)
      → SameStep
          (previous_value_shared e)
          (decode_none k src inst prev field m s)
          (ext_decode_none k src e prev field m s)
  unfolding decode_none ext_decode_none
  none_same prev field m s =
      on_read-both (previous_value_shared e) prev _ _ _ _ (extract_same field s)
        (λ f rest. saved_done f prev m rest)

  constant_same :
      (prev field : Slot Content) (m : Map) (s : List ℕ)
      → SameStep
          (previous_value_shared e)
          (decode_constant k src inst prev field m s)
          (ext_decode_constant k src e prev field m s)
  unfolding decode_constant ext_decode_constant
  constant_same prev field m s =
      let S = SameStep (previous_value_shared e) in
      let (bit, m') = is_next_bit_set m in
      let f = to_initial_value inst field in
      let g = omit inst field in
      if-not S inst.optional (is_optional e) _ _ _ _ (sym (is_optional_lem e))
        (saved_done f prev m s)
        (if-both S bit bit _ _ _ _ refl (λ _. saved_done f prev m' s) (λ _. saved_done g prev m' s))

  default_same :
      (prev field : Slot Content) (m : Map) (s : List ℕ)
      → SameStep
          (previous_value_shared e)
          (decode_default k src inst prev field m s)
          (ext_decode_default k src e prev field m s)
  unfolding decode_default ext_decode_default
  default_same prev field m s =
      let S = SameStep (previous_value_shared e) in
      let (bit, m') = is_next_bit_set m in
      if-both S bit bit _ _ _ _ refl
        (λ _. on_read-both (previous_value_shared e) prev _ _ _ _ (extract_same field s) (λ f rest.
          if-both S (absent inst f) (not (ext_present e f)) _ _ _ _ (present_same f)
            (λ _. (refl, refl, refl, λ _. refl)) (λ _. saved_done f prev m' rest)))
        (λ _. saved_done (to_initial_value inst field) prev m' s)

  -- The first version asks whether the field has an initial value, the second never throws here: the
  -- operator is copy or increment.
  copy_same :
      (operation : Content → Content) (prev field : Slot Content) (m : Map) (s : List ℕ)
      → ext_mandatory_without_initial_value e ≡ false
      → ((is_next_bit_set m).0 ≡ false
          → (prev.defined ≡ true) ⊎ (mandatory_without_initial_value inst ≡ false))
      → SameStep true
          (decode_copy k src operation inst prev field m s)
          (ext_decode_copy k src operation e prev field m s)
  unfolding decode_copy ext_decode_copy decode_previous ext_decode_previous
  copy_same operation prev field m s never h =
      let S = SameStep true in
      let (bit, m') = is_next_bit_set m in
      if-both S bit bit _ _ _ _ refl
        (λ _.
          on_read-both true prev _ _ _ _ (extract_same field s)
            (λ f rest. (refl, refl, refl, λ _. refl)))
        (λ clear.
          if-both S (not prev.defined) (not prev.defined) _ _ _ _ refl
            (λ u.
              if-both S (mandatory_without_initial_value inst)
                (ext_mandatory_without_initial_value e) _ _ _ _
                (undefined_mandatory prev.defined (mandatory_without_initial_value inst) u (h clear)
                  ∙ sym never)
                (λ _. (refl, refl)) (λ _. (refl, refl, refl, λ _. refl)))
            (λ _.
              if-both S (not prev.present) (not prev.present) _ _ _ _ refl
                (λ _.
                  if-not S inst.optional (is_optional e) _ _ _ _ (sym (is_optional_lem e))
                    (refl, refl) (refl, refl, refl, λ _. refl))
                (λ _. (refl, refl, refl, λ _. refl))))

  -- The one difference: the bit is not set, there is no previous value, and a mandatory field has no
  -- initial value. The first version throws D5; the second test for a missing initial value looks at
  -- the operator, and the field becomes the initial value that is not there.
  abbrev pub Accepts :
      Slot Content → Slot Content → Map → List ℕ → Step Content Map → Step Content Map → Type 0
  Accepts prev field m s first second =
      ((is_next_bit_set m).0 ≡ false)
      × (prev.defined ≡ false)
      × (mandatory_without_initial_value inst ≡ true)
      × ((p : Slot Content) × (first ≡ thrown d5 p)
          × (second ≡ done p (to_initial_value inst field) (is_next_bit_set m).1 s))

  ext_decode_copy-Accepts :
      (operation : Content → Content) (prev field : Slot Content) (m : Map) (s : List ℕ)
      → ext_mandatory_without_initial_value e ≡ false
      → (is_next_bit_set m).0 ≡ false
      → prev.defined ≡ false
      → mandatory_without_initial_value inst ≡ true
      → Accepts prev field m s
          (decode_copy k src operation inst prev field m s)
          (ext_decode_copy k src operation e prev field m s)
  unfolding decode_copy ext_decode_copy decode_previous ext_decode_previous
  ext_decode_copy-Accepts operation prev field m s never bit u w = (
    bit,
    u,
    w,
    (
      save_to inst (to_initial_value inst field) prev,
      if-false _ _ bit ∙ if-true _ _ (ap not u) ∙ if-true _ _ w,
      if-false _ _ bit ∙ if-true _ _ (ap not u) ∙ if-false _ _ never,
    ),
  )

  copy_compared :
      (operation : Content → Content) (prev field : Slot Content) (m : Map) (s : List ℕ)
      → ext_mandatory_without_initial_value e ≡ false
      → SameStep true
          (decode_copy k src operation inst prev field m s)
          (ext_decode_copy k src operation e prev field m s)
        ⊎ Accepts prev field m s
            (decode_copy k src operation inst prev field m s)
            (ext_decode_copy k src operation e prev field m s)
  copy_compared operation prev field m s never =
      let same = copy_same operation prev field m s never in
      elim (Bool-cases (is_next_bit_set m).0) [
        | inl set ↦ inl (same (λ clear. absurd (ground (arith, set, clear))))
        | inr clear ↦ elim (Bool-cases prev.defined) [
          | inl d ↦ inl (same (λ _. inl d))
          | inr u ↦ elim (Bool-cases (mandatory_without_initial_value inst)) [
            | inr w ↦ inl (same (λ _. inr w))
            | inl w ↦ inr (ext_decode_copy-Accepts operation prev field m s never clear u w)
          ]
        ]
      ]

-- Whether both versions save the previous value. The second saves it for these operators only where
-- it takes the value to be shared.
abbrev pub both_save : {C : Type 0} → Operator → Ext C → Bool
both_save operator_none e = previous_value_shared e
both_save operator_constant e = previous_value_shared e
both_save operator_default e = previous_value_shared e
both_save _ e = true

-- The operators that fall back on the previous value.
abbrev pub is_copying : Operator → Bool
is_copying operator_copy = true
is_copying operator_increment = true
is_copying _ = false

module _ (ty : IntType) (src : BitSource) (e : Ext ℕ) (prev field : Slot ℕ) (m : src.Map)
    (s : List ℕ) where
  delta_same :
      SameStep true
        (decode_int_delta ty src e.instruction prev field m s)
        (ext_decode_delta ty src e prev field m s)
  unfolding decode_int_delta ext_decode_delta
  delta_same =
      on_read-both true prev _ _ _ _ (ap (λ n. decode_int int64 n s) (sym (nullable_lem e)))
        (λ d rest. SameStep-refl true _)

  copying :
      (op : Operator) (operation : ℕ → ℕ)
      → is_copying op ≡ true
      → ext_mandatory_without_initial_value e ≡ false
      → SameStep true
          (decode_copy (int_kind ty) src operation e.instruction prev field m s)
          (ext_decode_copy (int_kind ty) src operation e prev field m s)
        ⊎ ((is_copying op ≡ true)
            × Accepts
                (int_kind ty)
                src
                e
                prev
                field
                m
                s
                (decode_copy (int_kind ty) src operation e.instruction prev field m s)
                (ext_decode_copy (int_kind ty) src operation e prev field m s))
  copying op operation c never =
      elim (copy_compared (int_kind ty) src e operation prev field m s never) [
        | inl same ↦ inl same
        | inr accepts ↦ inr (c, accepts)
      ]

  -- An integer field is decoded by the second version as by the first: both end with the same
  -- exception, or with the same field, presence map and rest of the stream, and the previous value is
  -- then the same too; with no operator, constant or default that is claimed only where the second
  -- version takes the value to be shared. Or the operator is copy or increment, the bit is not set,
  -- the previous value is undefined and the field is mandatory without an initial value: the first
  -- version throws D5, and the second makes the field the initial value that is not there, takes nothing
  -- from the stream and leaves the previous value that the first one leaves.
  pub ext_decode_by-decode_by :
      (op : Operator)
      → e.instruction.operator ≡ op
      → SameStep
          (both_save op e)
          (decode_by ty src op e.instruction prev field m s)
          (ext_decode_by ty src op e prev field m s)
        ⊎ ((is_copying op ≡ true)
            × Accepts
                (int_kind ty)
                src
                e
                prev
                field
                m
                s
                (decode_by ty src op e.instruction prev field m s)
                (ext_decode_by ty src op e prev field m s))
  unfolding decode_by ext_decode_by
  ext_decode_by-decode_by operator_none o = inl (none_same (int_kind ty) src e prev field m s)
  ext_decode_by-decode_by operator_constant o =
      inl (constant_same (int_kind ty) src e prev field m s)
  ext_decode_by-decode_by operator_delta o = inl delta_same
  ext_decode_by-decode_by operator_default o = inl (default_same (int_kind ty) src e prev field m s)
  ext_decode_by-decode_by operator_copy o = copying operator_copy (λ v. v) refl (rw o refl)
  ext_decode_by-decode_by operator_increment o =
      copying operator_increment (next_value ty) refl (rw o refl)
  ext_decode_by-decode_by operator_tail o = inl (refl, refl, refl, λ _. refl)
