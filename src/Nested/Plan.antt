-- ===== src/Nested/Plan.antt =====
-- What fields, groups and sequences make of the dictionary, and the bits that they set in the presence
-- map around them; what the two sides of the codec share; and what the encoder takes for granted.
use m_fast.Common.{
  ℕ, ◌^◌, ◌<◌, ◌≡◌, ◌⊎◌, Bool, true, false, Option, none, some, List, [], ◌∷◌, ◌++◌, length,
  if◌then◌else◌,
}
use m_fast.Wire.Outcome.{Error}
use m_fast.Wire.IntType.{InRange}
use m_fast.Wire.IntRoundTrip.{Representable}
use m_fast.Field.Storage.{Operator, operator_none, operator_constant, Slot, is_nullable}
use m_fast.Field.Encode.{Sent, sent, refused}
use m_fast.Field.Ints.{encode_field}
use m_fast.Field.Agreement.{SamePrevious, SameField}
use m_fast.Field.IntRoundTrip.{Encodable}
use m_fast.Message.Template.{FieldInstruction, Dictionary, save_at, has_pmap_bit}
use m_fast.Nested.Template.{
  Item, leaf, group, optional_group, sequence, optional_sequence, Items, no_items, item, Value,
  Values, length_instruction,
}
use m_fast.Nested.Encoder.{length_slot}

pub data Plan : Type 0 where
  planned : Dictionary → List Bool → Plan
  unplanned : Error → Plan

abbrev pub prefixed : List Bool → Plan → Plan
prefixed bits (planned dict bits') = planned dict (bits ++ bits')
prefixed bits (unplanned e) = unplanned e

abbrev pub then_plan : Plan → (Dictionary → Plan) → Plan
then_plan (planned dict bits) go = prefixed bits (go dict)
then_plan (unplanned e) go = unplanned e

-- The bits go into a map of their own.
abbrev pub in_own_map : Plan → Plan
in_own_map (planned dict bits) = planned dict []
in_own_map (unplanned e) = unplanned e

abbrev pub plan_sent : ℕ → Dictionary → Sent ℕ → Plan
plan_sent key dict (sent prev bits bytes) = planned (save_at key prev dict) bits
plan_sent key dict (refused e) = unplanned e

abbrev pub plan_leaf : FieldInstruction → Slot ℕ → Dictionary → Plan
plan_leaf i f dict = plan_sent i.key dict (encode_field i.type i.instruction (dict i.key) f)

abbrev pub plan_each : {A : Type 0} → (A → Dictionary → Plan) → List A → Dictionary → Plan
plan_each f [] dict = planned dict []
plan_each f (x ∷ xs) dict = then_plan (f x dict) (plan_each f xs)

abbrev pub absent_bits : FieldInstruction → List Bool
absent_bits i = if has_pmap_bit i.instruction then false ∷ [] else []

unfoldable mutual
  unfolding Value

  pub plan_item : (i : Item) → Value i → Dictionary → Plan
  plan_item (leaf i) f dict = plan_leaf i f dict
  plan_item (group is) vs dict = in_own_map (plan_items is vs dict)
  plan_item (optional_group is) none dict = planned dict (false ∷ [])
  plan_item (optional_group is) (some vs) dict =
      prefixed (true ∷ []) (in_own_map (plan_items is vs dict))
  plan_item (sequence i is) rows dict =
      then_plan (plan_leaf (length_instruction i) (length_slot (length rows)) dict)
        (plan_each (λ vs d. in_own_map (plan_items is vs d)) rows)
  plan_item (optional_sequence i is) none dict = planned dict (absent_bits i)
  plan_item (optional_sequence i is) (some rows) dict =
      then_plan (plan_leaf (length_instruction i) (length_slot (length rows)) dict)
        (plan_each (λ vs d. in_own_map (plan_items is vs d)) rows)

  pub plan_items : (is : Items) → Values is → Dictionary → Plan
  plan_items no_items vs dict = planned dict []
  plan_items (item i is) (v, vs) dict = then_plan (plan_item i v dict) (plan_items is vs)

-- The values that were encoded and those that were decoded.
abbrev pub SameRows : {A : Type 0} → (A → A → Type 0) → List A → List A → Type 0
SameRows R [] [] = Unit
SameRows R (x ∷ xs) (y ∷ ys) = R x y × SameRows R xs ys
SameRows R _ _ = ⊥

abbrev pub SameOption : {A : Type 0} → (A → A → Type 0) → Option A → Option A → Type 0
SameOption R none none = Unit
SameOption R (some x) (some y) = R x y
SameOption R _ _ = ⊥

unfoldable mutual
  unfolding Value

  pub SameValue : (i : Item) → Value i → Value i → Type 0
  SameValue (leaf i) f f' = SameField i.instruction f f'
  SameValue (group is) vs vs' = SameValues is vs vs'
  SameValue (optional_group is) o o' = SameOption (SameValues is) o o'
  SameValue (sequence i is) rows rows' = SameRows (SameValues is) rows rows'
  SameValue (optional_sequence i is) o o' = SameOption (SameRows (SameValues is)) o o'

  pub SameValues : (is : Items) → Values is → Values is → Type 0
  SameValues no_items vs vs' = Unit
  SameValues (item i is) (v, vs) (v', vs') = SameValue i v v' × SameValues is vs vs'

-- The previous values at the keys that are shared agree; `shared` tells them.
abbrev pub SameShared : (ℕ → Bool) → Dictionary → Dictionary → Type 0
SameShared shared de dd = (key : ℕ) → shared key ≡ true → SamePrevious (de key) (dd key)

-- A key that is not shared is that of one field without an operator.
pub record LeafReady (shared : ℕ → Bool) (i : FieldInstruction) (pe f : Slot ℕ) : Type 0 where
  pub range : InRange i.type f.content
  pub representable : Representable i.type f.content (is_nullable i.instruction)
  pub encodable : Encodable i.type i.instruction pe f i.instruction.operator
  pub known :
      (shared i.key ≡ true) ⊎ ((i.instruction.operator ≡ operator_none) × (shared i.key ≡ false))

-- The operators at which the decoder finds the length of an absent sequence absent.
abbrev pub AbsentOperator : (ℕ → Bool) → ℕ → Operator → Type 0
AbsentOperator shared key operator_none = shared key ≡ false
AbsentOperator shared key operator_constant = shared key ≡ false
AbsentOperator shared key _ = ⊥

pub record AbsentReady (shared : ℕ → Bool) (i : FieldInstruction) : Type 0 where
  pub optional : i.instruction.optional ≡ true
  pub operator_is : AbsentOperator shared i.key i.instruction.operator

abbrev pub ReadyAfterPlan : Plan → (Dictionary → Type 0) → Type 0
ReadyAfterPlan (planned dict bits) P = P dict
ReadyAfterPlan (unplanned e) P = Unit

abbrev pub EachReady :
    {A : Type 0}
    → (A → Dictionary → Plan)
    → (A → Dictionary → Type 0)
    → List A
    → Dictionary
    → Type 0
EachReady plan P [] dict = Unit
EachReady plan P (x ∷ xs) dict = P x dict × ReadyAfterPlan (plan x dict) (EachReady plan P xs)

-- A length of less than 2 ^ 32.
pub record LengthReady (shared : ℕ → Bool) (i : FieldInstruction) (n : ℕ) (dict : Dictionary)
    : Type 0 where
  pub short : n < 2 ^ 32
  pub field_ready : LeafReady shared (length_instruction i) (dict i.key) (length_slot n)

module _ (shared : ℕ → Bool) where
  unfoldable mutual
    unfolding Value

    pub ItemReady : (i : Item) → Value i → Dictionary → Type 0
    ItemReady (leaf i) f dict = LeafReady shared i (dict i.key) f
    ItemReady (group is) vs dict = ItemsReady is vs dict
    ItemReady (optional_group is) none dict = Unit
    ItemReady (optional_group is) (some vs) dict = ItemsReady is vs dict
    ItemReady (sequence i is) rows dict =
        LengthReady shared i (length rows) dict
        × ReadyAfterPlan (plan_leaf (length_instruction i) (length_slot (length rows)) dict)
            (EachReady (λ vs d. in_own_map (plan_items is vs d)) (ItemsReady is) rows)
    ItemReady (optional_sequence i is) none dict = AbsentReady shared i
    ItemReady (optional_sequence i is) (some rows) dict =
        LengthReady shared i (length rows) dict
        × ReadyAfterPlan (plan_leaf (length_instruction i) (length_slot (length rows)) dict)
            (EachReady (λ vs d. in_own_map (plan_items is vs d)) (ItemsReady is) rows)

    pub ItemsReady : (is : Items) → Values is → Dictionary → Type 0
    ItemsReady no_items vs dict = Unit
    ItemsReady (item i is) (v, vs) dict =
        ItemReady i v dict × ReadyAfterPlan (plan_item i v dict) (ItemsReady is vs)
