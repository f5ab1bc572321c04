-- ===== src/Nested/BitCount.antt =====
-- Fields, groups and sequences set as many bits as `segment_pmap_size` counts.
use m_fast.Common.{
  ℕ, ◌+◌, ◌≡◌, refl, subst, Bool, true, false, none, some, List, [], ◌∷◌, length, length-append,
  if◌then◌else◌, arith,
}
use m_fast.Field.Storage.{Slot}
use m_fast.Field.Encode.{Sent, sent, refused}
use m_fast.Message.Template.{FieldInstruction, Dictionary, pmap_size, has_pmap_bit}
use m_fast.Message.BitCount.{Sets, by-Sets}
use m_fast.Nested.Template.{
  Item, leaf, group, optional_group, sequence, optional_sequence, Items, no_items, item, Value,
  Values, length_instruction, item_pmap_size, items_pmap_size,
}
use m_fast.Nested.Plan.{
  Plan, planned, unplanned, prefixed, then_plan, in_own_map, plan_sent, plan_leaf, plan_each,
  plan_item, plan_items, LeafReady, ReadyAfterPlan, ItemReady, ItemsReady,
}
use m_fast.Nested.Segment.{PlanSets}

-- What is taken for granted after a plan.
pub ready_after :
    (p : Plan) (P : Dictionary → Type 0) (dict : Dictionary) (bits : List Bool)
    → ReadyAfterPlan p P
    → p ≡ planned dict bits
    → P dict
ready_after p P dict bits h e = subst (λ q. ReadyAfterPlan q P) e h

plan_sent-PlanSets :
    (n key : ℕ) (dict : Dictionary) (x : Sent ℕ) → Sets n x → PlanSets n (plan_sent key dict x)
plan_sent-PlanSets n key dict (sent prev bits bytes) h = h
plan_sent-PlanSets n key dict (refused e) h = tt

prefixed-PlanSets :
    (n k : ℕ) (bits : List Bool) (p : Plan)
    → length bits ≡ n
    → PlanSets k p
    → PlanSets (n + k) (prefixed bits p)
prefixed-PlanSets n k bits (planned dict bits') e h = omega (arith, e, h, length-append bits bits')
prefixed-PlanSets n k bits (unplanned x) e h = tt

then_plan-PlanSets :
    (n k : ℕ) (p : Plan) (go : Dictionary → Plan)
    → PlanSets n p
    → ((dict : Dictionary) (bits : List Bool) → p ≡ planned dict bits → PlanSets k (go dict))
    → PlanSets (n + k) (then_plan p go)
then_plan-PlanSets n k (planned dict bits) go h step =
    prefixed-PlanSets n k bits (go dict) h (step dict bits refl)
then_plan-PlanSets n k (unplanned e) go h step = tt

in_own_map-PlanSets : (p : Plan) → PlanSets 0 (in_own_map p)
in_own_map-PlanSets (planned dict bits) = refl
in_own_map-PlanSets (unplanned e) = tt

each-PlanSets :
    {A : Type 0} (f : A → Dictionary → Plan) (rows : List A) (dict : Dictionary)
    → PlanSets 0 (plan_each (λ x d. in_own_map (f x d)) rows dict)
each-PlanSets f [] dict = refl
each-PlanSets f (x ∷ rows) dict =
    then_plan-PlanSets 0 0 (in_own_map (f x dict)) (plan_each (λ y d. in_own_map (f y d)) rows)
      (in_own_map-PlanSets (f x dict)) (λ d bits e. each-PlanSets f rows d)

module _ (shared : ℕ → Bool) where
  leaf-PlanSets :
      (i : FieldInstruction) (f : Slot ℕ) (dict : Dictionary)
      → LeafReady shared i (dict i.key) f
      → PlanSets (pmap_size i.instruction) (plan_leaf i f dict)
  leaf-PlanSets i f dict h =
      plan_sent-PlanSets (pmap_size i.instruction) i.key dict _
        (by-Sets i.type i.instruction.operator i.instruction (dict i.key) f h.encodable)

  sequence-PlanSets :
      {A : Type 0} (i : FieldInstruction) (f : Slot ℕ) (g : A → Dictionary → Plan) (rows : List A)
      (dict : Dictionary)
      → LeafReady shared (length_instruction i) (dict i.key) f
      → PlanSets (pmap_size i.instruction) (
          then_plan
            (plan_leaf (length_instruction i) f dict)
            (plan_each (λ x d. in_own_map (g x d)) rows))
  sequence-PlanSets i f g rows dict h =
      let size = pmap_size i.instruction in
      let same : size + 0 ≡ size = omega arith in
      subst
        (λ k. PlanSets k (
          then_plan (plan_leaf (length_instruction i) f dict)
            (plan_each (λ x d. in_own_map (g x d)) rows)))
        same
        (then_plan-PlanSets size 0 (plan_leaf (length_instruction i) f dict)
          (plan_each (λ x d. in_own_map (g x d)) rows)
          (leaf-PlanSets (length_instruction i) f dict h) (λ d bits e. each-PlanSets g rows d))

  absent_bits_size :
      (i : FieldInstruction) (b : Bool)
      → length (if b then false ∷ [] else []) ≡ (if b then 1 else 0)
  absent_bits_size i true = refl
  absent_bits_size i false = refl

  item-PlanSets :
      (i : Item) (v : Value i) (dict : Dictionary)
      → ItemReady shared i v dict
      → PlanSets (item_pmap_size i) (plan_item i v dict)
  unfolding Value plan_item ItemReady item_pmap_size
  item-PlanSets (leaf i) f dict h = leaf-PlanSets i f dict h
  item-PlanSets (group is) vs dict h = in_own_map-PlanSets (plan_items is vs dict)
  item-PlanSets (optional_group is) none dict h = refl
  item-PlanSets (optional_group is) (some vs) dict h =
      prefixed-PlanSets 1 0 (true ∷ []) (in_own_map (plan_items is vs dict)) refl
        (in_own_map-PlanSets (plan_items is vs dict))
  item-PlanSets (sequence i is) rows dict h =
      sequence-PlanSets i _ (plan_items is) rows dict h.0.field_ready
  item-PlanSets (optional_sequence i is) none dict h =
      absent_bits_size i (has_pmap_bit i.instruction)
  item-PlanSets (optional_sequence i is) (some rows) dict h =
      sequence-PlanSets i _ (plan_items is) rows dict h.0.field_ready

  -- Where each is ready when its turn comes, and no operator refuses.
  pub items-PlanSets :
      (is : Items) (vs : Values is) (dict : Dictionary)
      → ItemsReady shared is vs dict
      → PlanSets (items_pmap_size is) (plan_items is vs dict)
  unfolding Value plan_item ItemReady items_pmap_size
  items-PlanSets no_items vs dict h = refl
  items-PlanSets (item i is) (v, vs) dict h =
      then_plan-PlanSets (item_pmap_size i) (items_pmap_size is) (plan_item i v dict)
        (plan_items is vs) (item-PlanSets i v dict h.0)
        (λ d bits e. items-PlanSets is vs d (ready_after (plan_item i v dict) _ d bits h.1 e))
