-- ===== src/Nested/RoundTrip.antt =====
-- Groups and sequences that the encoder sends are received by the decoder.
use native.Mathlib.Nat.{mod-eq_of_lt}
use m_fast.Common.{
  ℕ, ◌%◌, ◌^◌, ◌<◌, ◌≡◌, refl, sym, ap, ◌∙◌, Bool, true, false, none, some, List, [], ◌∷◌,
  append-nil, ltb, length, if◌then◌else◌, if-true, if-false, arith,
}
use m_fast.Field.Storage.{Slot, Instruction, absent}
use m_fast.Field.Agreement.{SameField}
use m_fast.Message.Template.{FieldInstruction, Dictionary}
use m_fast.Message.Encoder.{EncoderState, encoded, and_then, put_bits, with_map, visit}
use m_fast.Nested.Template.{
  Item, leaf, group, optional_group, sequence, optional_sequence, Items, no_items, item, Value,
  Values, length_instruction, items_pmap_size,
}
use m_fast.Nested.Encoder.{
  Run, new_storage, length_slot, for_each, in_segment, visit_item, visit_items,
}
use m_fast.Nested.Decoder.{
  Reader, bind, give, read_as, read_bit, read_leaf, read_segment, read_times, read_item, read_items,
}
use m_fast.Nested.Plan.{
  Plan, planned, unplanned, prefixed, in_own_map, then_plan, plan_leaf, plan_each, plan_item,
  plan_items, SameRows, SameOption, SameValue, SameValues, EachReady, LengthReady, ReadyAfterPlan,
  ItemReady, ItemsReady,
}
use m_fast.Nested.Carries.{
  Carries, in_state, bind_planned, bind-Carries, read_as-Carries, give-Carries, reindex-Carries,
  bit-Carries,
}
use m_fast.Container.Blocks.{lt→ltb}
use m_fast.Nested.Leaf.{leaf-Carries}
use m_fast.Nested.AbsentLength.{absent-Carries}
use m_fast.Nested.Segment.{segment-Carries}
use m_fast.Nested.BitCount.{ready_after, items-PlanSets}

module _ (shared : ℕ → Bool) where
  rerun-Carries :
      {B : Type 0} (de : Dictionary) (run run' : Run) (read : Reader B) (R : B → Type 0) (p : Plan)
      → ((st : EncoderState) → run st ≡ run' st)
      → Carries shared de run' read R p
      → Carries shared de run read R p
  rerun-Carries de run run' read R (unplanned e) same h = tt
  rerun-Carries de run run' read R (planned de' bits) same h = λ map m stream w e.
      let (bytes, ran, recv) = h map m stream w e in
      (bytes, same (in_state de map stream) ∙ ran, recv)

  -- The elements of a sequence, one after another.
  times-Carries :
      {A : Type 0} (F : A → Run) (body : Reader A) (S : A → A → Type 0)
      (plan : A → Dictionary → Plan) (P : A → Dictionary → Type 0)
      → ((x : A) (d : Dictionary) → P x d → Carries shared d (F x) body (S x) (plan x d))
      → (rows : List A) (de : Dictionary) → EachReady plan P rows de
      → Carries shared de
          (for_each F rows)
          (read_times (length rows) body)
          (SameRows S rows)
          (plan_each plan rows de)
  unfolding read_times
  times-Carries F body S plan P h [] de ready = give-Carries shared _ de (λ _. []) _ (λ _ _. tt)
  times-Carries F body S plan P h (x ∷ rows) de ready =
      bind-Carries shared de (F x) (for_each F rows) body
        (λ a. read_as (λ rest. a ∷ rest) (read_times (length rows) body)) (S x)
        (SameRows S (x ∷ rows)) (plan x de) (plan_each plan rows) (h x de ready.0)
        λ d bits e.
          read_as-Carries shared (S x) d (for_each F rows) (λ _. read_times (length rows) body)
            (SameRows S rows) (SameRows S (x ∷ rows)) (λ a rest. a ∷ rest) (plan_each plan rows d)
            (reindex-Carries shared (S x) d (for_each F rows) _ (read_times (length rows) body)
              (SameRows S rows) (plan_each plan rows d) (λ _ _. refl)
              (times-Carries F body S plan P h rows d (ready_after (plan x de) _ d bits ready.1 e)))
            (λ a rest g r. (g, r))

  each_run :
      {A : Type 0} (F : A → Run) (rows : List A) (st : EncoderState)
      → length rows < 2 ^ 32
      → (if ltb 0 (length rows % 2 ^ 32) then for_each F rows st else encoded st)
        ≡ for_each F rows st
  each_run F [] st h = refl
  each_run F (x ∷ rows) st h =
      if-true _ _ (lt→ltb 0 (length (x ∷ rows) % 2 ^ 32) (omega (arith, h)))

  slot_present : (inst : Instruction ℕ) (n : ℕ) → absent inst (length_slot n) ≡ false
  slot_present inst n = ground arith

  -- A sequence with its length in front; `read` reads the elements.
  sequence-Carries :
      {A B : Type 0} (i : FieldInstruction) (F : A → Run) (plan : A → Dictionary → Plan)
      (P : A → Dictionary → Type 0) (rows : List A) (de : Dictionary) (otherwise : Reader B)
      (read : ℕ → Reader B) (R : B → Type 0)
      → LengthReady shared i (length rows) de
      → ReadyAfterPlan
          (plan_leaf (length_instruction i) (length_slot (length rows)) de)
          (EachReady plan P rows)
      → ((d : Dictionary)
          → EachReady plan P rows d
          → Carries shared d (for_each F rows) (read (length rows)) R (plan_each plan rows d))
      → Carries shared de
          (λ st.
            and_then
              (visit (length_instruction i) (length_slot (length rows)) st)
              λ st'. if ltb 0 (length rows % 2 ^ 32) then for_each F rows st' else encoded st')
          (bind
            (read_leaf (length_instruction i) new_storage)
            λ l. if absent i.instruction l then otherwise else read l.content)
          R
          (then_plan
            (plan_leaf (length_instruction i) (length_slot (length rows)) de)
            (plan_each plan rows))
  sequence-Carries i F plan P rows de otherwise read R len ready h =
      let n = length rows in
      let slot = length_slot n in
      let size : n % 2 ^ 32 ≡ n = mod-eq_of_lt len.short in
      bind-Carries shared de (visit (length_instruction i) slot)
        (λ st'. if ltb 0 (n % 2 ^ 32) then for_each F rows st' else encoded st')
        (read_leaf (length_instruction i) new_storage)
        (λ l. if absent i.instruction l then otherwise else read l.content)
        (SameField i.instruction slot) R (plan_leaf (length_instruction i) slot de)
        (plan_each plan rows)
        (leaf-Carries shared (length_instruction i) slot new_storage de len.field_ready)
        λ d bits e.
          reindex-Carries shared (SameField i.instruction slot) d
            (λ st'. if ltb 0 (n % 2 ^ 32) then for_each F rows st' else encoded st')
            (λ l. if absent i.instruction l then otherwise else read l.content) (read n) R
            (plan_each plan rows d)
            (λ l same.
              let there : absent i.instruction slot ≡ false = slot_present i.instruction n in
              if-false _ _ (sym same.absence ∙ there) ∙ ap read (sym (same.content there) ∙ size))
            (rerun-Carries d
              (λ st'. if ltb 0 (n % 2 ^ 32) then for_each F rows st' else encoded st')
              (for_each F rows) (read n) R (plan_each plan rows d)
              (λ st. each_run F rows st len.short)
              (h d (ready_after (plan_leaf (length_instruction i) slot de) _ d bits ready e)))

  some-Carries :
      {A : Type 0} (de : Dictionary) (run : Run) (read : Reader A) (R : A → A → Type 0) (x : A)
      (p : Plan)
      → Carries shared de run read (R x) p
      → Carries shared de run (read_as (λ y. some y) read) (SameOption R (some x)) p
  some-Carries de run read R x p h =
      read_as-Carries shared (λ (_ : Unit {0}). Unit {0}) de run (λ _. read) (R x)
        (SameOption R (some x)) (λ _ y. some y) p h (λ _ _ _ r. r)

  -- The bit of a group that is present.
  group-Carries :
      {A : Type 0} (de : Dictionary) (run : Run) (read : Reader A) (R : A → A → Type 0) (x : A)
      (p : Plan)
      → Carries shared de run read (R x) p
      → Carries shared de
          (λ st. and_then (put_bits (true ∷ []) st) run)
          (bind read_bit λ bit. if bit then read_as (λ y. some y) read else give none)
          (SameOption R (some x))
          (prefixed (true ∷ []) p)
  group-Carries de run read R x p h =
      let after = λ (bit : Bool). if bit then read_as (λ y. some y) read else give none in
      bind_planned shared de de (put_bits (true ∷ [])) run read_bit after (λ c. c ≡ true)
        (SameOption R (some x)) (true ∷ []) p (bit-Carries shared de true)
        (reindex-Carries shared (λ c. c ≡ true) de run after (read_as (λ y. some y) read)
          (SameOption R (some x)) p (λ c e. if-true _ _ e) (some-Carries de run read R x p h))

  -- The bit of an absent group.
  no_group-Carries :
      {B : Type 0} (de : Dictionary) (read : Reader B) (b : B) (R : B → Type 0)
      → R b
      → Carries shared de
          (put_bits (false ∷ []))
          (bind read_bit λ bit. if bit then read else give b)
          R
          (planned de (false ∷ []))
  no_group-Carries de read b R r map m stream w e = (
    [],
    ap (with_map (in_state de map stream)) e
        ∙ ap (λ l. encoded (in_state de m l)) (sym (append-nil w)),
    λ a g dd same dm dm' rest y.
        (dd, b, (λ j. (if y.0 j then read else give b) dd (y.1 j) rest), same, r),
  )

-- `skipped` leaves rest many bytes rest it is asked for.
module _ (shared : ℕ → Bool) (skipped : List ℕ → ℕ → List ℕ)
    (skips : (w : List ℕ) (k : ℕ) → length (skipped w k) ≡ k) (held : List ℕ → Slot ℕ)
    (kept : (is : Items) → List (Values is)) where
  row-Carries :
      (place : List ℕ) (is : Items) (vs : Values is) (de : Dictionary)
      → ItemsReady shared is vs de
      → Carries shared de
          (visit_items skipped true is vs)
          (read_items held kept place is)
          (SameValues is vs)
          (plan_items is vs de)
      → Carries shared de
          (in_segment skipped true (items_pmap_size is) (visit_items skipped true is vs))
          (read_segment (items_pmap_size is) (read_items held kept place is))
          (SameValues is vs)
          (in_own_map (plan_items is vs de))
  row-Carries place is vs de ready =
      segment-Carries shared skipped skips de (visit_items skipped true is vs)
        (read_items held kept place is) (SameValues is vs) (items_pmap_size is)
        (plan_items is vs de) (items-PlanSets shared is vs de ready)

  mutual
    unfolding Value visit_item read_item plan_item SameValue ItemReady

    item-Carries :
        (place : List ℕ) (i : Item) (v : Value i) (de : Dictionary)
        → ItemReady shared i v de
        → Carries shared de
            (visit_item skipped true i v)
            (read_item held kept place i)
            (SameValue i v)
            (plan_item i v de)
    item-Carries place (leaf i) f de ready = leaf-Carries shared i f (held place) de ready
    item-Carries place (group is) vs de ready =
        row-Carries place is vs de ready (items-Carries place is vs de ready)
    item-Carries place (optional_group is) none de ready = no_group-Carries shared de _ none _ tt
    item-Carries place (optional_group is) (some vs) de ready =
        group-Carries shared de
          (in_segment skipped true (items_pmap_size is) (visit_items skipped true is vs))
          (read_segment (items_pmap_size is) (read_items held kept place is)) (SameValues is) vs
          (in_own_map (plan_items is vs de))
          (row-Carries place is vs de ready (items-Carries place is vs de ready))
    item-Carries place (sequence i is) rows de ready =
        sequence-Carries shared i _ _ (ItemsReady shared is) rows de (give (kept is))
          (λ n. read_times n (read_segment (items_pmap_size is) (read_items held kept place is)))
          (SameRows (SameValues is) rows) ready.0 ready.1
          (times-Carries shared _ _ (SameValues is) _ (ItemsReady shared is)
            (λ vs d r. row-Carries place is vs d r (items-Carries place is vs d r)) rows)
    item-Carries place (optional_sequence i is) none de ready =
        absent-Carries shared i de ready _ none _ (λ f gone. if-true _ _ gone) tt
    item-Carries place (optional_sequence i is) (some rows) de ready =
        sequence-Carries shared i _ _ (ItemsReady shared is) rows de (give none)
          (λ n.
            read_as some
              (read_times n (read_segment (items_pmap_size is) (read_items held kept place is))))
          (SameOption (SameRows (SameValues is)) (some rows)) ready.0 ready.1
          (λ d r.
            some-Carries shared d
              (for_each
                (λ vs.
                  in_segment skipped true (items_pmap_size is) (visit_items skipped true is vs))
                rows)
              (read_times (length rows)
                (read_segment (items_pmap_size is) (read_items held kept place is)))
              (SameRows (SameValues is)) rows
              (plan_each (λ vs e. in_own_map (plan_items is vs e)) rows d)
              (times-Carries shared
                (λ vs.
                  in_segment skipped true (items_pmap_size is) (visit_items skipped true is vs))
                (read_segment (items_pmap_size is) (read_items held kept place is)) (SameValues is)
                (λ vs e. in_own_map (plan_items is vs e)) (ItemsReady shared is)
                (λ vs d' r'. row-Carries place is vs d' r' (items-Carries place is vs d' r')) rows d
                r))

    pub items-Carries :
        (place : List ℕ) (is : Items) (vs : Values is) (de : Dictionary)
        → ItemsReady shared is vs de
        → Carries shared de
            (visit_items skipped true is vs)
            (read_items held kept place is)
            (SameValues is vs)
            (plan_items is vs de)
    items-Carries place no_items vs de ready = give-Carries shared _ de (λ _. tt) _ (λ _ _. tt)
    items-Carries place (item i is) (v, vs) de ready =
        bind-Carries shared de (visit_item skipped true i v) (visit_items skipped true is vs)
          (read_item held kept (0 ∷ place) i)
          (λ a. read_as (λ rest. (a, rest)) (read_items held kept (1 ∷ place) is)) (SameValue i v)
          (SameValues (item i is) (v, vs)) (plan_item i v de) (plan_items is vs)
          (item-Carries (0 ∷ place) i v de ready.0)
          λ d bits e.
            read_as-Carries shared (SameValue i v) d (visit_items skipped true is vs)
              (λ _. read_items held kept (1 ∷ place) is) (SameValues is vs)
              (SameValues (item i is) (v, vs)) (λ a rest. (a, rest)) (plan_items is vs d)
              (reindex-Carries shared (SameValue i v) d (visit_items skipped true is vs) _
                (read_items held kept (1 ∷ place) is) (SameValues is vs) (plan_items is vs d)
                (λ _ _. refl)
                (items-Carries (1 ∷ place) is vs d
                  (ready_after (plan_item i v de) _ d bits ready.1 e)))
              (λ a rest g r. (g, r))
