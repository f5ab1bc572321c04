-- ===== src/Nested/Delivery.antt =====
-- A message with groups and sequences that the encoder sends is received by the decoder.
use m_fast.Common.{
  ℕ, ◌+◌, ◌/◌, ◌≡◌, refl, sym, ap, ◌∙◌, subst, Bool, true, false, not, ◌||◌, Option, none, some,
  List, [], ◌∷◌, ◌++◌, length, if◌then◌else◌, if-both, arith,
}
use m_fast.Wire.Outcome.{fault, ok, err}
use m_fast.Wire.IntType.{uint32, InRange}
use m_fast.Field.Storage.{Slot}
use m_fast.PresenceMap.Decoder.{DecoderMap}
use m_fast.PresenceMap.Encoder.{init, commit}
use m_fast.Message.Template.{Dictionary, reset_dictionary}
use m_fast.Message.RoundTrip.{and_then_assoc}
use m_fast.Nested.Leaf.{save_at-SameShared}
use m_fast.Message.Encoder.{
  EncoderState, encoded, failed, and_then, put_template_id, MessageEncoder, same_id, finish_message,
}
use m_fast.Nested.Template.{Items, Values, items_pmap_size}
use m_fast.Nested.Decoder.{Read, got, threw, bind, then_read, give}
use m_fast.Nested.Plan.{planned, plan_items, SameShared, SameValues, ItemsReady}
use m_fast.Nested.Carries.{in_state}
use m_fast.Nested.Segment.{PlanSets}
use m_fast.Nested.BitCount.{items-PlanSets}
use m_fast.Nested.Message.{
  MessageTemplate, MessageRepository, find_message_template, begin_message, visit_message_items,
  visit_nested, encode_nested, NestedMessage, read_template_id, active_template, read_message,
  decode_nested,
}
use m_fast.Nested.MessageRun.{AllVisited, message_run}

-- The decoder's end of it: the message, and a dictionary in step with the encoder's.
abbrev pub ReceivesMessage :
    (ℕ → Bool)
    → Dictionary
    → (t : MessageTemplate) → Values t.items
    → Read NestedMessage
    → List ℕ
    → Type 0
ReceivesMessage shared dict' t vs r rest =
    (dd' : Dictionary) × (vs' : Values t.items) × (m : Option DecoderMap) × (r
      ≡ got dd' (t, vs') m rest)
    × SameShared shared dict' dd'
    × SameValues t.items vs vs'

-- `skipped` leaves as many bytes as it is asked for; `shared` tells the keys that fields share.
module _ (shared : ℕ → Bool) (skipped : List ℕ → ℕ → List ℕ)
    (skips : (w : List ℕ) (k : ℕ) → length (skipped w k) ≡ k) (held : List ℕ → Slot ℕ)
    (kept : (is : Items) → List (Values is)) where
  reset-SameShared :
      (keys : List ℕ) (de dd : Dictionary)
      → SameShared shared de dd
      → SameShared shared (reset_dictionary keys de) (reset_dictionary keys dd)
  unfolding reset_dictionary
  reset-SameShared [] de dd same = same
  reset-SameShared (key ∷ keys) de dd same = reset-SameShared keys _ _ (
      save_at-SameShared shared key _ _ de dd
        (λ s. record {
          defined = refl;
          present = (same key s).present;
          content = (same key s).content;
        })
        same)

  begin-SameShared :
      (repo : MessageRepository) (force_reset : Bool) (t : MessageTemplate) (de dd : Dictionary)
      → SameShared shared de dd
      → SameShared shared
          (begin_message repo force_reset t de)
          (begin_message repo force_reset t dd)
  begin-SameShared repo force_reset t de dd same =
      if-both (SameShared shared) (force_reset || t.reset) (force_reset || t.reset) _ _ _ _ refl
        (λ _. reset-SameShared repo.reset_entries de dd same) (λ _. same)

  -- The template that the decoder finds.
  active_lem :
      (repo : MessageRepository) (active : Option MessageTemplate) (t : MessageTemplate)
      (known : Bool)
      → find_message_template t.id repo.templates ≡ some t
      → (known ≡ true → active ≡ some t)
      → active_template repo active (if not known then some t.id else none) ≡ some t
  active_lem repo active t true found kept_active = kept_active refl
  active_lem repo active t false found kept_active = found

  -- A message with groups and sequences, nested to any depth, that the encoder writes on a stream that
  -- allows overlong maps is decoded into the same values with any bytes behind it, and the previous
  -- values at the keys that fields share, in step before, are in step again. The template is in the
  -- repository and its id is a uint32; the decoder's active template is the encoder's where it is the
  -- message's; the fields outside groups and sequences are present or have no operator; each field is as
  -- its operator takes it for granted, sequences have fewer than 2 ^ 32 elements, and the length of an
  -- absent one has no operator or a constant and a key of its own; no operator refuses its field; and
  -- `skip` leaves as many bytes as it is asked for. Then the encoder does write the message.
  pub decode_nested-encode_nested :
      (repo : MessageRepository) (force_reset : Bool) (t : MessageTemplate)
      (message : (u : MessageTemplate) → Values u.items) (e : MessageEncoder)
      (active : Option MessageTemplate) (dd dict' : Dictionary) (bits : List Bool) (w rest : List ℕ)
      → InRange uint32 t.id
      → find_message_template t.id repo.templates ≡ some t
      → (same_id e.active_message_id t.id ≡ true → active ≡ some t)
      → SameShared shared e.dictionary dd
      → AllVisited t.items (message t)
      → ItemsReady shared t.items (message t) (begin_message repo force_reset t e.dictionary)
      → plan_items t.items (message t) (begin_message repo force_reset t e.dictionary)
        ≡ planned dict' bits
      → (bytes : List ℕ) × (encode_nested skipped true repo force_reset t.id message e w
          ≡ encoded (record { active_message_id = some t.id; dictionary = dict' }, w ++ bytes))
        × ReceivesMessage shared dict' t
            (message t)
            (decode_nested held kept repo force_reset active dd (bytes ++ rest))
            rest
  unfolding encode_nested visit_nested decode_nested read_message
  decode_nested-encode_nested repo force t message e active dd dict' bits w rest r found kept_active
        same visited ready plan =
      let known = same_id e.active_message_id t.id in
      let dict = begin_message repo force t e.dictionary in
      let needed = not known in
      let sets =
        subst (PlanSets (items_pmap_size t.items)) plan
          (items-PlanSets shared t.items (message t) dict ready) in
      let size : length (needed ∷ bits) ≡ items_pmap_size t.items + 1 = omega (arith, sets) in
      let (bytes, end, ran, ends, put, parts) =
        message_run shared skipped skips held kept t.items (message t) dict dict'
          (begin_message repo force t dd) needed t.id bits w rest ready visited plan r
          (begin-SameShared repo force t e.dictionary dd same) in
      let (m, m1, m2, rest1, rest2, dd', vs', loaded, ids, eq, same', sv) = parts in
      let close =
        λ (st : EncoderState). finish_message true t.id st (commit true st.map st.stream) in
      (
        bytes,
        ap
              (λ o. elim o [
                | none ↦ failed fault
                | some u ↦ visit_nested skipped true repo force u (message u) e w
              ])
              found
            ∙ ap
                (λ n.
                  and_then
                    (put_template_id needed t.id
                      (in_state dict (init n w) (w ++ skipped w ((n + 6) / 7))))
                    λ st. and_then (visit_message_items skipped true t.items (message t) st) close)
                (sym size)
            ∙ and_then_assoc _ (visit_message_items skipped true t.items (message t)) close
            ∙ ap (λ q. and_then q close) ran
            ∙ ap (finish_message true t.id end) put
            ∙ ap
                (λ d.
                  encoded (record { active_message_id = some t.id; dictionary = d }, w ++ bytes))
                ends,
        (
          dd',
          vs',
          m2,
          ap
                (λ q. elim q [
                  | ok n s ↦
                      bind read_template_id
                        (λ o. read_message held kept repo force (active_template repo active o)) dd
                        (some n) s
                  | err x ↦ threw x
                ])
                loaded
              ∙ ap
                  (λ q.
                    then_read q
                      λ o. read_message held kept repo force (active_template repo active o))
                  (ids dd)
              ∙ ap (λ o. read_message held kept repo force o dd m1 rest2)
                  (active_lem repo active t known found kept_active)
              ∙ ap (λ q. then_read q λ vs. give (t, vs)) eq,
          same',
          sv,
        ),
      )
