-- ===== src/Nested/Runs.antt =====
-- A message with a group and sequences, sent and received.
use m_fast.Common.{
  ℕ, ◌≡◌, refl, sym, inl, inr, Bool, true, false, ◌||◌, none, some, List, [], ◌∷◌, ◌++◌, ◌==◌,
  arith,
}
use mathlib.Core.Bool.{true≢false}
use m_fast.Wire.IntType.{uint32}
use m_fast.Field.Storage.{operator_none, operator_copy, Slot}
use m_fast.Field.Encode.{encode_copy, encode_none}
use m_fast.Field.Ints.{encode_by, int_is_initial_value, int_is_same}
use m_fast.Message.Template.{FieldInstruction, Dictionary, save_at}
use m_fast.Message.Encoder.{encoded}
use m_fast.Container.Vector.{repeat}
use m_fast.Container.Assign.{length-repeat}
use m_fast.Nested.Template.{
  Item, leaf, group, optional_group, sequence, optional_sequence, Items, no_items, item, Value,
  Values,
}
use m_fast.Nested.Plan.{plan_items, planned, LeafReady, ItemsReady, plan_item, ItemReady}
use m_fast.Nested.Message.{
  MessageTemplate, MessageRepository, find_message_template, encode_nested, decode_nested,
}
use m_fast.Nested.MessageRun.{AllVisited}
use m_fast.Nested.Delivery.{ReceivesMessage, decode_nested-encode_nested}

abbrev unset_slot : Slot ℕ
unset_slot = record { defined = false; present = false; content = 0 }

abbrev no_dictionary : Dictionary
no_dictionary key = unset_slot

abbrev five : Slot ℕ
five = record { defined = true; present = true; content = 5 }

-- A value for every instruction: fields are 5, sequences have two elements, and optional ones are absent.
unfoldable mutual
  unfolding Value

  sample : (i : Item) → Value i
  sample (leaf i) = five
  sample (group is) = samples is
  sample (optional_group is) = some (samples is)
  sample (sequence i is) = samples is ∷ samples is ∷ []
  sample (optional_sequence i is) = none

  samples : (is : Items) → Values is
  samples no_items = tt
  samples (item i is) = (sample i, samples is)

-- A price with a key of its own.
abbrev price_at : ℕ → FieldInstruction
price_at key = record {
  type = uint32;
  instruction = record { operator = operator_copy; optional = false; initial = unset_slot };
  key = key;
}

abbrev length_at : Bool → ℕ → FieldInstruction
length_at optional key = record {
  type = uint32;
  instruction = record { operator = operator_none; optional = optional; initial = unset_slot };
  key = key;
}

abbrev one : FieldInstruction → Items
one i = item (leaf i) no_items

abbrev book_items : Items
book_items = item (leaf (price_at 0)) (
    item (optional_group (one (price_at 1))) (
      item (sequence (length_at false 2) (one (price_at 3)))
        (item (optional_sequence (length_at true 4) (one (price_at 0))) no_items)))

abbrev book : MessageTemplate
book = record { id = 3; reset = false; items = book_items }

abbrev books : MessageRepository
books = record { templates = book ∷ []; reset_entries = 0 ∷ 1 ∷ 3 ∷ [] }

abbrev shared_keys : ℕ → Bool
shared_keys key = key == 0 || (key == 1 || key == 3)

abbrev cleared_bytes : List ℕ → ℕ → List ℕ
cleared_bytes w k = repeat k 0

abbrev saved_book : Dictionary
saved_book = save_at 3 five (
    save_at 3 five
      (save_at 2 (record five { content = 2 }) (save_at 1 five (save_at 0 five no_dictionary))))

book_plan :
    plan_items book_items (samples book_items) no_dictionary ≡ planned saved_book (true ∷ true ∷ [])
unfolding Value sample plan_item encode_by encode_copy encode_none int_is_initial_value int_is_same
book_plan = refl

book-AllVisited : AllVisited book_items (samples book_items)
unfolding Value sample AllVisited
book-AllVisited = (refl, tt)

price-LeafReady :
    (key : ℕ) (pe : Slot ℕ) → shared_keys key ≡ true → LeafReady shared_keys (price_at key) pe five
price-LeafReady key pe k = record {
  range = omega arith;
  representable = tt;
  encodable = tt;
  known = inl k;
}

book-ItemsReady : ItemsReady shared_keys book_items (samples book_items) no_dictionary
unfolding Value sample ItemReady plan_item encode_by encode_copy encode_none int_is_initial_value
    int_is_same
book-ItemsReady =
    let price_ready =
      λ (key : ℕ) (pe : Slot ℕ) (k : shared_keys key ≡ true). price-LeafReady key pe k in
    (
      price_ready 0 unset_slot refl,
      (
        (price_ready 1 unset_slot refl, tt),
        (
          (
            record {
              short = omega arith;
              field_ready = record {
                range = omega arith;
                representable = tt;
                encodable = tt;
                known = inr (refl, refl);
              };
            },
            ((price_ready 3 unset_slot refl, tt), ((price_ready 3 five refl, tt), tt)),
          ),
          (record { optional = refl; operator_is = refl }, tt),
        ),
      ),
    )

decode_nested-encode_nested_example :
    (bytes : List ℕ) × (encode_nested cleared_bytes true books false 3
        (λ u. samples u.items)
        (record { active_message_id = none; dictionary = no_dictionary })
        (9 ∷ [])
      ≡ encoded (record { active_message_id = some 3; dictionary = saved_book }, 9 ∷ bytes))
    × ReceivesMessage shared_keys saved_book book
        (samples book_items)
        (decode_nested
          (λ _. unset_slot)
          (λ _. [])
          books
          false
          none
          no_dictionary
          (bytes ++ (8 ∷ [])))
        (8 ∷ [])
unfolding find_message_template
decode_nested-encode_nested_example =
    decode_nested-encode_nested shared_keys cleared_bytes (λ w k. length-repeat k 0)
      (λ _. unset_slot) (λ _. []) books false book (λ u. samples u.items)
      (record { active_message_id = none; dictionary = no_dictionary }) none no_dictionary
      saved_book (true ∷ true ∷ []) (9 ∷ []) (8 ∷ []) (omega arith) refl
      (λ e. absurd (true≢false (sym e)))
      (λ key s. record { defined = refl; present = refl; content = λ _. refl }) book-AllVisited
      book-ItemsReady book_plan
