-- ===== src/Builder/Runs.antt =====
-- Runs of `dictionary_builder` (src/mfast/coder/common/dictionary_builder.cpp).
use m_fast.Common.{ℕ, ◌≡◌, refl, Bool, false, none, [], ◌∷◌, ◌++◌, if◌then◌else◌}
use mathlib.Core.List.{Memᴰ}
use m_fast.Field.Storage.{operator_copy, operator_delta}
use m_fast.Builder.Dictionary.{
  Name, Builder, StorageRequest, Built, built, qualified_key, global, get_dictionary_storage,
  answer, same_name,
}
use m_fast.Builder.Groups.{
  Names, Parts, no_parts, part, field, plain, sequence, visit_parts, clone_instruction,
  template_scope,
}
use m_fast.Builder.Invariant.{IsConsistent, clone_instruction-IsConsistent}
use m_fast.Builder.Sharing.{get_dictionary_storage-visit_parts, same_or_clash}
use m_fast.Builder.Agreement.{Agrees, IndexAgrees, clone_instruction-Succeeds}

abbrev empty : Builder
empty = record {
  scope = record {
    current_template = [];
    current_type = [];
    current_ns = 78 ∷ [];
    current_dictionary = global;
  };
  indexer = [];
  shared = [];
  reset_entries = [];
  prev_values = [];
}

empty-IsConsistent : IsConsistent empty
empty-IsConsistent = record { distinct = tt; entries_reset = refl; held = λ p m. elim m [ ] }

-- A copied "P" of 32 bits, a sequence with a delta "Q", the copied "P" again, and a plain field.
abbrev price : ℕ → StorageRequest
price n = record {
  key = 80 ∷ [];
  ns = [];
  op_context = none;
  operator = operator_copy;
  field_type = 0;
  instruction = n;
}

abbrev size : ℕ → StorageRequest
size n = record {
  key = 81 ∷ [];
  ns = [];
  op_context = none;
  operator = operator_delta;
  field_type = 1;
  instruction = n;
}

abbrev text : StorageRequest
text = record {
  key = 80 ∷ [];
  ns = [];
  op_context = none;
  operator = operator_copy;
  field_type = 7;
  instruction = 9;
}

abbrev no_names : Names
no_names = record { ns = []; dictionary = []; typeref_name = []; typeref_ns = [] }

abbrev entries : Parts
entries = part (field (size 3)) (part (field (price 4)) no_parts)

abbrev parts : Parts
parts = part (field (price 1)) (part (sequence no_names entries (size 2)) (part plain no_parts))

abbrev final : Built Builder → Builder
final (built b) = b
final _ = empty

abbrev nothing_taken : ℕ → Bool
nothing_taken id = false

abbrev after_template : Builder
after_template = final (clone_instruction nothing_taken 1 (84 ∷ []) no_names parts empty)

built_template :
    clone_instruction nothing_taken 1 (84 ∷ []) no_names parts empty ≡ built after_template
unfolding visit_parts get_dictionary_storage answer
built_template = refl

resets_two : after_template.reset_entries ≡ 1 ∷ 3 ∷ []
unfolding visit_parts get_dictionary_storage answer
resets_two = refl

gives : after_template.prev_values ≡ (1, 1) ∷ (3, 3) ∷ (4, 1) ∷ (2, 3) ∷ []
unfolding visit_parts get_dictionary_storage answer
gives = refl

clone_instruction-IsConsistent_example : IsConsistent after_template
clone_instruction-IsConsistent_example =
    clone_instruction-IsConsistent nothing_taken 1 (84 ∷ []) no_names parts empty after_template
      empty-IsConsistent built_template

abbrev kind : Name → ℕ
kind key = if same_name key (qualified_key empty.scope (price 1)) then 0 else 1

clone_instruction-Succeeds_example :
    (b' : Builder) × (clone_instruction nothing_taken 1 (84 ∷ []) no_names parts empty ≡ built b')
    × (b'.scope ≡ template_scope no_names (84 ∷ []) empty.scope)
    × IndexAgrees kind b'.indexer
unfolding Agrees
clone_instruction-Succeeds_example =
    clone_instruction-Succeeds kind nothing_taken 1 (84 ∷ []) no_names parts empty refl tt
      ((λ _. refl), ((((λ _. refl), ((λ _. refl), tt)), (λ _. refl)), (tt, tt)))

abbrev entered : Builder
entered = record empty {
  indexer =
      (qualified_key empty.scope (price 1), record { field_type = 0; instruction = 1; storage = 1 })
      ∷ [];
  reset_entries = 1 ∷ [];
}

abbrev later : Builder
later = final (visit_parts entries entered)

entered_first : get_dictionary_storage (price 1) empty ≡ built (1, entered)
unfolding get_dictionary_storage answer
entered_first = refl

visited_later : visit_parts entries entered ≡ built later
unfolding visit_parts get_dictionary_storage answer
visited_later = refl

get_dictionary_storage-visit_parts_example :
    Memᴰ 1 later.reset_entries
    × ((i : ℕ) × (get_dictionary_storage text (record later { scope = empty.scope })
          ≡ same_or_clash
              (qualified_key empty.scope (price 1))
              0
              7
              1
              (record later { scope = empty.scope; shared = later.shared ++ i ∷ [] })))
get_dictionary_storage-visit_parts_example =
    get_dictionary_storage-visit_parts (price 1) text entries empty entered later empty.scope 1
      empty-IsConsistent refl refl entered_first visited_later refl
