-- ===== src/Builder/Dictionary.antt =====
-- `dictionary_builder::get_dictionary_storage` (src/mfast/coder/common/dictionary_builder.cpp): the
-- `value_storage` in which a field keeps its previous value.
use m_fast.Common.{
  ℕ, Bool, true, false, ◌&&◌, Option, none, some, List, [], ◌∷◌, ◌++◌, if◌then◌else◌, ◌==◌,
}
use m_fast.Field.Storage.{
  Operator, operator_delta, operator_copy, operator_increment, operator_tail,
}

-- The characters of a name, in ASCII. A null pointer reads as "" everywhere here.
abbrev pub Name : Type 0
Name = List ℕ

abbrev pub same_name : Name → Name → Bool
same_name [] [] = true
same_name (a ∷ s) (b ∷ t) = (a == b) && same_name s t
same_name _ _ = false

abbrev pub is_empty_string : Name → Bool
is_empty_string [] = true
is_empty_string (a ∷ s) = false

-- `if (is_empty_string(s)) s = t;`
abbrev pub or_else : Name → Name → Name
or_else s t = if is_empty_string s then t else s

abbrev pub global : Name
global = 103 ∷ 108 ∷ 111 ∷ 98 ∷ 97 ∷ 108 ∷ []

abbrev pub template : Name
template = 116 ∷ 101 ∷ 109 ∷ 112 ∷ 108 ∷ 97 ∷ 116 ∷ 101 ∷ []

abbrev pub type : Name
type = 116 ∷ 121 ∷ 112 ∷ 101 ∷ []

abbrev pub bars : Name
bars = 124 ∷ 124 ∷ []

abbrev pub colons : Name
colons = 58 ∷ 58 ∷ []

abbrev pub qualified_name : Name → Name → Name
qualified_name ns name = ns ++ bars ++ name

pub record OpContext : Type 0 where
  pub key : Name
  pub ns : Name
  pub dictionary : Name

-- The names that are in force where a field stands.
pub record Scope : Type 0 where
  pub current_template : Name
  pub current_type : Name
  pub current_ns : Name
  pub current_dictionary : Name

-- `indexer_value_type`: an instruction is a number, and so is a storage. The `prev_storage_` of an
-- instruction has the instruction's number.
pub record IndexerValue : Type 0 where
  pub field_type : ℕ
  pub instruction : ℕ
  pub storage : ℕ

-- The builder's members, with what it changes elsewhere: the instructions that are marked
-- `previous_value_shared`, the `reset_entries_` of the repository, and the `prev_value_` that each
-- instruction is given.
pub record Builder : Type 0 where
  pub scope : Scope
  pub indexer : List (Name × IndexerValue)
  pub shared : List ℕ
  pub reset_entries : List ℕ
  pub prev_values : List (ℕ × ℕ)

-- The arguments of `get_dictionary_storage`
pub record StorageRequest : Type 0 where
  pub key : Name
  pub ns : Name
  pub op_context : Option OpContext
  pub operator : Operator
  pub field_type : ℕ
  pub instruction : ℕ

-- What is thrown: the error D4 with the key and both types, the error for a number of a template
-- that is taken, or nothing.
pub data Built (A : Type 0) : Type 0 where
  built : A → Built A
  key_type_mismatch : Name → ℕ → ℕ → Built A
  duplicate_template_id : ℕ → Built A

abbrev pub and_then : {A B : Type 0} → Built A → (A → Built B) → Built B
and_then (built a) f = f a
and_then (key_type_mismatch key first second) f = key_type_mismatch key first second
and_then (duplicate_template_id id) f = duplicate_template_id id

-- The operators at which a field depends on a previous value.
abbrev pub depends : Operator → Bool
depends operator_delta = true
depends operator_copy = true
depends operator_increment = true
depends operator_tail = true
depends _ = false

-- `dict`, `ns` and `key` at the place where the qualified key is put together.

abbrev pub dictionary_of : Scope → StorageRequest → Name
dictionary_of sc r =
    or_else
      (or_else (elim r.op_context [ none ↦ [] | some c ↦ c.dictionary ]) sc.current_dictionary)
      global

abbrev pub ns_of : Scope → StorageRequest → Name
ns_of sc r = or_else (elim r.op_context [ none ↦ r.ns | some c ↦ c.ns ]) sc.current_ns

abbrev pub key_of : Scope → StorageRequest → Name
key_of sc r = elim r.op_context [ none ↦ r.key | some c ↦ or_else c.key r.key ]

abbrev pub owner : Scope → Name → Name
owner sc dict =
    if same_name dict template
    then colons ++ sc.current_template
    else if same_name dict type
    then colons ++ sc.current_type
    else []

abbrev pub qualified_key : Scope → StorageRequest → Name
qualified_key sc r =
    let dict = dictionary_of sc r in
    dict ++ owner sc dict ++ colons ++ qualified_name (ns_of sc r) (key_of sc r)

-- `indexer_.find`
abbrev pub find : Name → List (Name × IndexerValue) → Option IndexerValue
find key [] = none
find key (e ∷ index) = let rest = find key index in if same_name key e.0 then some e.1 else rest

abbrev pub new_value : StorageRequest → IndexerValue
new_value r = record {
  field_type = r.field_type;
  instruction = r.instruction;
  storage = r.instruction;
}

-- `indexer_[qualified_key]` and `add_reset_entry`
abbrev pub enter : Name → StorageRequest → Builder → Builder
enter key r b = record b {
  indexer = b.indexer ++ (key, new_value r) ∷ [];
  reset_entries = b.reset_entries ++ r.instruction ∷ [];
}

abbrev pub share : IndexerValue → Builder → Builder
share v b = record b { shared = b.shared ++ v.instruction ∷ [] }

unfoldable pub answer : Name → StorageRequest → Builder → Option IndexerValue → Built (ℕ × Builder)
answer key r b none = built (r.instruction, enter key r b)
answer key r b (some v) =
    if v.field_type == r.field_type
    then built (v.storage, share v b)
    else key_type_mismatch key v.field_type r.field_type

unfoldable pub get_dictionary_storage : StorageRequest → Builder → Built (ℕ × Builder)
get_dictionary_storage r b =
    let key = qualified_key b.scope r in
    if depends r.operator then answer key r b (find key b.indexer) else built (r.instruction, b)
