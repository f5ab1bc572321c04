-- ===== src/Builder/Groups.antt =====
-- `dictionary_builder` (src/mfast/coder/common/dictionary_builder.cpp) at fields, groups, sequences
-- and templates.
use m_fast.Common.{ℕ, Bool, [], ◌∷◌, ◌++◌, if◌then◌else◌}
use m_fast.Builder.Dictionary.{
  Name, is_empty_string, or_else, qualified_name, Scope, Builder, StorageRequest, Built, built,
  duplicate_template_id, and_then, get_dictionary_storage,
}

-- The names that a group, a sequence or a template carries.
pub record Names : Type 0 where
  pub ns : Name
  pub dictionary : Name
  pub typeref_name : Name
  pub typeref_ns : Name

-- The instructions of a group: a field, a decimal whose mantissa has an operator of its own, a
-- field that has no dictionary entry, a group, and a sequence with its length.
mutual
  pub data Part : Type 0 where
    field : StorageRequest → Part
    split_decimal : StorageRequest → StorageRequest → Part
    plain : Part
    group : Names → Parts → Part
    sequence : Names → Parts → StorageRequest → Part

  pub data Parts : Type 0 where
    no_parts : Parts
    part : Part → Parts → Parts

-- `dest->prev_value_ = get_dictionary_storage(...)`
abbrev pub visit_field : StorageRequest → Builder → Built Builder
visit_field r b = and_then (get_dictionary_storage r b) λ found.
    built (record found.1 { prev_values = found.1.prev_values ++ (r.instruction, found.0) ∷ [] })

-- "....mantissa" and "....exponent", and `field_type_enum_t`

abbrev pub mantissa_suffix : Name
mantissa_suffix = 46 ∷ 46 ∷ 46 ∷ 46 ∷ 109 ∷ 97 ∷ 110 ∷ 116 ∷ 105 ∷ 115 ∷ 115 ∷ 97 ∷ []

abbrev pub exponent_suffix : Name
exponent_suffix = 46 ∷ 46 ∷ 46 ∷ 46 ∷ 101 ∷ 120 ∷ 112 ∷ 111 ∷ 110 ∷ 101 ∷ 110 ∷ 116 ∷ []

abbrev pub field_type_int64 : ℕ
field_type_int64 = 2

abbrev pub field_type_exponent : ℕ
field_type_exponent = 5

-- The mantissa's request has the name and the namespace of the decimal.
abbrev pub split_mantissa : StorageRequest → StorageRequest → StorageRequest
split_mantissa exponent mantissa = record mantissa {
  key = exponent.key ++ mantissa_suffix;
  ns = exponent.ns;
  field_type = field_type_int64;
}

abbrev pub split_exponent : StorageRequest → StorageRequest
split_exponent exponent = record exponent {
  key = exponent.key ++ exponent_suffix;
  field_type = field_type_exponent;
}

abbrev pub visit_split_decimal : StorageRequest → StorageRequest → Builder → Built Builder
visit_split_decimal exponent mantissa b =
    and_then (visit_field (split_mantissa exponent mantissa) b)
      (visit_field (split_exponent exponent))

-- The scope in which `build_group` visits the instructions of the group. The namespace of the type
-- is the one beside the reference, also where that is empty.
abbrev pub inner : Names → Scope → Scope
inner names sc = record sc {
  current_ns = or_else names.ns sc.current_ns;
  current_dictionary = or_else names.dictionary sc.current_dictionary;
  current_type =
      if is_empty_string names.typeref_name
      then sc.current_type
      else qualified_name names.typeref_ns names.typeref_name;
}

abbrev pub inherit : Scope → Builder → Builder
inherit sc b = record b {
  scope = record b.scope {
    current_type = sc.current_type;
    current_ns = sc.current_ns;
    current_dictionary = sc.current_dictionary;
  };
}

abbrev pub build_group : Names → (Builder → Built Builder) → Builder → Built Builder
build_group names instructions b =
    and_then (instructions (record b { scope = inner names b.scope }))
      λ b'. built (inherit b.scope b')

unfoldable mutual
  pub visit_part : Part → Builder → Built Builder
  visit_part (field r) b = visit_field r b
  visit_part (split_decimal exponent mantissa) b = visit_split_decimal exponent mantissa b
  visit_part plain b = built b
  visit_part (group names parts) b = build_group names (visit_parts parts) b
  visit_part (sequence names parts length) b =
      and_then (build_group names (visit_parts parts) b) (visit_field length)

  pub visit_parts : Parts → Builder → Built Builder
  visit_parts no_parts b = built b
  visit_parts (part p parts) b = and_then (visit_part p b) (visit_parts parts)

-- `current_template_` is set, and stays set behind the template.
abbrev pub template_scope : Names → Name → Scope → Scope
template_scope names name sc = record sc {
  current_template = qualified_name (or_else names.ns sc.current_ns) name;
}

-- `clone_instruction` of a template, where `taken` tells the numbers that the repository has.
abbrev pub clone_instruction : (ℕ → Bool) → ℕ → Name → Names → Parts → Builder → Built Builder
clone_instruction taken id name names parts b =
    if taken id
    then duplicate_template_id id
    else build_group names (visit_parts parts)
        (record b { scope = template_scope names name b.scope })
