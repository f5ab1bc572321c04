-- ===== src/Builder/Index.antt =====
-- What the fields and groups that `dictionary_builder`
-- (src/mfast/coder/common/dictionary_builder.cpp) visits keep.
use m_fast.Common.{
  ℕ, ◌≡◌, refl, true, false, Option, none, some, List, [], ◌∷◌, ◌++◌, if-elim, ◌==◌,
}
use m_fast.Builder.Dictionary.{
  Scope, Builder, IndexerValue, StorageRequest, Built, built, key_type_mismatch,
  duplicate_template_id, and_then, depends, qualified_key, find, enter, share, answer,
  get_dictionary_storage,
}
use m_fast.Builder.Groups.{
  Part, field, split_decimal, plain, group, sequence, Parts, no_parts, part, Names, visit_field,
  build_group, inner, visit_part, visit_parts,
}

-- `prev_value_` of an instruction
abbrev pub give : StorageRequest → ℕ → Builder → Builder
give r storage b = record b { prev_values = b.prev_values ++ (r.instruction, storage) ∷ [] }

pub answer-elim {ℓ} :
    (Q : Built (ℕ × Builder) → Type ℓ) (key : List ℕ) (r : StorageRequest) (b : Builder)
    (found : Option IndexerValue)
    → (found ≡ none → Q (built (r.instruction, enter key r b)))
    → ((v : IndexerValue)
        → found ≡ some v
        → (v.field_type == r.field_type) ≡ true
        → Q (built (v.storage, share v b)))
    → ((v : IndexerValue)
        → found ≡ some v
        → (v.field_type == r.field_type) ≡ false
        → Q (key_type_mismatch key v.field_type r.field_type))
    → Q (answer key r b found)
unfolding answer
answer-elim Q key r b none new shared clash = new refl
answer-elim Q key r b (some v) new shared clash =
    if-elim Q (v.field_type == r.field_type) (built (v.storage, share v b))
      (key_type_mismatch key v.field_type r.field_type) (shared v refl) (clash v refl)

-- The ways a field is visited: with a storage of its own, with one that it enters, with one that
-- the index has, and with the error.
pub field-elim {ℓ} :
    (P : Built Builder → Type ℓ) (r : StorageRequest) (b : Builder)
    → (depends r.operator ≡ false → P (built (give r r.instruction b)))
    → (depends r.operator ≡ true
        → find (qualified_key b.scope r) b.indexer ≡ none
        → P (built (give r r.instruction (enter (qualified_key b.scope r) r b))))
    → ((v : IndexerValue)
        → depends r.operator ≡ true
        → find (qualified_key b.scope r) b.indexer ≡ some v
        → (v.field_type == r.field_type) ≡ true
        → P (built (give r v.storage (share v b))))
    → ((v : IndexerValue)
        → depends r.operator ≡ true
        → find (qualified_key b.scope r) b.indexer ≡ some v
        → (v.field_type == r.field_type) ≡ false
        → P (key_type_mismatch (qualified_key b.scope r) v.field_type r.field_type))
    → P (visit_field r b)
unfolding get_dictionary_storage answer
field-elim P r b own new shared clash =
    let key = qualified_key b.scope r in
    let next : ℕ × Builder → Built Builder = λ found. built (give r found.0 found.1) in
    let Q : Built (ℕ × Builder) → Type ℓ = λ m. P (and_then m next) in
    let found = find key b.indexer in
    if-elim Q (depends r.operator) (answer key r b found) (built (r.instruction, b))
      (λ d. answer-elim Q key r b found (new d) (λ v. shared v d) (λ v. clash v d)) own

-- Where nothing is thrown, the builder that comes out is related to the one that went in.
abbrev pub Leads : (Builder → Builder → Type 0) → Builder → Built Builder → Type 0
Leads R b (built b') = R b b'
Leads R b _ = Unit {0}

-- A relation that holds of each field and of a change of the scope holds of each part.
module _ {R : Builder → Builder → Type 0} (reflexive : (b : Builder) → R b b)
    (transitive : (b b' b'' : Builder) → R b b' → R b' b'' → R b b'')
    (at_field : (r : StorageRequest) (b : Builder) → Leads R b (visit_field r b))
    (at_scope : (sc : Scope) (b : Builder) → R b (record b { scope = sc })) where
  chain : (b c : Builder) (m : Built Builder) → R b c → Leads R c m → Leads R b m
  chain b c (built b') s h = transitive b c b' s h
  chain b c (key_type_mismatch key first second) s h = tt
  chain b c (duplicate_template_id id) s h = tt

  and_then-Leads :
      (b : Builder) (m : Built Builder) (f : Builder → Built Builder)
      → Leads R b m
      → ((b' : Builder) → Leads R b' (f b'))
      → Leads R b (and_then m f)
  and_then-Leads b (built b') f h g = chain b b' (f b') h (g b')
  and_then-Leads b (key_type_mismatch key first second) f h g = tt
  and_then-Leads b (duplicate_template_id id) f h g = tt

  pub build_group-Leads :
      (names : Names) (instructions : Builder → Built Builder) (b : Builder)
      → ((b' : Builder) → Leads R b' (instructions b'))
      → Leads R b (build_group names instructions b)
  build_group-Leads names instructions b h =
      let b' = record b { scope = inner names b.scope } in
      chain b b' (build_group names instructions b) (at_scope (inner names b.scope) b)
        (and_then-Leads b' (instructions b') _ (h b') λ b''. at_scope _ b'')

  mutual
    unfolding visit_part

    pub visit_part-Leads : (p : Part) (b : Builder) → Leads R b (visit_part p b)
    visit_part-Leads (field r) b = at_field r b
    visit_part-Leads (split_decimal exponent mantissa) b =
        and_then-Leads b (visit_field _ b) (visit_field _) (at_field _ b) (at_field _)
    visit_part-Leads plain b = reflexive b
    visit_part-Leads (group names parts) b =
        build_group-Leads names (visit_parts parts) b (visit_parts-Leads parts)
    visit_part-Leads (sequence names parts length) b =
        and_then-Leads b (build_group names (visit_parts parts) b) (visit_field length)
          (build_group-Leads names (visit_parts parts) b (visit_parts-Leads parts))
          (at_field length)

    pub visit_parts-Leads : (parts : Parts) (b : Builder) → Leads R b (visit_parts parts b)
    visit_parts-Leads no_parts b = reflexive b
    visit_parts-Leads (part p parts) b =
        and_then-Leads b (visit_part p b) (visit_parts parts) (visit_part-Leads p b)
          (visit_parts-Leads parts)
