-- ===== src/Builder/Sharing.antt =====
-- Fields that have one entry in the dictionary of `dictionary_builder`
-- (src/mfast/coder/common/dictionary_builder.cpp).
use m_fast.Common.{
  ℕ, ◌≡◌, refl, sym, subst, ap, ◌∙◌, true, some, [], ◌∷◌, ◌++◌, if◌then◌else◌, if-true, ◌==◌, ==→eq,
}
use mathlib.Core.List.{Memᴰ}
use m_fast.Builder.Dictionary.{
  Name, Scope, Builder, IndexerValue, StorageRequest, Built, built, key_type_mismatch, and_then,
  depends, qualified_key, find, answer, new_value, share, get_dictionary_storage,
}
use m_fast.Builder.Groups.{Parts, visit_parts, visit_field}
use m_fast.Builder.Index.{give, answer-elim}
use m_fast.Builder.Find.{find_new, find-storages, storages}
use m_fast.Builder.Invariant.{IsConsistent, Keeps, visit_field-Keeps, visit_parts-Keeps, reached}

-- The entry of a field that was given a storage.
abbrev HasEntry : Name → ℕ → ℕ → Builder → IndexerValue → Type 0
HasEntry key kind s b v = (find key b.indexer ≡ some v) × (v.field_type ≡ kind) × (v.storage ≡ s)

abbrev Enters : Name → ℕ → Built (ℕ × Builder) → Type 0
Enters key kind (built found) = (v : IndexerValue) × HasEntry key kind found.0 found.1 v
Enters key kind _ = Unit {0}

get_dictionary_storage-Enters :
    (r : StorageRequest) (b : Builder)
    → depends r.operator ≡ true
    → Enters (qualified_key b.scope r) r.field_type (get_dictionary_storage r b)
unfolding get_dictionary_storage
get_dictionary_storage-Enters r b d =
    let key = qualified_key b.scope r in
    subst (Enters key r.field_type) (sym (if-true _ _ d)) (
      answer-elim (Enters key r.field_type) key r b (find key b.indexer)
        (λ absent. (new_value r, (find_new key (new_value r) b.indexer absent, refl, refl)))
        (λ v found same. (v, (found, ==→eq _ _ same, refl))) (λ _ _ _. tt))

-- The storage where the types are the same, and D4 where they are not.
abbrev pub same_or_clash : Name → ℕ → ℕ → ℕ → Builder → Built (ℕ × Builder)
same_or_clash key first second s b =
    if first == second then built (s, b) else key_type_mismatch key first second

-- The answer where the index has the key.
found_again :
    (r : StorageRequest) (b : Builder) (v : IndexerValue)
    → depends r.operator ≡ true
    → find (qualified_key b.scope r) b.indexer ≡ some v
    → get_dictionary_storage r b
      ≡ same_or_clash (qualified_key b.scope r) v.field_type r.field_type v.storage (share v b)
unfolding get_dictionary_storage answer
found_again r b v d h = if-true _ _ d ∙ ap (answer (qualified_key b.scope r) r b) h

-- A field that depends on a previous value is given a storage in a consistent builder. After any
-- instructions that do not throw, and in any scope, that storage is an entry that is reset, and
-- another such field whose qualified key is the same is given the same storage if its type is the
-- same, and throws D4 with the key and both types if it is not. Only the mark of one instruction as
-- shared is changed.
pub get_dictionary_storage-visit_parts :
    (r r' : StorageRequest) (parts : Parts) (b b₁ b₂ : Builder) (sc : Scope) (s : ℕ)
    → IsConsistent b
    → depends r.operator ≡ true
    → depends r'.operator ≡ true
    → get_dictionary_storage r b ≡ built (s, b₁)
    → visit_parts parts b₁ ≡ built b₂
    → qualified_key sc r' ≡ qualified_key b.scope r
    → Memᴰ s b₂.reset_entries
      × ((i : ℕ) × (get_dictionary_storage r' (record b₂ { scope = sc })
            ≡ same_or_clash
                (qualified_key b.scope r)
                r.field_type
                r'.field_type
                s
                (record b₂ { scope = sc; shared = b₂.shared ++ i ∷ [] })))
get_dictionary_storage-visit_parts r r' parts b b₁ b₂ sc s c d d' e run same =
    let key = qualified_key b.scope r in
    let entry = subst (Enters key r.field_type) e (get_dictionary_storage-Enters r b d) in
    let v = entry.0 in
    let visited =
      reached Keeps b (give r s b₁) (visit_field r b) (visit_field-Keeps r b)
        (ap (λ m. and_then m (λ found. built (give r found.0 found.1))) e) in
    let later = reached Keeps b₁ b₂ _ (visit_parts-Keeps parts b₁) run in
    let b' : Builder = record b₂ { scope = sc } in
    let still : find (qualified_key sc r') b₂.indexer ≡ some v =
      ap (λ k. find k b₂.indexer) same ∙ later.finds key v entry.1.0 in
    (
      later.resets s (
          subst (λ l. Memᴰ s l) (visited.consistent c).entries_reset
            (subst (λ t. Memᴰ t (storages b₁.indexer)) entry.1.2
              (find-storages key v b₁.indexer entry.1.0))),
      (
        v.instruction,
        found_again r' b' v d' still
            ∙ ap (λ k. same_or_clash k v.field_type r'.field_type v.storage (share v b')) same
            ∙ ap (λ t. same_or_clash key t r'.field_type v.storage (share v b')) entry.1.1
            ∙ ap (λ t. same_or_clash key r.field_type r'.field_type t (share v b')) entry.1.2,
      ),
    )
