-- ===== src/Builder/Invariant.antt =====
-- The dictionary that `dictionary_builder` (src/mfast/coder/common/dictionary_builder.cpp) has laid
-- out, whatever templates it was given.
use m_fast.Common.{
  ℕ, ◌≡◌, refl, sym, subst, ap, ◌∙◌, ◌⊎◌, inl, inr, Bool, List, [], ◌∷◌, ◌++◌, some, if-elim,
}
use mathlib.Core.List.Memᴰ
use mathlib.Core.List.{Memᴰ}
use m_fast.Builder.Dictionary.{
  Name, Scope, Builder, IndexerValue, StorageRequest, Built, built, duplicate_template_id,
  new_value, qualified_key, find,
}
use m_fast.Builder.Groups.{
  Names, Parts, visit_parts, visit_field, build_group, clone_instruction, template_scope,
}
use m_fast.Builder.Index.{field-elim, Leads, build_group-Leads, visit_parts-Leads}
use m_fast.Builder.Find.{
  Distinct, append-Distinct, storages, storages-append, find-storages, find_kept,
}

-- The instruction and the storage of a `prev_value_`: it is its own, or one that is reset.
abbrev pub IsHeld : List ℕ → ℕ × ℕ → Type 0
IsHeld reset p = (p.1 ≡ p.0) ⊎ Memᴰ p.1 reset

pub record IsConsistent (b : Builder) : Type 0 where
  pub distinct : Distinct b.indexer
  pub entries_reset : storages b.indexer ≡ b.reset_entries
  pub held : (p : ℕ × ℕ) → Memᴰ p b.prev_values → IsHeld b.reset_entries p

held_appended :
    (reset more : List ℕ) (values : List (ℕ × ℕ)) (q : ℕ × ℕ)
    → ((p : ℕ × ℕ) → Memᴰ p values → IsHeld reset p)
    → IsHeld (reset ++ more) q
    → (p : ℕ × ℕ) → Memᴰ p (values ++ q ∷ [])
    → IsHeld (reset ++ more) p
held_appended reset more values q h k p m = go (Memᴰ.append_cases values m)
  where
    kept : IsHeld reset p → IsHeld (reset ++ more) p
    kept (inl e) = inl e
    kept (inr i) = inr (Memᴰ.append_left more i)

    go : Memᴰ p values ⊎ Memᴰ p (q ∷ []) → IsHeld (reset ++ more) p
    go (inl i) = kept (h p i)
    go (inr i) = subst (IsHeld (reset ++ more)) (sym (Memᴰ.eq_of_singleton i)) k

held_given :
    (reset : List ℕ) (values : List (ℕ × ℕ)) (q : ℕ × ℕ)
    → ((p : ℕ × ℕ) → Memᴰ p values → IsHeld reset p)
    → IsHeld reset q
    → (p : ℕ × ℕ) → Memᴰ p (values ++ q ∷ [])
    → IsHeld reset p
held_given reset values q h k p m = go (Memᴰ.append_cases values m)
  where
    go : Memᴰ p values ⊎ Memᴰ p (q ∷ []) → IsHeld reset p
    go (inl i) = h p i
    go (inr i) = subst (IsHeld reset) (sym (Memᴰ.eq_of_singleton i)) k

-- What a visit keeps: a consistent builder stays one, an entry of the index is found as before, and
-- a storage that is reset stays one.
pub record Keeps (b b' : Builder) : Type 0 where
  pub consistent : IsConsistent b → IsConsistent b'
  pub finds :
      (key : Name) (v : IndexerValue) → find key b.indexer ≡ some v → find key b'.indexer ≡ some v
  pub resets : (s : ℕ) → Memᴰ s b.reset_entries → Memᴰ s b'.reset_entries

pub visit_field-Keeps : (r : StorageRequest) (b : Builder) → Leads Keeps b (visit_field r b)
visit_field-Keeps r b =
    let key = qualified_key b.scope r in
    field-elim (Leads Keeps b) r b
      (λ _. record {
        consistent = λ c. record {
          distinct = c.distinct;
          entries_reset = c.entries_reset;
          held = held_given b.reset_entries b.prev_values _ c.held (inl refl);
        };
        finds = λ _ _ h. h;
        resets = λ _ h. h;
      })
      (λ _ absent. record {
        consistent = λ c. record {
          distinct = append-Distinct key (new_value r) b.indexer c.distinct absent;
          entries_reset =
              storages-append b.indexer (key, new_value r)
              ∙ ap (λ l. l ++ r.instruction ∷ []) c.entries_reset;
          held = held_appended b.reset_entries _ b.prev_values _ c.held (inl refl);
        };
        finds = λ k v. find_kept k v b.indexer _;
        resets = λ _. Memᴰ.append_left _;
      })
      (λ v _ found _. record {
        consistent = λ c. record {
          distinct = c.distinct;
          entries_reset = c.entries_reset;
          held =
              held_given b.reset_entries b.prev_values _ c.held (
                inr (subst (Memᴰ v.storage) c.entries_reset (find-storages key v b.indexer found)));
        };
        finds = λ _ _ h. h;
        resets = λ _ h. h;
      })
      (λ _ _ _ _. tt)

scope-Keeps : (sc : Scope) (b : Builder) → Keeps b (record b { scope = sc })
scope-Keeps sc b = record {
  consistent =
      λ c. record { distinct = c.distinct; entries_reset = c.entries_reset; held = c.held };
  finds = λ _ _ h. h;
  resets = λ _ h. h;
}

refl-Keeps : (b : Builder) → Keeps b b
refl-Keeps b = record { consistent = λ c. c; finds = λ _ _ h. h; resets = λ _ h. h }

trans-Keeps : (b b' b'' : Builder) → Keeps b b' → Keeps b' b'' → Keeps b b''
trans-Keeps b b' b'' h h' = record {
  consistent = λ c. h'.consistent (h.consistent c);
  finds = λ k v f. h'.finds k v (h.finds k v f);
  resets = λ s m. h'.resets s (h.resets s m);
}

pub visit_parts-Keeps : (parts : Parts) (b : Builder) → Leads Keeps b (visit_parts parts b)
visit_parts-Keeps = visit_parts-Leads refl-Keeps trans-Keeps visit_field-Keeps scope-Keeps

pub reached :
    (R : Builder → Builder → Type 0) (b b' : Builder) (m : Built Builder)
    → Leads R b m
    → m ≡ built b'
    → R b b'
reached R b b' m h e = subst (Leads R b) e h

template-Keeps :
    (taken : ℕ → Bool) (id : ℕ) (name : Name) (names : Names) (parts : Parts) (b : Builder)
    → Leads Keeps b (clone_instruction taken id name names parts b)
template-Keeps taken id name names parts b =
    let b' : Builder = record b { scope = template_scope names name b.scope } in
    if-elim (Leads Keeps b) (taken id) (duplicate_template_id id)
      (build_group names (visit_parts parts) b') (λ _. tt)
      (λ _. after (build_group names (visit_parts parts) b') (
        build_group-Leads refl-Keeps trans-Keeps visit_field-Keeps scope-Keeps names
          (visit_parts parts) b' (visit_parts-Keeps parts)))
  where
    after :
        (m : Built Builder)
        → Leads Keeps (record b { scope = template_scope names name b.scope }) m
        → Leads Keeps b m
    after (built b'') h = trans-Keeps b _ b'' (scope-Keeps _ b) h
    after (Built.key_type_mismatch key first second) h = tt
    after (duplicate_template_id id) h = tt

-- A template keeps the builder consistent, unless it makes it throw: no key stands twice in the
-- index, the storages of the index are the entries that are reset, in the order in which they were
-- entered, and each previous value that an instruction was given is its own or one of those.
pub clone_instruction-IsConsistent :
    (taken : ℕ → Bool) (id : ℕ) (name : Name) (names : Names) (parts : Parts) (b b' : Builder)
    → IsConsistent b
    → clone_instruction taken id name names parts b ≡ built b'
    → IsConsistent b'
clone_instruction-IsConsistent taken id name names parts b b' c e =
    (reached Keeps b b' _ (template-Keeps taken id name names parts b) e).consistent c
