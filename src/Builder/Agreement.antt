-- ===== src/Builder/Agreement.antt =====
-- Templates at which `dictionary_builder` (src/mfast/coder/common/dictionary_builder.cpp) throws
-- nothing.
use m_fast.Common.{
  ℕ, ◌≡◌, refl, sym, subst, ap, ◌∙◌, Bool, true, false, ◌&&◌, some, [], ◌∷◌, ◌++◌, if◌then◌else◌,
  if-false, All, ◌==◌, ==→eq, ==-refl,
}
use m_fast.Builder.Dictionary.{
  Name, same_name, Scope, Builder, IndexerValue, StorageRequest, Built, built, and_then, depends,
  qualified_key, find,
}
use m_fast.Builder.Groups.{
  Part, field, split_decimal, plain, group, sequence, Parts, no_parts, part, Names, visit_field,
  split_mantissa, split_exponent, build_group, clone_instruction, template_scope, inner, inherit,
  visit_part, visit_parts,
}
use m_fast.Builder.Index.{field-elim}
use m_fast.Builder.Find.{Index}

same_name→eq : (s t : Name) → same_name s t ≡ true → s ≡ t
same_name→eq [] [] h = refl
same_name→eq [] (b ∷ t) h = cc
same_name→eq (a ∷ s) [] h = cc
same_name→eq (a ∷ s) (b ∷ t) h = go (a == b) refl h (same_name→eq s t)
  where
    go :
        (c : Bool)
        → (a == b) ≡ c
        → (c && same_name s t) ≡ true
        → (same_name s t ≡ true → s ≡ t)
        → a ∷ s ≡ b ∷ t
    go true e h below = ap (λ x. x ∷ s) (==→eq a b e) ∙ ap (λ l. b ∷ l) (below h)
    go false e h below = cc

module _ (kind : Name → ℕ) where
  -- Each key has its kind of field: in the index, and in the requests below a scope.
  abbrev pub IndexAgrees : Index → Type 0
  IndexAgrees = All (λ (e : Name × IndexerValue). e.1.field_type ≡ kind e.0)

  abbrev pub IsTyped : Scope → StorageRequest → Type 0
  IsTyped sc r = depends r.operator ≡ true → r.field_type ≡ kind (qualified_key sc r)

  unfoldable mutual
    pub Agrees : Scope → Part → Type 0
    Agrees sc (field r) = IsTyped sc r
    Agrees sc (split_decimal e m) = IsTyped sc (split_mantissa e m) × IsTyped sc (split_exponent e)
    Agrees sc plain = Unit {0}
    Agrees sc (group names parts) = AgreesAll (inner names sc) parts
    Agrees sc (sequence names parts length) = AgreesAll (inner names sc) parts × IsTyped sc length

    pub AgreesAll : Scope → Parts → Type 0
    AgreesAll sc no_parts = Unit {0}
    AgreesAll sc (part p parts) = Agrees sc p × AgreesAll sc parts

  -- The scope that the builder is in, and an index that agrees.
  abbrev pub Stands : Scope → Builder → Type 0
  Stands sc b = (b.scope ≡ sc) × IndexAgrees b.indexer

  abbrev pub Succeeds : Scope → Built Builder → Type 0
  Succeeds sc m = (b : Builder) × (m ≡ built b) × Stands sc b

  append-IndexAgrees :
      (index : Index) (e : Name × IndexerValue)
      → IndexAgrees index
      → e.1.field_type ≡ kind e.0
      → IndexAgrees (index ++ e ∷ [])
  append-IndexAgrees [] e h k = (k, tt)
  append-IndexAgrees (x ∷ index) e h k = (h.0, append-IndexAgrees index e h.1 k)

  find-kind :
      (key : Name) (v : IndexerValue) (index : Index)
      → IndexAgrees index
      → find key index ≡ some v
      → v.field_type ≡ kind key
  find-kind key v [] a h = cc
  find-kind key v (e ∷ index) a h = go (same_name key e.0) refl h (find-kind key v index a.1)
    where
      go :
          (c : Bool)
          → same_name key e.0 ≡ c
          → (if c then some e.1 else find key index) ≡ some v
          → (find key index ≡ some v → v.field_type ≡ kind key)
          → v.field_type ≡ kind key
      go true s h below = let first = a.0 in let same = same_name→eq key e.0 s in cc
      go false s h below = below h

  visit_field-Succeeds :
      (sc : Scope) (r : StorageRequest) (b : Builder)
      → IsTyped sc r
      → Stands sc b
      → Succeeds sc (visit_field r b)
  visit_field-Succeeds sc r b typed st =
      let here : IsTyped b.scope r = subst (λ x. IsTyped x r) (sym st.0) typed in
      field-elim (Succeeds sc) r b (λ _. (_, refl, (st.0, st.1)))
        (λ d _. (_, refl, (st.0, append-IndexAgrees b.indexer _ st.1 (here d))))
        (λ _ _ _ _. (_, refl, (st.0, st.1)))
        (λ v d found differ.
          let same : v.field_type ≡ r.field_type =
            find-kind _ v b.indexer st.1 found ∙ sym (here d) in
          let equal = ==-refl r.field_type in
          absurd
            (go (v.field_type == r.field_type) differ (ap (λ x. x == r.field_type) same ∙ equal)))
    where
      go : (c : Bool) → c ≡ false → c ≡ true → ⊥
      go true e f = cc
      go false e f = cc

  and_then-Succeeds :
      (sc sc' : Scope) (m : Built Builder) (f : Builder → Built Builder)
      → Succeeds sc m
      → ((b : Builder) → Stands sc b → Succeeds sc' (f b))
      → Succeeds sc' (and_then m f)
  and_then-Succeeds sc sc' m f h g =
      let next = g h.0 h.2 in (next.0, ap (λ m'. and_then m' f) h.1 ∙ next.1, next.2)

  build_group-Succeeds :
      (sc : Scope) (names : Names) (instructions : Builder → Built Builder) (b : Builder)
      → ((b' : Builder) → Stands (inner names sc) b' → Succeeds (inner names sc) (instructions b'))
      → Stands sc b
      → Succeeds sc (build_group names instructions b)
  build_group-Succeeds sc names instructions b h st =
      and_then-Succeeds (inner names sc) sc _ _
        (h (record b { scope = inner names b.scope }) (ap (inner names) st.0, st.1))
        (λ b' st'. (
          inherit b.scope b',
          refl,
          (
            ap (λ x. (inherit x b').scope) st.0
                ∙ ap (λ x. (inherit sc (record b' { scope = x })).scope) st'.0,
            st'.1,
          ),
        ))

  mutual
    unfolding visit_part Agrees

    visit_part-Succeeds :
        (sc : Scope) (p : Part) (b : Builder)
        → Agrees sc p
        → Stands sc b
        → Succeeds sc (visit_part p b)
    visit_part-Succeeds sc (field r) b a st = visit_field-Succeeds sc r b a st
    visit_part-Succeeds sc (split_decimal e m) b a st =
        and_then-Succeeds sc sc _ _ (visit_field-Succeeds sc (split_mantissa e m) b a.0 st)
          (λ b' st'. visit_field-Succeeds sc (split_exponent e) b' a.1 st')
    visit_part-Succeeds sc plain b a st = (b, refl, st)
    visit_part-Succeeds sc (group names parts) b a st =
        build_group-Succeeds sc names (visit_parts parts) b
          (λ b' st'. visit_parts-Succeeds (inner names sc) parts b' a st') st
    visit_part-Succeeds sc (sequence names parts length) b a st =
        and_then-Succeeds sc sc _ _
          (build_group-Succeeds sc names (visit_parts parts) b
            (λ b' st'. visit_parts-Succeeds (inner names sc) parts b' a.0 st') st)
          (λ b' st'. visit_field-Succeeds sc length b' a.1 st')

    visit_parts-Succeeds :
        (sc : Scope) (parts : Parts) (b : Builder)
        → AgreesAll sc parts
        → Stands sc b
        → Succeeds sc (visit_parts parts b)
    visit_parts-Succeeds sc no_parts b a st = (b, refl, st)
    visit_parts-Succeeds sc (part p parts) b a st =
        and_then-Succeeds sc sc (visit_part p b) (visit_parts parts)
          (visit_part-Succeeds sc p b a.0 st) (λ b' st'. visit_parts-Succeeds sc parts b' a.1 st')

  -- A template whose number is free is built without an error, however deep its groups are, where
  -- each qualified key has one type, in the index and in the template. Behind it each key of the
  -- index has that type, and of the scope only the current template has changed.
  pub clone_instruction-Succeeds :
      (taken : ℕ → Bool) (id : ℕ) (name : Name) (names : Names) (parts : Parts) (b : Builder)
      → taken id ≡ false
      → IndexAgrees b.indexer
      → AgreesAll (inner names (template_scope names name b.scope)) parts
      → (b' : Builder) × (clone_instruction taken id name names parts b ≡ built b')
        × (b'.scope ≡ template_scope names name b.scope)
        × IndexAgrees b'.indexer
  clone_instruction-Succeeds taken id name names parts b free agrees typed =
      let sc = template_scope names name b.scope in
      let run : Succeeds sc (build_group names (visit_parts parts) (record b { scope = sc })) =
        build_group-Succeeds sc names (visit_parts parts) (record b { scope = sc })
          (λ b' st'. visit_parts-Succeeds (inner names sc) parts b' typed st') (refl, agrees) in
      (run.0, if-false _ _ free ∙ run.1, run.2.0, run.2.1)
