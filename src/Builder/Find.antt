-- ===== src/Builder/Find.antt =====
-- `indexer_.find` (src/mfast/coder/common/dictionary_builder.cpp) on an index that has grown.
use m_fast.Common.{
  ℕ, ◌≡◌, refl, ap, ◌∙◌, Bool, true, false, Option, none, some, List, [], ◌∷◌, ◌++◌, if◌then◌else◌,
  if-both, ◌==◌, ==-refl, arith,
}
use mathlib.Core.List.{Memᴰ}
use m_fast.Builder.Dictionary.{Name, same_name, IndexerValue, find}

abbrev pub Index : Type 0
Index = List (Name × IndexerValue)

pub same_name_refl : (s : Name) → same_name s s ≡ true
same_name_refl [] = refl
same_name_refl (a ∷ s) = rw (==-refl a, same_name_refl s)

same_name_sym : (s t : Name) → same_name s t ≡ same_name t s
same_name_sym [] [] = refl
same_name_sym [] (b ∷ t) = refl
same_name_sym (a ∷ s) [] = refl
same_name_sym (a ∷ s) (b ∷ t) =
    let other : (a == b) ≡ (b == a) = ground arith in rw (other, same_name_sym s t)

-- A chain of tests that finds nothing.
none_found :
    {A : Type 0} (b : Bool) (a : A) (rest : Option A)
    → (if b then some a else rest) ≡ none
    → (b ≡ false) × (rest ≡ none)
none_found true a rest h = cc
none_found false a rest h = (refl, h)

pub find_kept :
    (key : Name) (v : IndexerValue) (index more : Index)
    → find key index ≡ some v
    → find key (index ++ more) ≡ some v
find_kept key v [] more = λ h. cc
find_kept key v (e ∷ index) more =
    let b = same_name key e.0 in
    if-both (λ x y. x ≡ some v → y ≡ some v) b b (some e.1) (find key index) (some e.1)
      (find key (index ++ more)) refl (λ _ h. h) (λ _. find_kept key v index more)

pub find_new :
    (key : Name) (v : IndexerValue) (index : Index)
    → find key index ≡ none
    → find key (index ++ (key, v) ∷ []) ≡ some v
find_new key v [] = λ h. rw (same_name_refl key)
find_new key v (e ∷ index) =
    let b = same_name key e.0 in
    if-both (λ x y. x ≡ none → y ≡ some v) b b (some e.1) (find key index) (some e.1)
      (find key (index ++ (key, v) ∷ [])) refl (λ _ h. cc) (λ _. find_new key v index)

find_still_none :
    (key other : Name) (v : IndexerValue) (index : Index)
    → same_name key other ≡ false
    → find key index ≡ none
    → find key (index ++ (other, v) ∷ []) ≡ none
find_still_none key other v [] d = λ h. rw d
find_still_none key other v (e ∷ index) d =
    let b = same_name key e.0 in
    if-both (λ x y. x ≡ none → y ≡ none) b b (some e.1) (find key index) (some e.1)
      (find key (index ++ (other, v) ∷ [])) refl (λ _ h. h)
      (λ _. find_still_none key other v index d)

-- No key stands twice.
abbrev pub Distinct : Index → Type 0
Distinct [] = Unit {0}
Distinct (e ∷ index) = (find e.0 index ≡ none) × Distinct index

pub append-Distinct :
    (key : Name) (v : IndexerValue) (index : Index)
    → Distinct index
    → find key index ≡ none
    → Distinct (index ++ (key, v) ∷ [])
append-Distinct key v [] d h = (refl, tt)
append-Distinct key v (e ∷ index) d h =
    let absent = none_found (same_name key e.0) e.1 (find key index) h in
    (
      find_still_none e.0 key v index (same_name_sym e.0 key ∙ absent.0) d.0,
      append-Distinct key v index d.1 absent.1,
    )

abbrev pub storages : Index → List ℕ
storages [] = []
storages (e ∷ index) = e.1.storage ∷ storages index

pub storages-append :
    (index : Index) (e : Name × IndexerValue)
    → storages (index ++ e ∷ []) ≡ storages index ++ e.1.storage ∷ []
storages-append [] e = refl
storages-append (x ∷ index) e = ap (λ l. x.1.storage ∷ l) (storages-append index e)

pub find-storages :
    (key : Name) (v : IndexerValue) (index : Index)
    → find key index ≡ some v
    → Memᴰ v.storage (storages index)
find-storages key v [] h = cc
find-storages key v (e ∷ index) h = found (same_name key e.0) h (find-storages key v index)
  where
    found :
        (b : Bool)
        → (if b then some e.1 else find key index) ≡ some v
        → (find key index ≡ some v → Memᴰ v.storage (storages index))
        → Memᴰ v.storage (e.1.storage ∷ storages index)
    found true h below = Memᴰ.head cc
    found false h below = Memᴰ.tail (below h)
