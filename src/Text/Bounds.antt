-- ===== src/Text/Bounds.antt =====
-- Where `std::mismatch` of `delta_operator::encode_string` reads behind the end of the base value.
use m_fast.Common.{
  ℕ, suc, ◌≤◌, ◌≡◌, refl, sym, ap, ◌∙◌, Option, none, some, List, [], ◌∷◌, ◌++◌, length, arith,
  if-elim, if-true, subst, ◌==◌, ==-refl, option-elim,
}
use mathlib.Core.List.{reverse, reverse-append}
use mathlib.Core.Option
use m_fast.Text.Delta.{mismatch, string_delta}
use m_fast.Text.Mismatch.{length-reverse}

abbrev IsSome : {A : Type 0} → Option A → Type 0
IsSome none = ⊥
IsSome (some a) = Unit

IsSome-map : (o : Option ℕ) → IsSome o → IsSome (Option.map suc o)
IsSome-map none h = absurd h
IsSome-map (some k) h = tt

IsSome-mismatch : (xs ys : List ℕ) → length xs ≤ length ys → IsSome (mismatch xs ys)
unfolding mismatch
IsSome-mismatch [] ys h = tt
IsSome-mismatch (c ∷ cs) [] h = absurd (omega (arith, h))
IsSome-mismatch (c ∷ cs) (p ∷ ps) h =
    if-elim IsSome (c == p) _ _
      (λ _. IsSome-map (mismatch cs ps) (IsSome-mismatch cs ps (omega (arith, h)))) (λ _. tt)

mismatch-append : (c : ℕ) (xs ys : List ℕ) → mismatch (ys ++ (c ∷ xs)) ys ≡ none
unfolding mismatch
mismatch-append c xs [] = refl
mismatch-append c xs (y ∷ ys) =
    if-true _ _ (==-refl y) ∙ ap (λ o. Option.map suc o) (mismatch-append c xs ys)

IsSome-string_delta :
    (str base : List ℕ) → length str ≤ length base → IsSome (string_delta str base)
unfolding string_delta
IsSome-string_delta str base h =
    option-elim IsSome (mismatch str base) _ _ (λ e. subst IsSome e (IsSome-mismatch str base h))
      (λ i _.
        option-elim IsSome (mismatch (reverse str) (reverse base)) _ _
          (λ e. subst IsSome e (
            IsSome-mismatch (reverse str) (reverse base)
              (omega (arith, h, length-reverse str, length-reverse base))))
          (λ j _. tt))

string_delta_front : (c : ℕ) (xs base : List ℕ) → string_delta (base ++ (c ∷ xs)) base ≡ none
unfolding string_delta
string_delta_front c xs base = rw (mismatch-append c xs base, string_delta)

string_delta_back : (c : ℕ) (xs base : List ℕ) → string_delta ((xs ++ (c ∷ [])) ++ base) base ≡ none
unfolding string_delta
string_delta_back c xs base =
    let str = (xs ++ (c ∷ [])) ++ base in
    let e =
      ap (λ l. mismatch l (reverse base))
        (reverse-append (xs ++ (c ∷ [])) base
          ∙ ap (λ l. reverse base ++ l) (reverse-append xs (c ∷ [])))
      ∙ mismatch-append c (reverse xs) (reverse base) in
    option-elim (λ o. o ≡ none) (mismatch str base) _ _ (λ _. refl)
      (λ i _.
        option-elim (λ o. o ≡ none) (mismatch (reverse str) (reverse base)) _ _ (λ _. refl)
          (λ j g. absurd (subst IsSome (sym g ∙ e) tt)))

some_of : {A : Type 0} (o : Option A) → IsSome o → (a : A) × (o ≡ some a)
some_of none h = absurd h
some_of (some a) h = (a, refl)

-- The encoder finds a delta for every text that is no longer than the base value. For a text that
-- goes on where the base value ends, and for one that ends with the base value and is longer, so for
-- every text but the empty one where the base value is empty, `std::mismatch` reads outside it.
pub string_delta_within :
    (c : ℕ) (str xs base : List ℕ)
    → (length str ≤ length base → (d : ℕ × List ℕ) × (string_delta str base ≡ some d))
      × (string_delta (base ++ (c ∷ xs)) base ≡ none)
      × (string_delta ((xs ++ (c ∷ [])) ++ base) base ≡ none)
string_delta_within c str xs base = (
  λ h. some_of (string_delta str base) (IsSome-string_delta str base h),
  string_delta_front c xs base,
  string_delta_back c xs base,
)
