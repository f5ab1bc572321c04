-- ===== src/Text/Mismatch.antt =====
-- What `std::mismatch` finds, and that the delta of a text gives the text again.
use m_fast.Common.{
  ℕ, zero, suc, ◌-◌, ◌^◌, ◌≤◌, ◌<◌, ◌≢◌, ◌≡◌, refl, sym, ap, subst, ◌∙◌, All, false, if-true,
  if-false, option-elim, ltb, Option, none, some, List, [], ◌∷◌, ◌++◌, length, take, drop,
  take-length_append, arith, length-append, if-elim, ==→eq, leb, ◌==◌,
}
use mathlib.Core.List.{reverse, reverse-cons, reverse-append, reverse-reverse}
use mathlib.Core.Option
use m_fast.Wire.Groups.{IsGroup}
use m_fast.Text.Delta.{
  mismatch, shorter_delta, string_delta, TextType, subtracted, copy_string_raw, join_delta, applied,
}

module _ {ℓ} {A : Type ℓ} where
  pub take-drop : (n : ℕ) (xs : List A) → take n xs ++ drop n xs ≡ xs
  take-drop zero xs = refl
  take-drop (suc n) [] = refl
  take-drop (suc n) (x ∷ xs) = ap (◌∷◌ x) (take-drop n xs)

  pub length-drop : (n : ℕ) (xs : List A) → length (drop n xs) ≡ length xs - n
  length-drop zero xs = omega arith
  length-drop (suc n) [] = omega arith
  length-drop (suc n) (x ∷ xs) = omega (arith, length-drop n xs)

  pub length-reverse : (xs : List A) → length (reverse xs) ≡ length xs
  length-reverse [] = refl
  length-reverse (x ∷ xs) =
      ap length (reverse-cons x xs)
      ∙ omega (arith, length-append (reverse xs) (x ∷ []), length-reverse xs)

  take_exact : (k : ℕ) (xs ys : List A) → length xs ≡ k → take k (xs ++ ys) ≡ xs
  take_exact k xs ys e = rw (← e) (take-length_append xs ys)

  length-take_le : (n : ℕ) (xs : List A) → length (take n xs) ≤ length xs
  length-take_le zero xs = omega arith
  length-take_le (suc n) [] = omega arith
  length-take_le (suc n) (x ∷ xs) = omega (arith, length-take_le n xs)

  All-take : (P : A → Type 0) (n : ℕ) (xs : List A) → All P xs → All P (take n xs)
  All-take P zero xs h = tt
  All-take P (suc n) [] h = tt
  All-take P (suc n) (x ∷ xs) h = (h.0, All-take P n xs h.1)

  pub All-drop : (P : A → Type 0) (n : ℕ) (xs : List A) → All P xs → All P (drop n xs)
  All-drop P zero xs h = h
  All-drop P (suc n) [] h = tt
  All-drop P (suc n) (x ∷ xs) h = All-drop P n xs h.1

  -- The last `k` elements, from either end.
  drop-reverse :
      (k : ℕ) (xs : List A)
      → k ≤ length xs
      → reverse (take k (reverse xs)) ≡ drop (length xs - k) xs
  drop-reverse k xs h =
      let front = take (length xs - k) xs in
      let back = drop (length xs - k) xs in
      ap (λ l. reverse (take k l))
        (ap reverse (sym (take-drop (length xs - k) xs)) ∙ reverse-append front back)
      ∙ ap reverse (
          take_exact k (reverse back) (reverse front)
            (length-reverse back ∙ length-drop (length xs - k) xs ∙ omega arith))
      ∙ reverse-reverse back

-- `k` elements agree at the front of the two lists.
pub record Shares (k : ℕ) (xs ys : List ℕ) : Type 0 where
  pub left : k ≤ length xs
  pub right : k ≤ length ys
  pub same : take k xs ≡ take k ys

Shares-suc :
    (k c p : ℕ) (cs ps : List ℕ) → c ≡ p → Shares k cs ps → Shares (suc k) (c ∷ cs) (p ∷ ps)
Shares-suc k c p cs ps e h = record {
  left = omega (arith, h.left);
  right = omega (arith, h.right);
  same = rw (e, h.same);
}

Shares-zero : (xs ys : List ℕ) → Shares 0 xs ys
Shares-zero xs ys = record { left = omega arith; right = omega arith; same = refl }

-- Whatever `mismatch` answers is shared.
abbrev pub Answers : List ℕ → List ℕ → Option ℕ → Type 0
Answers xs ys none = Unit
Answers xs ys (some k) = Shares k xs ys

Answers-map :
    (c p : ℕ) (cs ps : List ℕ) (o : Option ℕ)
    → c ≡ p
    → Answers cs ps o
    → Answers (c ∷ cs) (p ∷ ps) (Option.map suc o)
Answers-map c p cs ps none e h = tt
Answers-map c p cs ps (some k) e h = Shares-suc k c p cs ps e h

pub Answers-mismatch : (xs ys : List ℕ) → Answers xs ys (mismatch xs ys)
unfolding mismatch
Answers-mismatch [] ys = Shares-zero [] ys
Answers-mismatch (c ∷ cs) [] = tt
Answers-mismatch (c ∷ cs) (p ∷ ps) =
    if-elim (Answers (c ∷ cs) (p ∷ ps)) (c == p) _ _
      (λ e. Answers-map c p cs ps _ (==→eq c p e) (Answers-mismatch cs ps))
      (λ _. Shares-zero (c ∷ cs) (p ∷ ps))

-- A character of seven bits that is not NUL.
abbrev pub IsLetter : ℕ → Type 0
IsLetter c = (c ≢ 0) × IsGroup c

-- A subtraction length and a delta from which a text comes back.
pub record Rebuilds (str base : List ℕ) (d : ℕ × List ℕ) : Type 0 where
  pub range : d.0 < 2 ^ 32
  pub fits : ltb (length base) (subtracted d.0) ≡ false
  pub apply :
      (ty : TextType) (raw : List ℕ)
      → copy_string_raw ty raw ≡ d.1
      → join_delta ty base d.0 raw ≡ applied str
  pub shorter : length d.1 ≤ length str
  pub piece : All IsLetter str → All IsLetter d.1

Rebuilds-front :
    (k : ℕ) (str base : List ℕ)
    → length base < 2 ^ 31
    → Shares k str base
    → Rebuilds str base (length base - k, drop k str)
unfolding join_delta
Rebuilds-front k str base b h = record {
  range = omega arith;
  fits = ground (arith, h.right);
  apply = λ ty raw e.
      if-true {b = ltb (length base - k) (2 ^ 31)} _ _ (ground arith)
      ∙ if-false {b = ltb (length base) (length base - k)} _ _ (ground arith)
      ∙ ap applied (
          rw e (
            ap (λ n. take n base ++ drop k str) (omega (arith, h.right))
            ∙ ap (λ l. l ++ drop k str) (sym h.same)
            ∙ take-drop k str));
  shorter = omega (arith, length-drop k str);
  piece = All-drop IsLetter k str;
}

Rebuilds-back :
    (k : ℕ) (str base : List ℕ)
    → length base < 2 ^ 31
    → Shares k (reverse str) (reverse base)
    → Rebuilds str base (2 ^ 32 - 1 - (length base - k), take (length str - k) str)
unfolding join_delta
Rebuilds-back k str base b h = record {
  range = omega arith;
  fits = ground arith;
  apply = λ ty raw e.
      if-false {b = ltb (2 ^ 32 - 1 - (length base - k)) (2 ^ 31)} _ _ (ground arith)
      ∙ if-false {b = ltb (length base) (2 ^ 32 - 1 - (2 ^ 32 - 1 - (length base - k)))} _ _
          (ground arith)
      ∙ ap applied (
          rw e (
            ap (λ n. take (length str - k) str ++ drop n base) (omega arith)
            ∙ ap (λ l. take (length str - k) str ++ l)
                (sym (drop-reverse k base (omega (arith, h.right, length-reverse base)))
                  ∙ ap reverse (sym h.same)
                  ∙ drop-reverse k str (omega (arith, h.left, length-reverse str)))
            ∙ take-drop (length str - k) str));
  shorter = omega (arith, length-take_le (length str - k) str);
  piece = All-take IsLetter (length str - k) str;
}

Rebuilds-shorter_delta :
    (i j : ℕ) (str base : List ℕ)
    → length base < 2 ^ 31
    → Shares i str base
    → Shares j (reverse str) (reverse base)
    → Rebuilds str base (shorter_delta str base i j)
unfolding shorter_delta
Rebuilds-shorter_delta i j str base b h g =
    if-elim (Rebuilds str base) (leb (length str - i) (length str - j)) _ _
      (λ _. Rebuilds-front i str base b h) (λ _. Rebuilds-back j str base b g)

-- The delta that the encoder computes for a text, if it computes one.
abbrev pub RebuildsIfAny : List ℕ → List ℕ → Option (ℕ × List ℕ) → Type 0
RebuildsIfAny str base none = Unit
RebuildsIfAny str base (some d) = Rebuilds str base d

pub Rebuilds-string_delta :
    (str base : List ℕ) → length base < 2 ^ 31 → RebuildsIfAny str base (string_delta str base)
unfolding string_delta
Rebuilds-string_delta str base b =
    let there = λ (xs ys : List ℕ) (k : ℕ) (e : mismatch xs ys ≡ some k).
      subst (Answers xs ys) e (Answers-mismatch xs ys) in
    option-elim (RebuildsIfAny str base) (mismatch str base) _ _ (λ _. tt)
      (λ i e.
        option-elim (RebuildsIfAny str base) (mismatch (reverse str) (reverse base)) _ _ (λ _. tt)
          (λ j g.
            Rebuilds-shorter_delta i j str base b (there str base i e)
              (there (reverse str) (reverse base) j g)))
