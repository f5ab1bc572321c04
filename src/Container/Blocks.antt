-- ===== src/Container/Blocks.antt =====
-- Reads and writes within a block of memory, and what makes a vector's storage well formed.
use m_fast.Common.{
  ℕ, zero, suc, ◌+◌, ◌≤◌, ◌<◌, ◌≡◌, refl, sym, ap, ◌∙◌, ◌⊎◌, none, some, true, false, List, [], ◌∷◌,
  ◌++◌, leb, ltb, append_assoc, length, take, drop, length-append, take-length_append,
  drop-length_append, if-true, arith,
}
use m_fast.Text.Mismatch.{take-drop, length-drop}
use m_fast.Container.Array.{
  Array, array_length, contents, write_at, move_within, write_content, move_content,
}
use m_fast.Container.Vector.{capacity}

module _ {ℓ} {A : Type ℓ} where
  pub take-take : (m k : ℕ) (xs : List A) → m ≤ k → take m (take k xs) ≡ take m xs
  take-take zero k xs h = refl
  take-take (suc m) zero xs h = absurd (omega (arith, h))
  take-take (suc m) (suc k) [] h = refl
  take-take (suc m) (suc k) (x ∷ xs) h = ap (◌∷◌ x) (take-take m k xs (omega (arith, h)))

  -- Lists with the same first `k` elements have the same first `m`.
  pub take_fewer :
      (m k : ℕ) (xs ys : List A) → m ≤ k → take k xs ≡ take k ys → take m xs ≡ take m ys
  take_fewer m k xs ys h e = sym (take-take m k xs h) ∙ ap (take m) e ∙ take-take m k ys h

  pub length-take : (n : ℕ) (xs : List A) → n ≤ length xs → length (take n xs) ≡ n
  length-take zero xs h = refl
  length-take (suc n) [] h = absurd (omega (arith, h))
  length-take (suc n) (x ∷ xs) h = ap suc (length-take n xs (omega (arith, h)))

  pub take_front : (n : ℕ) (xs ys : List A) → length xs ≡ n → take n (xs ++ ys) ≡ xs
  take_front n xs ys e = rw (← e) (take-length_append xs ys)

  pub drop_front : (n : ℕ) (xs ys : List A) → length xs ≡ n → drop n (xs ++ ys) ≡ ys
  drop_front n xs ys e = rw (← e) (drop-length_append xs ys)

  -- The first `n` elements of a list that begins with at least `n`.
  pub take_within : (n : ℕ) (xs ys : List A) → n ≤ length xs → take n (xs ++ ys) ≡ take n xs
  take_within zero xs ys h = refl
  take_within (suc n) [] ys h = absurd (omega (arith, h))
  take_within (suc n) (x ∷ xs) ys h = ap (◌∷◌ x) (take_within n xs ys (omega (arith, h)))

module _ {ℓ} {A : Type ℓ} where
  pub take_behind :
      (n m : ℕ) (xs ys : List A)
      → length xs ≤ n
      → n ≡ length xs + m
      → take n (xs ++ ys) ≡ xs ++ take m ys
  take_behind n m [] ys h e = let e' : n ≡ m = omega (arith, e) in ap (λ k. take k ys) e'
  take_behind zero m (x ∷ xs) ys h e = absurd (omega (arith, h))
  take_behind (suc n) m (x ∷ xs) ys h e =
      ap (◌∷◌ x) (take_behind n m xs ys (omega (arith, h)) (omega (arith, e)))

  pub take-drop_swap :
      (k m n : ℕ) (xs : List A) → n ≡ k + m → take m (drop k xs) ≡ drop k (take n xs)
  take-drop_swap zero m n xs e = let e' : m ≡ n = omega (arith, e) in ap (λ i. take i xs) e'
  take-drop_swap (suc k) m zero xs e = absurd (omega (arith, e))
  take-drop_swap (suc k) zero (suc n) [] e = refl
  take-drop_swap (suc k) (suc m) (suc n) [] e = refl
  take-drop_swap (suc k) m (suc n) (x ∷ xs) e = take-drop_swap k m n xs (omega (arith, e))

  pub drop_all : (n : ℕ) (xs : List A) → length xs ≤ n → drop n xs ≡ []
  drop_all zero [] h = refl
  drop_all zero (x ∷ xs) h = absurd (omega (arith, h))
  drop_all (suc n) [] h = refl
  drop_all (suc n) (x ∷ xs) h = drop_all n xs (omega (arith, h))

pub le→leb : (a b : ℕ) → a ≤ b → leb a b ≡ true
le→leb a b h = ground (arith, h)

pub lt→ltb : (a b : ℕ) → a < b → ltb a b ≡ true
lt→ltb a b h = ground (arith, h)

pub lt→leb : (a b : ℕ) → b < a → leb a b ≡ false
lt→leb a b h = ground (arith, h)

pub le→ltb : (a b : ℕ) → b ≤ a → ltb a b ≡ false
le→ltb a b h = ground (arith, h)

-- A write replaces bytes by as many others.
pub write_at_middle :
    (i : ℕ) (front old back bytes : List ℕ)
    → length front ≡ i
    → length old ≡ length bytes
    → write_at i bytes (front ++ (old ++ back)) ≡ some (front ++ (bytes ++ back))
unfolding write_at
write_at_middle i front old back bytes ei eo =
    if-true _ _ (
      le→leb (i + length bytes) (length (front ++ (old ++ back)))
        (omega (arith, length-append front (old ++ back), length-append old back)))
    ∙ ap (λ l. some (l ++ (bytes ++ drop (i + length bytes) (front ++ (old ++ back)))))
        (take_front i front (old ++ back) ei)
    ∙ ap (λ l. some (front ++ (bytes ++ drop (i + length bytes) l)))
        (sym (append_assoc front old back))
    ∙ ap (λ l. some (front ++ (bytes ++ l)))
        (drop_front (i + length bytes) (front ++ old) back (omega (arith, length-append front old)))

-- A write that stays within the block, whatever it holds.
pub write_at_within :
    (i : ℕ) (bytes block : List ℕ)
    → i + length bytes ≤ length block
    → write_at i bytes block ≡ some (take i block ++ (bytes ++ drop (i + length bytes) block))
unfolding write_at
write_at_within i bytes block h = if-true _ _ (le→leb _ _ h)

pub length-write :
    (i : ℕ) (bytes block : List ℕ)
    → i + length bytes ≤ length block
    → length (take i block ++ (bytes ++ drop (i + length bytes) block)) ≡ length block
length-write i bytes block h = omega (
  arith,
  length-append (take i block) (bytes ++ drop (i + length bytes) block),
  length-append bytes (drop (i + length bytes) block),
  length-take i block (omega (arith, h)),
  length-drop (i + length bytes) block,
)

pub write_content_within :
    (i : ℕ) (bytes : List ℕ) (s : Array)
    → i + length bytes ≤ length s.content
    → write_content i bytes s
      ≡ some
          (record s { content = take i s.content ++ (bytes ++ drop (i + length bytes) s.content) })
unfolding write_content
write_content_within i bytes s h =
    ap (λ r. elim r [ none ↦ none | some b ↦ some (record s { content = b }) ])
      (write_at_within i bytes s.content h)

pub move_content_within :
    (to from n : ℕ) (s : Array)
    → from + n ≤ length s.content
    → to + n ≤ length s.content
    → move_content to from n s
      ≡ some (record s {
        content = take to s.content ++ (take n (drop from s.content) ++ drop (to + n) s.content);
      })
unfolding move_content move_within
move_content_within to from n s h h' =
    let bytes = take n (drop from s.content) in
    let size : length bytes ≡ n =
      length-take n (drop from s.content) (omega (arith, h, length-drop from s.content)) in
    ap (λ r. elim r [ none ↦ none | some b ↦ some (record s { content = b }) ])
      (if-true _ _ (le→leb _ _ h)
        ∙ write_at_within to bytes s.content (omega (arith, size, h'))
        ∙ ap (λ k. some (take to s.content ++ (bytes ++ drop (to + k) s.content))) size)

-- The vector's text lies within its block, and a block of its own has the capacity's size.
abbrev pub IsValid : Array → Type 0
IsValid s =
    (array_length s ≤ length s.content) × ((capacity s ≡ 0) ⊎ (length s.content ≡ capacity s))

-- The text, and the bytes behind it.
pub content-contents : (s : Array) → s.content ≡ contents s ++ drop (array_length s) s.content
unfolding contents
content-contents s = sym (take-drop (array_length s) s.content)

pub length-contents : (s : Array) → IsValid s → length (contents s) ≡ array_length s
unfolding contents
length-contents s h = length-take (array_length s) s.content h.0
