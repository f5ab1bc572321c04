-- ===== src/Container/Replace.antt =====
-- `replace` of `vector_mref_base` (src/mfast/vector_ref.h).
use m_fast.Common.{
  ℕ, zero, suc, ◌+◌, ◌-◌, ◌^◌, ◌≤◌, ◌<◌, ◌≡◌, ◌⊎◌, refl, sym, ap, ◌∙◌, inl, inr, Bool-cases, some,
  List, [], ◌∷◌, ◌++◌, leb, length, take, drop, if-true, if-false, arith,
}
use m_fast.Text.Mismatch.{length-drop}
use m_fast.Container.Array.{
  Array, Allocator, AllocatorLaws, array_length, contents, write_content, and_then,
}
use m_fast.Container.Vector.{min, resize, shift, replace_inside, replace}
use m_fast.Container.Blocks.{
  IsValid, length-contents, take-take, take_fewer, length-take, take-drop_swap, drop_all, lt→ltb,
}
use m_fast.Container.Gap.{HasGap, write_gap-Holds}
use m_fast.Container.Assign.{Holds, resize-contents}
use m_fast.Container.Insert.{HasRoom, shift-HasGap}

drop-drop {ℓ} : {A : Type ℓ} (j k n : ℕ) (xs : List A) → n ≡ k + j → drop j (drop k xs) ≡ drop n xs
drop-drop zero k n xs e = let e' : k ≡ n = omega (arith, e) in ap (λ i. drop i xs) e'
drop-drop (suc j) zero zero xs e = absurd (omega (arith, e))
drop-drop (suc j) zero (suc n) [] e = refl
drop-drop (suc j) zero (suc n) (x ∷ xs) e = drop-drop j zero n xs (omega (arith, e))
drop-drop (suc j) (suc k) zero xs e = absurd (omega (arith, e))
drop-drop (suc j) (suc k) (suc n) [] e = refl
drop-drop (suc j) (suc k) (suc n) (x ∷ xs) e = drop-drop (suc j) k n xs (omega (arith, e))

-- The part before `pos`, and what is left behind `pos + count`.
abbrev pub front : ℕ → Array → List ℕ
front pos s = take pos (contents s)

abbrev pub tail : ℕ → ℕ → Array → List ℕ
tail pos count s = drop (pos + count) (contents s)

pub length-front :
    (pos : ℕ) (s : Array) → IsValid s → pos ≤ array_length s → length (front pos s) ≡ pos
length-front pos s h inside =
    length-take pos (contents s) (omega (arith, inside, length-contents s h))

module _ {a : Allocator} (laws : AllocatorLaws a) (pos count : ℕ) (bytes : List ℕ) (s : Array)
    (h : IsValid s) (small : array_length s + length bytes + 64 ≤ 2 ^ 30)
    (inside : pos ≤ array_length s) where
  end-HasGap :
      array_length s ≤ pos + count
      → (s' : Array) × (resize a (pos + length bytes) 0 s ≡ some s')
        × HasGap (front pos s) (length bytes) (tail pos count s) s'
  unfolding contents
  end-HasGap over =
      let resized =
        resize-contents laws (pos + length bytes) 0 s (omega (arith, small, inside)) h in
      let s' = resized.0 in
      let none_left : (tail pos count s) ≡ [] =
        drop_all (pos + count) (contents s) (omega (arith, over, length-contents s h)) in
      (
        s',
        resized.1,
        record {
          valid = resized.2;
          len_is = resized.3 ∙ omega (arith, length-front pos s h inside, ap length none_left);
          front_is =
              ap (λ k. take k s'.content) (length-front pos s h inside)
              ∙ take_fewer pos (min (array_length s) (pos + length bytes)) _ _
                  (ground (arith, inside)) resized.5
              ∙ sym (take-take pos (array_length s) s.content inside);
          tail_is = rw none_left refl;
        },
      )

  grow-HasGap :
      pos + count < array_length s
      → count < length bytes
      → HasRoom pos (length bytes - count) s
      → (s' : Array) × (shift a pos (length bytes - count) s ≡ some s')
        × HasGap (front pos s) (length bytes) (tail pos count s) s'
  grow-HasGap left more room =
      let n = length bytes - count in
      let shifted =
        shift-HasGap laws pos n s h (omega (arith, small)) inside room
          (inl (ground (arith, left))) in
      let s' = shifted.0 in
      let g = shifted.2 in
      let k = array_length s - (pos + count) in
      let tail_size : length (tail pos count s) ≡ k =
        omega (arith, length-drop (pos + count) (contents s), length-contents s h) in
      (
        s',
        shifted.1,
        record {
          valid = g.valid;
          len_is =
              g.len_is
              ∙ omega
                  (arith, tail_size, length-drop pos (contents s), length-contents s h, more, left);
          front_is = g.front_is;
          tail_is =
              ap (λ l. take (length (tail pos count s)) l)
                (sym
                  (drop-drop count (length (front pos s) + n) _ s'.content (omega (arith, more))))
              ∙ take-drop_swap count (length (tail pos count s)) (length (drop pos (contents s)))
                  (drop (length (front pos s) + n) s'.content)
                  (omega
                    (arith, tail_size, length-drop pos (contents s), length-contents s h, left))
              ∙ ap (drop count) g.tail_is
              ∙ drop-drop count pos (pos + count) (contents s) refl;
        },
      )

-- `replace` at a position within the text gives the part before it, the new bytes and the part behind
-- the `count` bytes taken out, where the text is short enough, and where nothing is behind them or the
-- text becomes longer and does not take up the block exactly unless the position is its end.
pub replace-Holds :
    {a : Allocator} (laws : AllocatorLaws a) (pos count : ℕ) (bytes : List ℕ) (s : Array)
    → IsValid s
    → array_length s + length bytes + 64 ≤ 2 ^ 30
    → pos ≤ array_length s
    → (array_length s ≤ pos + count)
      ⊎ ((count < length bytes) × HasRoom pos (length bytes - count) s)
    → (s' : Array) × (replace a pos count bytes s ≡ some s')
      × Holds (take pos (contents s) ++ (bytes ++ drop (pos + count) (contents s))) s'
unfolding replace replace_inside
replace-Holds {a} laws pos count bytes s h small inside c =
    let size = length-front pos s h inside in
    let write = λ (s1 : Array). write_content pos bytes s1 in
    elim (Bool-cases (leb (array_length s) (pos + count))) [
      | inl t ↦
          let gap = end-HasGap laws pos count bytes s h small inside (ground (arith, t)) in
          let written = write_gap-Holds _ bytes _ gap.0 gap.2 in
          (
            written.0,
            ap (λ r. and_then r write) (if-true _ _ t ∙ gap.1)
                ∙ ap (λ k. write_content k bytes gap.0) (sym size)
                ∙ written.1,
            written.2,
          )
      | inr f ↦
          let more : (count < length bytes) × HasRoom pos (length bytes - count) s =
            ground (arith, c, f) in
          let gap =
            grow-HasGap laws pos count bytes s h small inside (ground (arith, f)) more.0 more.1 in
          let written = write_gap-Holds _ bytes _ gap.0 gap.2 in
          (
            written.0,
            ap (λ r. and_then r write) (if-false _ _ f ∙ if-true _ _ (lt→ltb _ _ more.0) ∙ gap.1)
                ∙ ap (λ k. write_content k bytes gap.0) (sym size)
                ∙ written.1,
            written.2,
          )
    ]
