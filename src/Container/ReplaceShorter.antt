-- ===== src/Container/ReplaceShorter.antt =====
-- `replace` of `vector_mref_base` (src/mfast/vector_ref.h) where the text becomes shorter.
use m_fast.Common.{
  ℕ, ◌+◌, ◌-◌, ◌^◌, ◌≤◌, ◌<◌, ◌≡◌, sym, ap, ◌∙◌, some, List, ◌++◌, length, length-append, take,
  drop, if-false, arith,
}
use m_fast.Text.Mismatch.{length-drop}
use m_fast.Container.Array.{
  Array, Allocator, AllocatorLaws, array_length, contents, write_content, move_content, and_then,
}
use m_fast.Container.Vector.{min, resize, replace_inside, replace}
use m_fast.Container.Blocks.{
  IsValid, length-contents, take-take, take_fewer, length-take, take-drop_swap, drop_front,
  take_within, lt→leb, le→ltb, take_behind, move_content_within,
}
use m_fast.Container.Gap.{HasGap, write_gap-Holds}
use m_fast.Container.Assign.{Holds, resize-contents}
use m_fast.Container.Replace.{front, tail, length-front}

module _ {a : Allocator} (laws : AllocatorLaws a) (pos count : ℕ) (bytes : List ℕ) (s : Array)
    (h : IsValid s) (small : array_length s + length bytes + 64 ≤ 2 ^ 30)
    (inside : pos ≤ array_length s) where
  -- The bytes that the first move of a shrinking `replace` leaves behind the removed part.
  repeated : List ℕ
  repeated =
      let d = count - length bytes in
      take d (tail pos count s) ++ take (length (tail pos count s) - d) (tail pos count s)

  moved_back : ℕ → List ℕ
  moved_back d =
      take (pos + length bytes) s.content
      ++ (take d (drop (pos + count) s.content) ++ drop (pos + length bytes + d) s.content)

  length-tail : length (tail pos count s) ≡ array_length s - (pos + count)
  length-tail = omega (arith, length-drop (pos + count) (contents s), length-contents s h)

  module _ (less : length bytes ≤ count)
      (long : count - length bytes + (pos + count) ≤ array_length s) where
    length-repeated : length repeated ≡ length (tail pos count s)
    unfolding repeated
    length-repeated =
        let d = count - length bytes in
        length-append (take d (tail pos count s))
          (take (length (tail pos count s) - d) (tail pos count s))
        ∙ omega (
          arith,
          length-take d (tail pos count s) (omega (arith, length-tail, long)),
          length-take (length (tail pos count s) - d) (tail pos count s) (omega arith),
          length-tail,
          long,
        )

    -- A part of the text, seen in the block.
    tail_part :
        (k : ℕ)
        → k + (pos + count) ≤ array_length s
        → take k (drop (pos + count) s.content) ≡ take k (tail pos count s)
    unfolding contents
    tail_part k e =
        sym (
          take-take k (array_length s - (pos + count)) (drop (pos + count) s.content)
            (omega (arith, e)))
        ∙ ap (take k) (
            take-drop_swap (pos + count) (array_length s - (pos + count)) (array_length s) s.content
              (omega (arith, e)))

    moved_back-repeated :
        take
          (length (tail pos count s))
          (drop (pos + length bytes) (moved_back (count - length bytes)))
        ≡ repeated
    unfolding moved_back repeated
    moved_back-repeated =
        let d = count - length bytes in
        let X = take d (drop (pos + count) s.content) in
        let size : length X ≡ d =
          length-take d _ (omega (arith, length-drop (pos + count) s.content, h.0, long)) in
        let same : pos + length bytes + d ≡ pos + count = omega (arith, less) in
        ap (take (length (tail pos count s))) (
          drop_front (pos + length bytes) _ _
            (length-take (pos + length bytes) s.content (omega (arith, h.0, long, less))))
        ∙ take_behind (length (tail pos count s)) (length (tail pos count s) - d) X _
            (omega (arith, size, length-tail, long)) (omega (arith, size, length-tail, long))
        ∙ ap
            (λ l.
              l ++ take (length (tail pos count s) - d) (drop (pos + length bytes + d) s.content))
            (tail_part d long)
        ∙ ap
            (λ k.
              take d (tail pos count s) ++ take (length (tail pos count s) - d) (drop k s.content))
            same
        ∙ ap (λ l. take d (tail pos count s) ++ l)
            (tail_part (length (tail pos count s) - d) (omega (arith, length-tail, long)))

    length-moved_back : length (moved_back (count - length bytes)) ≡ length s.content
    unfolding moved_back
    length-moved_back =
        let d = count - length bytes in
        let X = take d (drop (pos + count) s.content) in
        let rest = drop (pos + length bytes + d) s.content in
        length-append (take (pos + length bytes) s.content) (X ++ rest)
        ∙ omega (
          arith,
          length-append X rest,
          length-take (pos + length bytes) s.content (omega (arith, h.0, long, less)),
          length-take d (drop (pos + count) s.content)
              (omega (arith, length-drop (pos + count) s.content, h.0, long)),
          length-drop (pos + length bytes + d) s.content,
          h.0,
          long,
          less,
        )

    front_of_moved_back : take pos (moved_back (count - length bytes)) ≡ take pos (contents s)
    unfolding moved_back contents
    front_of_moved_back =
        take_within pos _ _ (
          omega
            (arith, length-take (pos + length bytes) s.content (omega (arith, h.0, long, less))))
        ∙ take-take pos (pos + length bytes) s.content (omega arith)
        ∙ sym (take-take pos (array_length s) s.content inside)

    shrink-HasGap :
        (s' : Array) × (and_then
            (move_content (pos + length bytes) (pos + count) (count - length bytes) s)
            (resize a (array_length s - (count - length bytes)) 0)
          ≡ some s')
        × HasGap (front pos s) (length bytes) repeated s'
    unfolding moved_back
    shrink-HasGap =
        let d = count - length bytes in
        let n = array_length s - d in
        let X = take d (drop (pos + count) s.content) in
        let s1 : Array = record s { content = moved_back d } in
        let same : length (moved_back d) ≡ length s.content = length-moved_back in
        let s1-IsValid : IsValid s1 = (omega (arith, h.0, same), ground (arith, h.1, same)) in
        let resized = resize-contents laws n 0 s1 (omega (arith, small)) s1-IsValid in
        let s' = resized.0 in
        let kept : take n s'.content ≡ take n (moved_back d) =
          take_fewer n (min (array_length s) n) _ _ (ground arith) resized.5 in
        (
          s',
          ap (λ r. and_then r (resize a n 0))
                (move_content_within (pos + length bytes) (pos + count) d s
                  (omega (arith, h.0, long, less)) (omega (arith, h.0, long, less)))
              ∙ resized.1,
          record {
            valid = resized.2;
            len_is =
                resized.3
                ∙ omega
                    (arith, length-front pos s h inside, length-repeated, length-tail, long, less);
            front_is =
                ap (λ k. take k s'.content) (length-front pos s h inside)
                ∙ take_fewer pos n _ (moved_back d) (omega (arith, long, less)) kept
                ∙ front_of_moved_back;
            tail_is =
                ap (λ k. take (length repeated) (drop (k + length bytes) s'.content))
                  (length-front pos s h inside)
                ∙ ap (λ k. take k (drop (pos + length bytes) s'.content)) length-repeated
                ∙ take-drop_swap (pos + length bytes) (length (tail pos count s)) n s'.content
                    (omega (arith, length-tail, long, less))
                ∙ ap (drop (pos + length bytes)) kept
                ∙ sym (
                    take-drop_swap (pos + length bytes) (length (tail pos count s)) n (moved_back d)
                      (omega (arith, length-tail, long, less)))
                ∙ moved_back-repeated;
          },
        )

-- `replace` by d bytes fewer, or by as many, with something and at least d bytes behind the part taken
-- out, in a text that is short enough: the text has then the part before, the new bytes, the first d
-- bytes of the rest, and the rest from its start again, cut to the length.
pub replace_repeats :
    {a : Allocator} (laws : AllocatorLaws a) (pos count : ℕ) (bytes : List ℕ) (s : Array)
    → IsValid s
    → array_length s + length bytes + 64 ≤ 2 ^ 30
    → pos + count < array_length s
    → length bytes ≤ count
    → count - length bytes + (pos + count) ≤ array_length s
    → (s' : Array) × (replace a pos count bytes s ≡ some s')
      × Holds
          (take pos (contents s)
            ++ (bytes
                ++ (take (count - length bytes) (drop (pos + count) (contents s))
                    ++ take
                        (length (drop (pos + count) (contents s)) - (count - length bytes))
                        (drop (pos + count) (contents s)))))
          s'
unfolding replace replace_inside repeated
replace_repeats {a} laws pos count bytes s h small left less long =
    let inside : pos ≤ array_length s = omega (arith, left) in
    let gap = shrink-HasGap laws pos count bytes s h small inside less long in
    let written = write_gap-Holds _ bytes _ gap.0 gap.2 in
    (
      written.0,
      ap (λ r. and_then r (write_content pos bytes))
            (if-false _ _ (lt→leb _ _ left) ∙ if-false _ _ (le→ltb _ _ less) ∙ gap.1)
          ∙ ap (λ k. write_content k bytes gap.0) (sym (length-front pos s h inside))
          ∙ written.1,
      written.2,
    )
