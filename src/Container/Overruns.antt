-- ===== src/Container/Overruns.antt =====
-- The calls of `vector_mref_base` and of `c_str` (src/mfast/vector_ref.h, src/mfast/string_ref.h) that
-- leave the vector's block, and those that lose what they are given.
use m_fast.Common.{
  ℕ, ◌+◌, ◌-◌, ◌^◌, ◌≤◌, ◌<◌, ◌≡◌, refl, sym, subst, ap, ◌∙◌, none, some, List, [], ◌∷◌, ◌++◌, true,
  leb, leb→le, if-elim, ◌%◌, length, length-append, take, drop, if-true, if-false, arith, inl,
}
use m_fast.Text.Mismatch.{length-drop}
use m_fast.Container.Array.{
  Array, Allocator, AllocatorLaws, array_length, contents, write_at, move_within, write_content,
  move_content, and_then,
}
use m_fast.Container.Vector.{capacity, move_tail, add_length, shift, insert, push_back, omit, c_str}
use m_fast.Container.Blocks.{
  IsValid, lt→leb, lt→ltb, le→ltb, length-take, take-take, length-contents, write_content_within,
  length-write, drop_all,
}
use mathlib.Core.Option.{some-injective}
use m_fast.Container.Assign.{Holds, array_length_of}
use m_fast.Container.Insert.{insert-Holds}

write_at_outside :
    (i : ℕ) (bytes block : List ℕ) → length block < i + length bytes → write_at i bytes block ≡ none
unfolding write_at
write_at_outside i bytes block h = if-false _ _ (lt→leb _ _ h)

move_outside :
    (to from n : ℕ) (block : List ℕ) → length block < to + n → move_within to from n block ≡ none
unfolding move_within
move_outside to from n block h =
    if-elim (λ r. r ≡ none) (leb (from + n) (length block)) _ _
      (λ t. write_at_outside to _ block (
        omega (
          arith,
          h,
          leb→le _ _ t,
          length-take n (drop from block) (omega (arith, leb→le _ _ t, length-drop from block)),
          length-drop from block,
        )))
      (λ f. refl)

-- `push_back` where no new block is needed.
push_back_in_place :
    (a : Allocator) (c : ℕ) (s : Array)
    → array_length s + 1 ≤ length s.content
    → length s.content ≡ capacity s
    → push_back a c s
      ≡ some (record s {
        len = (s.len + 1) % 2 ^ 32;
        content =
            take (array_length s) s.content ++ (c ∷ [] ++ drop (array_length s + 1) s.content);
      })
unfolding push_back insert shift move_tail
push_back_in_place a c s room block =
    ap
      (λ r.
        and_then (and_then (and_then r (move_tail (array_length s) 1)) λ s'. some (add_length 1 s'))
          (write_content (array_length s) (c ∷ [])))
      (if-false _ _ (le→ltb (capacity s) (array_length s + 1) (omega (arith, room, block))))
    ∙ ap
        (λ r.
          and_then (and_then r λ s'. some (add_length 1 s'))
            (write_content (array_length s) (c ∷ [])))
        (if-false _ _ (le→ltb (array_length s) (array_length s) (omega arith)))
    ∙ write_content_within (array_length s) (c ∷ []) (add_length 1 s) room

-- `insert` before the end of a text that becomes as long as the vector's block accesses a byte outside
-- the block.
pub insert_overruns :
    (a : Allocator) (offset : ℕ) (bytes : List ℕ) (s : Array)
    → length s.content ≡ capacity s
    → array_length s + length bytes ≡ capacity s
    → offset < array_length s
    → insert a offset bytes s ≡ none
unfolding insert shift move_tail move_content
insert_overruns a offset bytes s block full inside =
    let n = length bytes in
    let k = array_length s + 1 - offset in
    let from_end : move_within (offset + n) offset k s.content ≡ none =
      move_outside (offset + n) offset k s.content (omega (arith, block, full, inside)) in
    ap
      (λ r.
        and_then (and_then (and_then r (move_tail offset n)) λ s'. some (add_length n s'))
          (write_content offset bytes))
      (if-false _ _ (le→ltb (capacity s) (array_length s + n) (omega (arith, full))))
    ∙ ap (λ r. and_then (and_then r λ s'. some (add_length n s')) (write_content offset bytes))
        (if-true _ _ (lt→ltb offset (array_length s) inside)
          ∙ ap (λ r. elim r [ none ↦ none | some b ↦ some (record s { content = b }) ]) from_end)

-- In a vector that is present with a short text, behind which its block has one place left, `push_back`
-- takes that place for its byte, and `c_str` then writes its NUL outside the block.
pub c_str-push_back :
    {a : Allocator} (laws : AllocatorLaws a) (c : ℕ) (text : List ℕ) (s : Array)
    → Holds text s
    → length text + 65 ≤ 2 ^ 30
    → length text + 1 ≡ capacity s
    → (s' : Array) × (push_back a c s ≡ some s') × Holds (text ++ c ∷ []) s' × (c_str s' ≡ none)
unfolding push_back c_str write_content contents
c_str-push_back {a} laws c text s h small last =
    let k = array_length s in
    let size = array_length_of (length text) s h.len_is in
    let block : length s.content ≡ capacity s = ground (arith, h.valid, last) in
    let in_place = push_back_in_place a c s (omega (arith, block, last, size)) block in
    let inserted =
      insert-Holds laws k (c ∷ []) s h.valid (omega (arith, small, size)) (omega arith) (inl refl)
        (inl (omega (arith, h.len_is))) in
    let s' = inserted.0 in
    let same = some-injective _ _ (sym inserted.1 ∙ in_place) in
    let holds : Holds (text ++ c ∷ []) s' =
      subst (λ t. Holds t s')
        (ap (λ l. l ++ (c ∷ [] ++ drop k (contents s)))
            (take-take k k s.content (omega arith) ∙ h.text_is)
          ∙ ap (λ l. text ++ (c ∷ l))
              (drop_all k (contents s) (omega (arith, length-contents s h.valid))))
        inserted.2 in
    let size' = array_length_of (length (text ++ c ∷ [])) s' holds.len_is in
    let full : length s'.content ≡ length s.content =
      ap (λ s1. length s1.content) same
      ∙ length-write k (c ∷ []) s.content (omega (arith, block, last, size)) in
    (
      s',
      inserted.1,
      holds,
      if-true _ _ (lt→ltb 0 (capacity s') (omega (arith, ap capacity same, last)))
          ∙ ap (λ r. elim r [ none ↦ none | some b ↦ some (record s' { content = b }) ])
              (write_at_outside (array_length s') (0 ∷ []) s'.content
                (omega (arith, size', length-append text (c ∷ []), full, block, last))),
    )

-- `push_back` onto a vector that was omitted and kept its block: only the length that says "empty" is
-- reached, and the byte is lost.
pub push_back_lost :
    (a : Allocator) (c : ℕ) (s : Array)
    → IsValid s
    → 1 ≤ capacity s
    → (s' : Array) × (push_back a c (omit true s) ≡ some s') × (s'.len ≡ 1) × (contents s' ≡ [])
unfolding omit contents
push_back_lost a c s h owned = (
  _,
  push_back_in_place a c (omit true s) (ground (arith, h, owned)) (ground (arith, h, owned)),
  refl,
  refl,
)
