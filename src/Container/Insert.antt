-- ===== src/Container/Insert.antt =====
-- `shift`, `insert`, `push_back` and `pop_back` of `vector_mref_base` (src/mfast/vector_ref.h).
use m_fast.Common.{
  ℕ, ◌+◌, ◌-◌, ◌^◌, ◌≤◌, ◌<◌, ◌≡◌, ◌≢◌, ◌⊎◌, refl, sym, ap, ◌∙◌, inl, inr, some, List, [], ◌++◌,
  Bool-cases, ltb, length, length-append, take, drop, if-true, if-false, arith, if◌then◌else◌,
}
use native.Mathlib.Nat.{mod-eq_of_lt}
use m_fast.Text.Mismatch.{length-drop}
use m_fast.Container.Array.{
  Array, Allocator, AllocatorLaws, array_length, contents, write_content, and_then,
}
use m_fast.Container.Vector.{capacity, reserve, move_tail, add_length, shift, insert}
use m_fast.Container.Blocks.{
  IsValid, length-contents, take-take, take_fewer, length-take, take_within, drop_front,
  take-drop_swap, drop_all, move_content_within,
}
use m_fast.Container.Reserve.{reserve-Reserved}
use m_fast.Container.Gap.{HasGap, write_gap-Holds}
use m_fast.Container.Assign.{Holds, array_length_of}

-- `insert` of `n` bytes at `offset` stays within the block: behind the text, or where the vector has
-- not exactly the room for the longer text.
abbrev pub HasRoom : ℕ → ℕ → Array → Type 0
HasRoom offset n s = (offset ≡ array_length s) ⊎ (array_length s + n ≢ capacity s)

-- The vector is present, or it owns no block and gets something.
abbrev pub CanGrow : ℕ → Array → Type 0
CanGrow n s = (1 ≤ s.len) ⊎ ((capacity s ≡ 0) × (1 ≤ n))

take_none : (k : ℕ) (xs : List ℕ) → k ≡ 0 → take k xs ≡ []
take_none k xs e = rw e refl

-- The vector as `shift` moves its bytes.
record Grown (offset n : ℕ) (s s1 : Array) : Type 0 where
  len_is : s1.len ≡ array_length s + 1
  fits : array_length s + n ≤ length s1.content
  behind : (offset ≡ array_length s) ⊎ (array_length s + n < length s1.content)
  owned : (capacity s1 ≡ 0) ⊎ (length s1.content ≡ capacity s1)
  text : take (array_length s) s1.content ≡ contents s

module _ {a : Allocator} (laws : AllocatorLaws a) (offset n : ℕ) (s : Array) (h : IsValid s)
    (small : array_length s + n + 64 ≤ 2 ^ 30) (inside : offset ≤ array_length s)
    (room : HasRoom offset n s) (present : CanGrow n s) where
  grow-Grown :
      (s1 : Array) × ((if ltb (capacity s) (array_length s + n)
          then reserve a (array_length s + n) s
          else some s)
        ≡ some s1)
      × Grown offset n s s1
  unfolding contents
  grow-Grown = elim (Bool-cases (ltb (capacity s) (array_length s + n))) [
    | inr f ↦ (
      s,
      if-false _ _ f,
      record {
        len_is = ground (arith, present, f);
        fits = ground (arith, h, f);
        behind = ground (arith, h, f, room);
        owned = h.1;
        text = refl;
      },
    )
    | inl t ↦
        let reserved = reserve-Reserved laws (array_length s + n) small s h in
        let r = reserved.2 in
        (
          reserved.0,
          if-true _ _ t ∙ reserved.1,
          record {
            len_is = r.started (ground (arith, present));
            fits = omega (arith, r.room, r.block);
            behind = inr (omega (arith, r.room, r.block));
            owned = inr r.block;
            text = take_fewer _ _ _ _ (ground arith) r.keeps;
          },
        )
  ]

  -- What the second move leaves: the place of the gap, and behind it what was at `offset`.
  record Opened (s1 s2 : Array) : Type 0 where
    same_len : s2.len ≡ s1.len
    same_capacity : capacity s2 ≡ capacity s1
    same_size : length s2.content ≡ length s1.content
    front : take offset s2.content ≡ take offset s1.content
    back : take (array_length s - offset) (drop (offset + n) s2.content) ≡ drop offset (contents s)

  move_tail-Opened :
      (s1 : Array)
      → Grown offset n s s1
      → (s2 : Array) × (move_tail offset n s1 ≡ some s2) × Opened s1 s2
  unfolding move_tail
  move_tail-Opened s1 g =
      let size = array_length_of (array_length s) s1 g.len_is in
      elim (Bool-cases (ltb offset (array_length s1))) [
        | inr f ↦ (
          s1,
          if-false _ _ f,
          record {
            same_len = refl;
            same_capacity = refl;
            same_size = refl;
            front = refl;
            back =
                take_none (array_length s - offset) _ (ground (arith, f, size))
                ∙ sym (drop_all offset (contents s) (ground (arith, f, size, length-contents s h)));
          },
        )
        | inl t ↦
            let c = s1.content in
            let m = array_length s1 + 1 - offset in
            let moved = take m (drop offset c) in
            let read : offset + m ≤ length c = ground (arith, g.behind, size, t) in
            let written : offset + n + m ≤ length c = ground (arith, g.behind, size, t) in
            let moved_size : length moved ≡ m =
              length-take m (drop offset c) (omega (arith, read, length-drop offset c)) in
            let behind = drop (offset + n + m) c in
            let front_size : length (take (offset + n) c) ≡ offset + n =
              length-take (offset + n) c (omega (arith, written)) in
            (
              record s1 { content = take (offset + n) c ++ (moved ++ behind) },
              if-true _ _ t ∙ move_content_within (offset + n) offset m s1 read written,
              record {
                same_len = refl;
                same_capacity = refl;
                same_size = omega (
                  arith,
                  written,
                  front_size,
                  moved_size,
                  length-drop (offset + n + m) c,
                  length-append (take (offset + n) c) (moved ++ behind),
                  length-append moved behind,
                );
                front =
                    take_within offset _ _ (omega (arith, front_size))
                    ∙ take-take offset (offset + n) c (omega arith);
                back =
                    ap (take (array_length s - offset)) (drop_front (offset + n) _ _ front_size)
                    ∙ take_within (array_length s - offset) moved behind
                        (omega (arith, moved_size, size))
                    ∙ take-take (array_length s - offset) m (drop offset c) (omega (arith, size))
                    ∙ take-drop_swap offset (array_length s - offset) (array_length s) c
                        (omega (arith, inside))
                    ∙ ap (drop offset) g.text;
              },
            )
      ]

-- `shift` opens a gap at the position.
pub shift-HasGap :
    {a : Allocator} (laws : AllocatorLaws a) (offset n : ℕ) (s : Array)
    → IsValid s
    → array_length s + n + 64 ≤ 2 ^ 30
    → offset ≤ array_length s
    → HasRoom offset n s
    → CanGrow n s
    → (s' : Array) × (shift a offset n s ≡ some s')
      × HasGap (take offset (contents s)) n (drop offset (contents s)) s'
unfolding shift contents
shift-HasGap laws offset n s h small inside room present =
    let grown = grow-Grown laws offset n s h small inside room present in
    let s1 = grown.0 in
    let g = grown.2 in
    let opened = move_tail-Opened laws offset n s h small inside room present s1 g in
    let s2 = opened.0 in
    let o = opened.2 in
    let s3 = add_length n s2 in
    let len : s3.len ≡ array_length s + n + 1 =
      mod-eq_of_lt (omega (arith, small, o.same_len, g.len_is))
      ∙ omega (arith, o.same_len, g.len_is) in
    let front_size : length (take offset (contents s)) ≡ offset =
      length-take offset (contents s) (omega (arith, inside, length-contents s h)) in
    let tail_size : length (drop offset (contents s)) ≡ array_length s - offset =
      omega (arith, length-drop offset (contents s), length-contents s h) in
    let size = array_length_of (array_length s + n) s3 len in
    (
      s3,
      ap (λ r. and_then (and_then r (move_tail offset n)) λ s'. some (add_length n s')) grown.1
          ∙ ap (λ r. and_then r λ s'. some (add_length n s')) opened.1,
      record {
        valid = (
          omega (arith, size, o.same_size, g.fits),
          ground (arith, g.owned, o.same_size, o.same_capacity),
        );
        len_is = len ∙ omega (arith, front_size, tail_size, inside);
        front_is =
            ap (λ k. take k s2.content) front_size
            ∙ o.front
            ∙ take_fewer offset (array_length s) s1.content (contents s) inside (
                g.text ∙ sym (take-take (array_length s) (array_length s) s.content (omega arith)));
        tail_is =
            ap (λ k. take k (drop (length (take offset (contents s)) + n) s2.content)) tail_size
            ∙ ap (λ k. take (array_length s - offset) (drop (k + n) s2.content)) front_size
            ∙ o.back;
      },
    )

-- `insert` at a position within the text gives the part before it, the bytes and the part behind it,
-- where the longer text is short enough, the vector is present or owns no block and gets something, and
-- the position is the end or the longer text does not take up the block exactly.
pub insert-Holds :
    {a : Allocator} (laws : AllocatorLaws a) (offset : ℕ) (bytes : List ℕ) (s : Array)
    → IsValid s
    → array_length s + length bytes + 64 ≤ 2 ^ 30
    → offset ≤ array_length s
    → HasRoom offset (length bytes) s
    → CanGrow (length bytes) s
    → (s' : Array) × (insert a offset bytes s ≡ some s')
      × Holds (take offset (contents s) ++ (bytes ++ drop offset (contents s))) s'
unfolding insert
insert-Holds laws offset bytes s h small inside room present =
    let shifted = shift-HasGap laws offset (length bytes) s h small inside room present in
    let front = take offset (contents s) in
    let front_size : length front ≡ offset =
      length-take offset (contents s) (omega (arith, inside, length-contents s h)) in
    let written = write_gap-Holds front bytes (drop offset (contents s)) shifted.0 shifted.2 in
    (
      written.0,
      ap (λ r. and_then r (write_content offset bytes)) shifted.1
          ∙ ap (λ k. write_content k bytes shifted.0) (sym front_size)
          ∙ written.1,
      written.2,
    )
