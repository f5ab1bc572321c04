-- ===== src/Container/Assign.antt =====
-- `assign` and `resize` of `vector_mref_base` (src/mfast/vector_ref.h).
use m_fast.Common.{
  ℕ, zero, suc, ◌+◌, ◌-◌, ◌^◌, ◌≤◌, ◌<◌, ◌≡◌, refl, ap, ◌∙◌, inl, inr, some, List, ◌++◌, Bool-cases,
  ltb, length, take, drop, if-true, if-false, arith,
}
use native.Mathlib.Nat.{mod-eq_of_lt}
use m_fast.Container.Array.{
  Array, Allocator, AllocatorLaws, array_length, set_array_length, contents, write_content,
  and_then,
}
use m_fast.Container.Vector.{capacity, min, repeat, fill_from_end, resize, assign}
use m_fast.Container.Blocks.{
  IsValid, take_fewer, length-take, take_front, write_content_within, length-write,
}
use m_fast.Container.Reserve.{reserve-Reserved, min_left}

-- The vector is present and holds `text`.
pub record Holds (text : List ℕ) (s : Array) : Type 0 where
  pub valid : IsValid s
  pub text_is : contents s ≡ text
  pub len_is : s.len ≡ length text + 1

-- A room for the NUL of `c_str` is left behind the text.
abbrev pub HasSpare : Array → Type 0
HasSpare s = array_length s < capacity s

pub len-set_array_length :
    (n : ℕ) (s : Array) → n + 64 ≤ 2 ^ 30 → (set_array_length n s).len ≡ n + 1
len-set_array_length n s h = mod-eq_of_lt (omega (arith, h))

pub array_length_of : (n : ℕ) (s : Array) → s.len ≡ n + 1 → array_length s ≡ n
array_length_of n s e = ground (arith, e)

pub length-repeat : (n c : ℕ) → length (repeat n c) ≡ n
unfolding repeat
length-repeat zero c = refl
length-repeat (suc n) c = ap suc (length-repeat n c)

module _ {a : Allocator} (laws : AllocatorLaws a) where
  -- The vector holds what it is assigned, whatever it held, and room for a NUL.
  pub assign-Holds :
      (bytes : List ℕ) (s : Array)
      → length bytes + 64 ≤ 2 ^ 30
      → IsValid s
      → (s' : Array) × (assign a bytes s ≡ some s') × Holds bytes s' × HasSpare s'
  unfolding assign contents
  assign-Holds bytes s small h =
      let n = length bytes in
      let reserved = reserve-Reserved laws n small s h in
      let s1 = reserved.0 in
      let r = reserved.2 in
      let fits : 0 + n ≤ length s1.content = omega (arith, r.room, r.block) in
      let block = bytes ++ drop (0 + n) s1.content in
      let s2 : Array = record s1 { content = block } in
      let same : length block ≡ capacity s1 = length-write 0 bytes s1.content fits ∙ r.block in
      let len = len-set_array_length n s2 small in
      let size = array_length_of n (set_array_length n s2) len in
      (
        set_array_length n s2,
        ap (λ o. and_then (and_then o (write_content 0 bytes)) λ s'. some (set_array_length n s'))
              reserved.1
            ∙ ap (λ o. and_then o λ s'. some (set_array_length n s'))
                (write_content_within 0 bytes s1 fits),
        record {
          valid = (omega (arith, size, same, r.room), inr same);
          text_is = ap (λ k. take k block) size ∙ take_front n bytes _ refl;
          len_is = len;
        },
        omega (arith, size, r.room),
      )

  fill_within :
      (n c : ℕ) (s : Array)
      → n ≤ length s.content
      → (s' : Array) × (fill_from_end n c s ≡ some s')
        × (capacity s' ≡ capacity s)
        × (length s'.content ≡ length s.content)
        × (take (array_length s) s'.content ≡ take (array_length s) s.content)
  unfolding fill_from_end
  fill_within n c s h = elim (Bool-cases (ltb (array_length s) n)) [
    | inr f ↦ (s, if-false _ _ f, refl, refl, refl)
    | inl t ↦
        let k = array_length s in
        let zeros = repeat (n - k) c in
        let fits : k + length zeros ≤ length s.content =
          ground (arith, t, h, length-repeat (n - k) c) in
        (
          record s { content = take k s.content ++ (zeros ++ drop (k + length zeros) s.content) },
          if-true _ _ t ∙ write_content_within k zeros s fits,
          refl,
          length-write k zeros s.content fits,
          take_front k _ _ (length-take k s.content (omega (arith, fits))),
        )
  ]

  -- The length is the one asked for and the text up to the smaller length stays.
  pub resize-contents :
      (n c : ℕ) (s : Array)
      → n + 64 ≤ 2 ^ 30
      → IsValid s
      → (s' : Array) × (resize a n c s ≡ some s')
        × IsValid s'
        × (s'.len ≡ n + 1)
        × HasSpare s'
        × (take (min (array_length s) n) s'.content ≡ take (min (array_length s) n) s.content)
  unfolding resize
  resize-contents n c s small h = elim (Bool-cases (ltb (capacity s) (n + 1))) [
    | inr f ↦
        let len = len-set_array_length n s small in
        let size = array_length_of n (set_array_length n s) len in
        let owned : length s.content ≡ capacity s = ground (arith, h, f) in
        let room : n < capacity s = ground (arith, f) in
        (
          set_array_length n s,
          ap (λ o. and_then o λ s'. some (set_array_length n s')) (if-false _ _ f),
          (omega (arith, size, owned, room), inr owned),
          len,
          omega (arith, size, room),
          refl,
        )
    | inl t ↦
        let reserved = reserve-Reserved laws n small s h in
        let s1 = reserved.0 in
        let r = reserved.2 in
        let filled = fill_within n c s1 (omega (arith, r.room, r.block)) in
        let s2 = filled.0 in
        let len = len-set_array_length n s2 small in
        let size = array_length_of n (set_array_length n s2) len in
        let room : n < capacity s2 = omega (arith, r.room, filled.2) in
        let owned : length s2.content ≡ capacity s2 = omega (arith, r.block, filled.2, filled.3) in
        (
          set_array_length n s2,
          ap (λ o. and_then o λ s'. some (set_array_length n s'))
              (if-true _ _ t ∙ ap (λ o. and_then o (fill_from_end n c)) reserved.1 ∙ filled.1),
          (omega (arith, size, owned, room), inr owned),
          len,
          omega (arith, size, room),
          take_fewer _ (array_length s1) _ _
                (omega (arith, r.same_length, min_left (array_length s) n)) filled.4
              ∙ r.keeps,
        )
  ]
