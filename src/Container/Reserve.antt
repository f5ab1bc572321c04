-- ===== src/Container/Reserve.antt =====
-- `reserve` of `vector_mref_base` (src/mfast/vector_ref.h): the room asked for is there, and the text
-- stays.
use m_fast.Common.{
  ℕ, ◌+◌, ◌^◌, ◌%◌, ◌≤◌, ◌<◌, ◌≡◌, refl, sym, ◌∙◌, ◌⊎◌, inl, inr, some, List, [], ◌++◌, Bool-cases,
  ltb, true, false, length, take, drop, if-true, if-false, arith,
}
use native.Mathlib.Nat.{mod-eq_of_lt}
use m_fast.Container.Array.{Array, Allocator, AllocatorLaws, array_length, write_content}
use m_fast.Container.Vector.{capacity, reallocated, min, take_over, reserve}
use m_fast.Container.Blocks.{
  IsValid, take_fewer, length-take, take_front, write_content_within, length-write,
}

-- What `reserve` promises of the storage `s'` that it makes of `s`.
pub record Reserved (n : ℕ) (s s' : Array) : Type 0 where
  pub room : n < capacity s'
  pub block : length s'.content ≡ capacity s'
  pub same_length : array_length s' ≡ array_length s
  pub started : (1 ≤ s.len) ⊎ (capacity s ≡ 0) → s'.len ≡ array_length s + 1
  pub keeps : take (min (array_length s) n) s'.content ≡ take (min (array_length s) n) s.content

-- The text that is kept is part of both.
pub min_left : (a b : ℕ) → min a b ≤ a
min_left a b = ground arith

min_right : (a b : ℕ) → min a b ≤ b
min_right a b = ground arith

module _ {a : Allocator} (laws : AllocatorLaws a) (n : ℕ) (small : n + 64 ≤ 2 ^ 30)
    (s : Array) where
  kept_size : a.new_size (n + 1) % 2 ^ 31 ≡ a.new_size (n + 1)
  kept_size = mod-eq_of_lt (omega (arith, small, laws.at_most (n + 1)))

  enough_room : n < a.new_size (n + 1) % 2 ^ 31
  enough_room = omega (arith, kept_size, laws.enough (n + 1))

  grown-Reserved :
      IsValid s
      → ltb n (capacity s) ≡ false
      → ltb 0 (capacity s) ≡ true
      → Reserved n s (reallocated a s.content (capacity s) (n + 1) s)
  grown-Reserved h full owned =
      let block : length s.content ≡ capacity s = ground (arith, h, owned) in
      let within : capacity s ≤ length s.content = omega (arith, block) in
      let up : capacity s ≤ n + 1 = ground (arith, full) in
      record {
        room = enough_room;
        block = laws.length_reallocate s.content (capacity s) (n + 1) within up ∙ sym kept_size;
        same_length = refl;
        started = λ e. ground (arith, e, owned);
        keeps =
            take_fewer _ (capacity s) _ s.content
              (omega (arith, h.0, block, min_left (array_length s) n))
              (laws.take_reallocate s.content (capacity s) (n + 1) within up);
      }

  nothing_kept : (k : ℕ) (xs ys : List ℕ) → k ≡ 0 → take k xs ≡ take k ys
  nothing_kept k xs ys e = rw e refl

  -- The new block of a vector that owned none.
  fresh : Array
  fresh = reallocated a [] 0 (n + 1) s

  length-fresh : length fresh.content ≡ capacity fresh
  unfolding fresh
  length-fresh = laws.length_reallocate [] 0 (n + 1) (omega arith) (omega arith) ∙ sym kept_size

  take_over_copied :
      IsValid s
      → ltb 1 s.len ≡ true
      → (s' : Array) × (write_content 0 (take (min (array_length s) n) s.content) fresh ≡ some s')
        × Reserved n s s'
  unfolding fresh
  take_over_copied h t =
      let k = min (array_length s) n in
      let old = take k s.content in
      let size : length old ≡ k =
        length-take k s.content (omega (arith, h.0, min_left (array_length s) n)) in
      let fits : 0 + length old ≤ length fresh.content =
        omega (arith, size, min_right (array_length s) n, length-fresh, enough_room) in
      (
        record fresh { content = old ++ drop (0 + length old) fresh.content },
        write_content_within 0 old fresh fits,
        record {
          room = enough_room;
          block = length-write 0 old fresh.content fits ∙ length-fresh;
          same_length = refl;
          started = λ e. ground (arith, t);
          keeps = take_front k old _ size;
        },
      )

  take_over_lem : IsValid s → (s' : Array) × (take_over a n s ≡ some s') × Reserved n s s'
  unfolding take_over fresh
  take_over_lem h = elim (Bool-cases (ltb 1 s.len)) [
    | inl t ↦ elim (Bool-cases (ltb 0 n)) [
      | inl p ↦
          let copied = take_over_copied h t in
          (copied.0, if-true _ _ t ∙ if-true _ _ p ∙ copied.1, copied.2)
      | inr z ↦ (
        fresh,
        if-true _ _ t ∙ if-false _ _ z,
        record {
          room = enough_room;
          block = length-fresh;
          same_length = refl;
          started = λ e. ground (arith, t);
          keeps = nothing_kept _ _ s.content (ground (arith, z));
        },
      )
    ]
    | inr f ↦ (
      record fresh { len = 1 },
      if-false _ _ f,
      record {
        room = enough_room;
        block = length-fresh;
        same_length = ground (arith, f);
        started = λ e. ground (arith, f);
        keeps = nothing_kept _ _ s.content (ground (arith, f));
      },
    )
  ]

  pub reserve-Reserved : IsValid s → (s' : Array) × (reserve a n s ≡ some s') × Reserved n s s'
  unfolding reserve
  reserve-Reserved h = elim (Bool-cases (ltb n (capacity s))) [
    | inl t ↦ (
      s,
      if-true _ _ t,
      record {
        room = ground (arith, t);
        block = ground (arith, h, t);
        same_length = refl;
        started = λ e. ground (arith, e, t);
        keeps = refl;
      },
    )
    | inr f ↦ elim (Bool-cases (ltb 0 (capacity s))) [
      | inl t ↦ (
        reallocated a s.content (capacity s) (n + 1) s,
        if-false _ _ f ∙ if-true _ _ t,
        grown-Reserved h f t,
      )
      | inr z ↦
          let taken = take_over_lem h in
          (taken.0, if-false _ _ f ∙ if-false _ _ z ∙ taken.1, taken.2)
    ]
  ]
