-- ===== src/Container/Calls.antt =====
-- A vector of `vector_mref_base` (src/mfast/vector_ref.h) against a list of bytes, under six kinds of
-- calls. Inserting before the end, replacing and lengthening by `resize` are not among them.
use m_fast.Common.{
  ℕ, ◌+◌, ◌-◌, ◌^◌, ◌≤◌, ◌≡◌, refl, sym, ap, subst, ◌∙◌, inl, Option, some, List, [], ◌∷◌, ◌++◌,
  append-nil, length, length-append, take, drop, if-elim, ◌==◌, arith,
}
use native.Mathlib.Nat.{mod-eq_of_lt}
use m_fast.Container.Array.{Array, Allocator, AllocatorLaws, array_length, contents, and_then}
use m_fast.Container.Vector.{min, assign, insert, push_back, pop_back, resize, refers_to}
use m_fast.Container.Blocks.{
  length-contents, take-take, take_fewer, length-take, take_front, drop_all,
}
use m_fast.Container.Assign.{Holds, array_length_of, assign-Holds, resize-contents}
use m_fast.Container.Insert.{insert-Holds}

-- Calls, with the bytes that they are given: `append` is `insert` at `end()`, `truncate` is `resize`
-- to a length that is not greater.
pub data Call : Type 0 where
  call_assign call_append : List ℕ → Call
  call_push_back call_truncate : ℕ → Call
  call_pop_back : Call
  call_refers_to : List ℕ → List ℕ → Call

abbrev pub call : Allocator → Call → Array → Option Array
call a (call_assign bytes) s = assign a bytes s
call a (call_append bytes) s = insert a (array_length s) bytes s
call a (call_push_back c) s = push_back a c s
call a (call_truncate n) s = resize a n 0 s
call a call_pop_back s = some (pop_back s)
call a (call_refers_to bytes around) s = some (refers_to bytes around s)

abbrev pub run_calls : Allocator → List Call → Array → Option Array
run_calls a [] s = some s
run_calls a (c ∷ cs) s = and_then (call a c s) (run_calls a cs)

-- The list that a call makes of the list.
abbrev pub apply : Call → List ℕ → List ℕ
apply (call_assign bytes) text = bytes
apply (call_append bytes) text = text ++ bytes
apply (call_push_back c) text = text ++ c ∷ []
apply (call_truncate n) text = take n text
apply call_pop_back text = take (length text - 1) text
apply (call_refers_to bytes around) text = bytes

abbrev pub apply_all : List Call → List ℕ → List ℕ
apply_all [] text = text
apply_all (c ∷ cs) text = apply_all cs (apply c text)

-- A text whose block still has a capacity of 31 bits.
abbrev pub IsShort : List ℕ → Type 0
IsShort text = length text + 64 ≤ 2 ^ 30

abbrev pub Accepts : Call → List ℕ → Type 0
Accepts (call_assign bytes) text = IsShort bytes
Accepts (call_append bytes) text = IsShort (text ++ bytes)
Accepts (call_push_back c) text = IsShort (text ++ c ∷ [])
Accepts (call_truncate n) text = IsShort text × (n ≤ length text)
Accepts call_pop_back text = IsShort text
Accepts (call_refers_to bytes around) text = IsShort bytes

abbrev pub AcceptsAll : List Call → List ℕ → Type 0
AcceptsAll [] text = Unit {0}
AcceptsAll (c ∷ cs) text = Accepts c text × AcceptsAll cs (apply c text)

take_nothing : (text : List ℕ) → length text ≡ 0 → take (length text - 1) text ≡ text
take_nothing [] e = refl
take_nothing (c ∷ text) e = absurd (omega (arith, e))

module _ {a : Allocator} (laws : AllocatorLaws a) where
  append-Holds :
      (bytes text : List ℕ) (s : Array)
      → Holds text s
      → IsShort (text ++ bytes)
      → (s' : Array) × (insert a (array_length s) bytes s ≡ some s') × Holds (text ++ bytes) s'
  unfolding contents
  append-Holds bytes text s h small =
      let k = array_length s in
      let size = array_length_of (length text) s h.len_is in
      let inserted =
        insert-Holds laws k bytes s h.valid (omega (arith, small, size, length-append text bytes))
          (omega arith) (inl refl) (inl (omega (arith, h.len_is))) in
      (
        inserted.0,
        inserted.1,
        subst (λ t. Holds t inserted.0)
            (ap (λ l. l ++ (bytes ++ drop k (contents s)))
                (take-take k k s.content (omega arith) ∙ h.text_is)
              ∙ ap (λ l. text ++ (bytes ++ l))
                  (drop_all k (contents s) (omega (arith, length-contents s h.valid)))
              ∙ ap (λ l. text ++ l) (append-nil bytes))
            inserted.2,
      )

  truncate-Holds :
      (n : ℕ) (text : List ℕ) (s : Array)
      → Holds text s
      → IsShort text
      → n ≤ length text
      → (s' : Array) × (resize a n 0 s ≡ some s') × Holds (take n text) s'
  unfolding contents
  truncate-Holds n text s h small less =
      let size = array_length_of (length text) s h.len_is in
      let resized = resize-contents laws n 0 s (omega (arith, small, less)) h.valid in
      let s' = resized.0 in
      (
        s',
        resized.1,
        record {
          valid = resized.2;
          text_is =
              ap (λ k. take k s'.content) (array_length_of n s' resized.3)
              ∙ take_fewer n (min (array_length s) n) _ _ (ground (arith, less, size)) resized.5
              ∙ sym (take-take n (array_length s) s.content (omega (arith, less, size)))
              ∙ ap (take n) h.text_is;
          len_is = resized.3 ∙ omega (arith, length-take n text less);
        },
      )

  pop_back-Holds :
      (text : List ℕ) (s : Array) → Holds text s → Holds (take (length text - 1) text) (pop_back s)
  unfolding pop_back contents
  pop_back-Holds text s h =
      let size = array_length_of (length text) s h.len_is in
      if-elim (Holds (take (length text - 1) text)) (array_length s == 0) s
        (record s { len = s.len - 1 })
        (λ z. subst (λ t. Holds t s) (sym (take_nothing text (ground (arith, z, size)))) h)
        (λ more.
          let s' : Array = record s { len = s.len - 1 } in
          let size' = array_length_of (length text - 1) s' (ground (arith, h.len_is, more, size)) in
          record {
            valid = (omega (arith, h.valid.0, size, size'), h.valid.1);
            text_is =
                ap (λ k. take k s.content) size'
                ∙ sym (take-take (length text - 1) (array_length s) s.content (omega (arith, size)))
                ∙ ap (take (length text - 1)) h.text_is;
            len_is =
                ground
                  (arith, h.len_is, more, size, length-take (length text - 1) text (omega arith));
          })

  refers_to-Holds :
      (bytes around : List ℕ) (s : Array) → IsShort bytes → Holds bytes (refers_to bytes around s)
  unfolding refers_to contents
  refers_to-Holds bytes around s small =
      let len = mod-eq_of_lt (omega (arith, small)) in
      let size = array_length_of (length bytes) (refers_to bytes around s) len in
      record {
        valid = (omega (arith, size, length-append bytes around), inl refl);
        text_is = ap (λ k. take k (bytes ++ around)) size ∙ take_front _ bytes around refl;
        len_is = len;
      }

  call-Holds :
      (c : Call) (text : List ℕ) (s : Array)
      → Holds text s
      → Accepts c text
      → (s' : Array) × (call a c s ≡ some s') × Holds (apply c text) s'
  unfolding push_back
  call-Holds (call_assign bytes) text s h ok =
      let assigned = assign-Holds laws bytes s ok h.valid in (assigned.0, assigned.1, assigned.2)
  call-Holds (call_append bytes) text s h ok = append-Holds bytes text s h ok
  call-Holds (call_push_back c) text s h ok = append-Holds (c ∷ []) text s h ok
  call-Holds (call_truncate n) text s h ok = truncate-Holds n text s h ok.0 ok.1
  call-Holds call_pop_back text s h ok = (pop_back s, refl, pop_back-Holds text s h)
  call-Holds (call_refers_to bytes around) text s h ok =
      (refers_to bytes around s, refl, refers_to-Holds bytes around s ok)

  -- On a vector that is present, any of these six calls, in any order, that keep the text short access
  -- only its block, leave the storage well formed, and make of the vector the list that the calls make
  -- of a list. A call of `resize` is to a length that is not greater.
  pub run_calls-Holds :
      (calls : List Call) (text : List ℕ) (s : Array)
      → Holds text s
      → AcceptsAll calls text
      → (s' : Array) × (run_calls a calls s ≡ some s') × Holds (apply_all calls text) s'
  run_calls-Holds [] text s h ok = (s, refl, h)
  run_calls-Holds (c ∷ cs) text s h ok =
      let first = call-Holds c text s h ok.0 in
      let rest = run_calls-Holds cs (apply c text) first.0 first.2 ok.1 in
      (rest.0, ap (λ r. and_then r (run_calls a cs)) first.1 ∙ rest.1, rest.2)
