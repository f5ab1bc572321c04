-- ===== src/Container/Runs.antt =====
-- Runs of the vectors and allocators of src/mfast/vector_ref.h, src/mfast/malloc_allocator.cpp and
-- src/mfast/arena_allocator.cpp.
use m_fast.Common.{
  ℕ, true, ◌≡◌, refl, ◌∙◌, inl, inr, none, some, List, [], ◌∷◌, ◌++◌, length-append, take, arith,
}
use m_fast.Container.Array.{Array, AllocatorLaws, Allocator, contents}
use m_fast.Container.Allocators.{
  arena_reallocator, malloc_allocator, Realloc, allocators-AllocatorLaws,
}
use m_fast.Container.Vector.{insert, push_back, replace, omit, repeat, c_str, resize, reserve}
use m_fast.Container.Blocks.{IsValid, length-take, take-take, take_within}
use m_fast.Container.Assign.{Holds, length-repeat}
use m_fast.Container.Insert.{insert-Holds}
use m_fast.Container.Replace.{replace-Holds}
use m_fast.Container.ReplaceShorter.{replace_repeats}
use m_fast.Container.Overruns.{insert_overruns, c_str-push_back, push_back_lost}
use m_fast.Container.Calls.{
  run_calls, call_assign, call_append, call_push_back, call_pop_back, call_truncate, call_refers_to,
  run_calls-Holds,
}

-- Memory that the system hands out cleared, and `realloc` on it.
abbrev cleared : ℕ → List ℕ
cleared n = repeat n 0

abbrev cleared_realloc : List ℕ → ℕ → List ℕ
cleared_realloc old n = take n (old ++ cleared n)

cleared-Realloc : Realloc cleared_realloc
cleared-Realloc = record {
  length_realloc =
      λ old n. length-take n _ (omega (arith, length-append old (cleared n), length-repeat n 0));
  take_realloc = λ old k n h h'. take-take k n (old ++ cleared n) h' ∙ take_within k old _ h;
}

abbrev arena : Allocator
arena = arena_reallocator cleared

cleared-AllocatorLaws :
    AllocatorLaws (malloc_allocator cleared_realloc) × AllocatorLaws (arena_reallocator cleared)
cleared-AllocatorLaws =
    allocators-AllocatorLaws cleared_realloc cleared cleared-Realloc (λ n. length-repeat n 0)

arena-AllocatorLaws : AllocatorLaws arena
arena-AllocatorLaws = cleared-AllocatorLaws.1

abbrev empty : Array
empty = record { len = 1; capacity_in_bytes = 0; content = [] }

empty-Holds : Holds [] empty
unfolding contents
empty-Holds = record { valid = (omega arith, inl refl); text_is = refl; len_is = refl }

run_calls-Holds_example :
    (s : Array) × (run_calls arena
        (call_assign (1 ∷ 2 ∷ 3 ∷ [])
          ∷ call_push_back 4
          ∷ call_append (5 ∷ 6 ∷ [])
          ∷ call_pop_back
          ∷ call_truncate 2
          ∷ call_refers_to (7 ∷ 8 ∷ []) (9 ∷ [])
          ∷ call_push_back 10
          ∷ [])
        empty
      ≡ some s)
    × Holds (7 ∷ 8 ∷ 10 ∷ []) s
run_calls-Holds_example =
    run_calls-Holds arena-AllocatorLaws
      (call_assign (1 ∷ 2 ∷ 3 ∷ [])
        ∷ call_push_back 4
        ∷ call_append (5 ∷ 6 ∷ [])
        ∷ call_pop_back
        ∷ call_truncate 2
        ∷ call_refers_to (7 ∷ 8 ∷ []) (9 ∷ [])
        ∷ call_push_back 10
        ∷ [])
      [] empty empty-Holds
      (
        omega arith,
        (
          omega arith,
          (
            omega arith,
            (omega arith, ((omega arith, omega arith), (omega arith, (omega arith, tt)))),
          ),
        ),
      )

-- A block of eight bytes with six of text.
abbrev six_of_eight : Array
six_of_eight = record {
  len = 7;
  capacity_in_bytes = 8;
  content = 97 ∷ 98 ∷ 99 ∷ 100 ∷ 101 ∷ 102 ∷ 0 ∷ 0 ∷ [];
}

six_of_eight-IsValid : IsValid six_of_eight
six_of_eight-IsValid = (omega arith, inr refl)

insert-Holds_example :
    (s : Array) × (insert arena 2 (1 ∷ []) six_of_eight ≡ some s)
    × Holds (97 ∷ 98 ∷ 1 ∷ 99 ∷ 100 ∷ 101 ∷ 102 ∷ []) s
unfolding contents
insert-Holds_example =
    insert-Holds arena-AllocatorLaws 2 (1 ∷ []) six_of_eight six_of_eight-IsValid (omega arith)
      (omega arith) (inr (λ e. absurd (omega (arith, e)))) (inl (omega arith))

-- Two bytes more would take the whole block, and one too many is moved.
insert_overruns_example : insert arena 2 (1 ∷ 2 ∷ []) six_of_eight ≡ none
insert_overruns_example = insert_overruns arena 2 (1 ∷ 2 ∷ []) six_of_eight refl refl (omega arith)

replace-Holds_example :
    (s : Array) × (replace arena 1 2 (1 ∷ 2 ∷ 3 ∷ []) six_of_eight ≡ some s)
    × Holds (97 ∷ 1 ∷ 2 ∷ 3 ∷ 100 ∷ 101 ∷ 102 ∷ []) s
unfolding contents
replace-Holds_example =
    replace-Holds arena-AllocatorLaws 1 2 (1 ∷ 2 ∷ 3 ∷ []) six_of_eight six_of_eight-IsValid
      (omega arith) (omega arith) (inr (omega arith, inr (λ e. absurd (omega (arith, e)))))

-- "abcdef" with "ab" replaced by "x" is "xccde", not "xcdef".
replace_repeats_example :
    (s : Array) × (replace arena 0 2 (120 ∷ []) six_of_eight ≡ some s)
    × Holds (120 ∷ 99 ∷ 99 ∷ 100 ∷ 101 ∷ []) s
unfolding contents
replace_repeats_example =
    replace_repeats arena-AllocatorLaws 0 2 (120 ∷ []) six_of_eight six_of_eight-IsValid
      (omega arith) (omega arith) (omega arith) (omega arith)

abbrev three_of_four : Array
three_of_four = record { len = 4; capacity_in_bytes = 4; content = 97 ∷ 98 ∷ 99 ∷ 0 ∷ [] }

three_of_four-Holds : Holds (97 ∷ 98 ∷ 99 ∷ []) three_of_four
unfolding contents
three_of_four-Holds = record { valid = (omega arith, inr refl); text_is = refl; len_is = refl }

c_str-push_back_example :
    (s : Array) × (push_back arena 100 three_of_four ≡ some s)
    × Holds (97 ∷ 98 ∷ 99 ∷ 100 ∷ []) s
    × (c_str s ≡ none)
c_str-push_back_example =
    c_str-push_back arena-AllocatorLaws 100 (97 ∷ 98 ∷ 99 ∷ []) three_of_four three_of_four-Holds
      (omega arith) refl

push_back_onto_omitted :
    (s : Array) × (push_back arena 100 (omit true three_of_four) ≡ some s)
    × (s.len ≡ 1)
    × (contents s ≡ [])
push_back_onto_omitted =
    push_back_lost arena 100 three_of_four three_of_four-Holds.valid (omega arith)

abbrev three_of_eight : Array
three_of_eight = record {
  len = 4;
  capacity_in_bytes = 8;
  content = 97 ∷ 98 ∷ 99 ∷ 55 ∷ 56 ∷ 0 ∷ 0 ∷ 0 ∷ [];
}

-- A text that grows within its block gets the bytes that lie there, not those that were asked for.
resize_keeps_old_bytes :
    resize arena 5 120 three_of_eight
    ≡ some (record {
      len = 6;
      capacity_in_bytes = 8;
      content = 97 ∷ 98 ∷ 99 ∷ 55 ∷ 56 ∷ 0 ∷ 0 ∷ 0 ∷ [];
    })
unfolding resize reserve
resize_keeps_old_bytes = refl
