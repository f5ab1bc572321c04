-- ===== src/Container/Allocators.antt =====
-- `malloc_allocator` (src/mfast/malloc_allocator.cpp), `reallocate` of `arena_allocator`
-- (src/mfast/arena_allocator.cpp) and `align` (src/mfast/allocator_utils.h). What `realloc` and the
-- arena's `allocate` leave in a new block are parameters; neither runs out of memory.
use m_fast.Common.{
  ℕ, ◌+◌, ◌-◌, ◌*◌, ◌/◌, ◌≤◌, ◌≡◌, ◌∙◌, List, ◌++◌, ltb, if◌then◌else◌, length, length-append, take,
  drop, arith,
}
use m_fast.Text.Mismatch.{length-drop}
use m_fast.Container.Array.{Allocator, AllocatorLaws}
use m_fast.Container.Blocks.{length-take, take_front}

-- `(n + y) & ~y` for `y = x - 1`, where `x` is a power of 2.
abbrev pub align : ℕ → ℕ → ℕ
align n x = (n + (x - 1)) / x * x

abbrev pub max : ℕ → ℕ → ℕ
max a b = if ltb a b then b else a

-- `std::max<std::size_t>(2 * new_size, 64) & (~63)`
abbrev pub malloc_size : ℕ → ℕ
malloc_size n = max (2 * n) 64 / 64 * 64

abbrev pub arena_size : ℕ → ℕ
arena_size n = align (n * 2) 64

abbrev pub malloc_allocator : (List ℕ → ℕ → List ℕ) → Allocator
malloc_allocator realloc = record {
  new_size = malloc_size;
  reallocate = λ old k n. realloc old (malloc_size n);
}

-- `std::memcpy(pointer, old_pointer, old_size)` into a new block
abbrev pub arena_reallocator : (ℕ → List ℕ) → Allocator
arena_reallocator fresh = record {
  new_size = arena_size;
  reallocate = λ old k n. take k old ++ drop k (fresh (arena_size n));
}

-- What C says of `realloc`: the block has the size asked for, and keeps what fits.
pub record Realloc (realloc : List ℕ → ℕ → List ℕ) : Type 0 where
  pub length_realloc : (old : List ℕ) (n : ℕ) → length (realloc old n) ≡ n
  pub take_realloc :
      (old : List ℕ) (k n : ℕ) → k ≤ length old → k ≤ n → take k (realloc old n) ≡ take k old

malloc_enough : (n : ℕ) → n ≤ malloc_size n
malloc_enough n = ground arith

arena_enough : (n : ℕ) → n ≤ arena_size n
arena_enough n = omega arith

-- Both allocators do what the containers rely on: the size is never below the one asked for and at
-- most 64 above its double, and the bytes to keep are kept.
pub allocators-AllocatorLaws :
    (realloc : List ℕ → ℕ → List ℕ) (fresh : ℕ → List ℕ)
    → Realloc realloc
    → ((n : ℕ) → length (fresh n) ≡ n)
    → AllocatorLaws (malloc_allocator realloc) × AllocatorLaws (arena_reallocator fresh)
allocators-AllocatorLaws realloc fresh r f = (
  record {
    enough = malloc_enough;
    at_most = λ n. ground arith;
    length_reallocate = λ old k n h h'. r.length_realloc old (malloc_size n);
    take_reallocate =
        λ old k n h h'. r.take_realloc old k (malloc_size n) h (omega (arith, h', malloc_enough n));
  },
  record {
    enough = arena_enough;
    at_most = λ n. omega arith;
    length_reallocate = λ old k n h h'.
        length-append (take k old) (drop k (fresh (arena_size n)))
        ∙ omega (
          arith,
          length-take k old h,
          length-drop k (fresh (arena_size n)),
          f (arena_size n),
          h',
          arena_enough n,
        );
    take_reallocate = λ old k n h h'. take_front k (take k old) _ (length-take k old h);
  },
)
