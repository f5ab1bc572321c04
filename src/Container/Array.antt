-- ===== src/Container/Array.antt =====
-- `value_storage::of_array` (src/mfast/value_storage.h), the memory it points to, and the interface
-- of an allocator (src/mfast/allocator.h).
use m_fast.Common.{
  ℕ, ◌+◌, ◌-◌, ◌*◌, ◌^◌, ◌%◌, ◌≤◌, ◌≡◌, Option, none, some, List, ◌++◌, ◌==◌, leb, if◌then◌else◌,
  length, take, drop,
}

-- `content` holds the bytes of the block that `content_` points to, up to the block's end.
pub record Array : Type 0 where
  pub len : ℕ
  pub capacity_in_bytes : ℕ
  pub content : List ℕ

abbrev pub array_length : Array → ℕ
array_length s = if s.len == 0 then 0 else s.len - 1

abbrev pub set_array_length : ℕ → Array → Array
set_array_length n s = record s { len = (n + 1) % 2 ^ 32 }

-- The bytes from `begin()` to `end()`.
unfoldable pub contents : Array → List ℕ
contents s = take (array_length s) s.content

-- `std::memcpy(block + i, bytes, length bytes)`; `none` where it leaves the block.
unfoldable pub write_at : ℕ → List ℕ → List ℕ → Option (List ℕ)
write_at i bytes block =
    if leb (i + length bytes) (length block)
    then some (take i block ++ (bytes ++ drop (i + length bytes) block))
    else none

-- `std::memmove(block + to, block + from, n)`
unfoldable pub move_within : ℕ → ℕ → ℕ → List ℕ → Option (List ℕ)
move_within to from n block =
    if leb (from + n) (length block) then write_at to (take n (drop from block)) block else none

-- A write into the block of an array.
unfoldable pub write_content : ℕ → List ℕ → Array → Option Array
write_content i bytes s = elim (write_at i bytes s.content) [
  | none ↦ none
  | some b ↦ some (record s { content = b })
]

unfoldable pub move_content : ℕ → ℕ → ℕ → Array → Option Array
move_content to from n s = elim (move_within to from n s.content) [
  | none ↦ none
  | some b ↦ some (record s { content = b })
]

abbrev pub and_then : Option Array → (Array → Option Array) → Option Array
and_then r f = elim r [ none ↦ none | some s ↦ f s ]

-- An allocator: the block that `reallocate` leaves for a block, the bytes of it to keep and the bytes
-- asked for, and the size that it returns. The system always grants the memory.
pub record Allocator : Type 0 where
  pub new_size : ℕ → ℕ
  pub reallocate : List ℕ → ℕ → ℕ → List ℕ

-- What the containers rely on.
pub record AllocatorLaws (a : Allocator) : Type 0 where
  pub enough : (n : ℕ) → n ≤ a.new_size n
  pub at_most : (n : ℕ) → a.new_size n ≤ 2 * n + 64
  pub length_reallocate :
      (old : List ℕ) (k n : ℕ)
      → k ≤ length old
      → k ≤ n
      → length (a.reallocate old k n) ≡ a.new_size n
  pub take_reallocate :
      (old : List ℕ) (k n : ℕ) → k ≤ length old → k ≤ n → take k (a.reallocate old k n) ≡ take k old
