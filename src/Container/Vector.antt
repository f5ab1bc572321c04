-- ===== src/Container/Vector.antt =====
-- The operations of `vector_mref_base` (src/mfast/vector_ref.h) for elements of one byte, and
-- `c_str` of `string_cref_base` (src/mfast/string_ref.h). A source range is a list of its own, never
-- a part of the vector. `none` is an access outside a block of memory.
use m_fast.Common.{
  ℕ, Bool, zero, suc, ◌+◌, ◌-◌, ◌^◌, ◌%◌, Option, some, List, [], ◌∷◌, ltb, leb, ◌==◌,
  if◌then◌else◌, length, take, ◌++◌,
}
use m_fast.Container.Array.{
  Array, Allocator, array_length, set_array_length, write_content, move_content, and_then,
}

abbrev pub capacity : Array → ℕ
capacity s = s.capacity_in_bytes

-- The block and its size after `reallocate`; the size is kept in 31 bits.
abbrev pub reallocated : Allocator → List ℕ → ℕ → ℕ → Array → Array
reallocated a old k n s = record s {
  content = a.reallocate old k n;
  capacity_in_bytes = a.new_size n % 2 ^ 31;
}

abbrev pub min : ℕ → ℕ → ℕ
min a b = if ltb b a then b else a

-- The branch `capacity() == 0` of `reserve`: the old bytes belong to somebody else.
unfoldable pub take_over : Allocator → ℕ → Array → Option Array
take_over a n s =
    let fresh = reallocated a [] 0 (n + 1) s in
    if ltb 1 s.len
    then (if ltb 0 n
        then write_content 0 (take (min (array_length s) n) s.content) fresh
        else some fresh)
    else some (record fresh { len = 1 })

unfoldable pub reserve : Allocator → ℕ → Array → Option Array
reserve a n s =
    if ltb n (capacity s)
    then some s
    else if ltb 0 (capacity s)
    then some (reallocated a s.content (capacity s) (n + 1) s)
    else take_over a n s

unfoldable pub repeat : ℕ → ℕ → List ℕ
repeat zero c = []
repeat (suc n) c = c ∷ repeat n c

-- `std::memset(end(), c, bytes_to_set)`, if there are bytes to set
unfoldable pub fill_from_end : ℕ → ℕ → Array → Option Array
fill_from_end n c s =
    if ltb (array_length s) n
    then write_content (array_length s) (repeat (n - array_length s) c) s
    else some s

unfoldable pub resize : Allocator → ℕ → ℕ → Array → Option Array
resize a n c s =
    and_then
      (if ltb (capacity s) (n + 1) then and_then (reserve a n s) (fill_from_end n c) else some s)
      λ s'. some (set_array_length n s')

abbrev pub add_length : ℕ → Array → Array
add_length n s = record s { len = (s.len + n) % 2 ^ 32 }

-- `memmove`, if there is something behind the position
unfoldable pub move_tail : ℕ → ℕ → Array → Option Array
move_tail offset n s =
    if ltb offset (array_length s)
    then move_content (offset + n) offset (array_length s + 1 - offset) s
    else some s

unfoldable pub shift : Allocator → ℕ → ℕ → Array → Option Array
shift a offset n s =
    and_then
      (and_then
        (if ltb (capacity s) (array_length s + n) then reserve a (array_length s + n) s else some s)
        (move_tail offset n))
      λ s'. some (add_length n s')

-- `insert(position, first, last)` for random access iterators
unfoldable pub insert : Allocator → ℕ → List ℕ → Array → Option Array
insert a offset bytes s = and_then (shift a offset (length bytes) s) (write_content offset bytes)

unfoldable pub push_back : Allocator → ℕ → Array → Option Array
push_back a c s = insert a (array_length s) (c ∷ []) s

unfoldable pub pop_back : Array → Array
pop_back s = if array_length s == 0 then s else record s { len = s.len - 1 }

-- `assign(first, last)` for random access iterators
unfoldable pub assign : Allocator → List ℕ → Array → Option Array
assign a bytes s =
    and_then (and_then (reserve a (length bytes) s) (write_content 0 bytes))
      λ s'. some (set_array_length (length bytes) s')

-- `refers_to(addr, n)`; `around` is what follows the range in the block of `addr`.
unfoldable pub refers_to : List ℕ → List ℕ → Array → Array
refers_to bytes around s = record {
  len = (length bytes + 1) % 2 ^ 32;
  capacity_in_bytes = 0;
  content = bytes ++ around;
}

-- The branch of `replace` with something left behind the removed part.
unfoldable pub replace_inside : Allocator → ℕ → ℕ → ℕ → Array → Option Array
replace_inside a pos count count2 s =
    if ltb count count2
    then shift a pos (count2 - count) s
    else and_then (move_content (pos + count2) (pos + count) (count - count2) s)
        (resize a (array_length s - (count - count2)) 0)

unfoldable pub replace : Allocator → ℕ → ℕ → List ℕ → Array → Option Array
replace a pos count bytes s =
    and_then
      (if leb (array_length s) (pos + count)
        then resize a (pos + length bytes) 0 s
        else replace_inside a pos count (length bytes) s)
      (write_content pos bytes)

-- `omit()` of `make_field_mref_base`; `optional` is the instruction's.
unfoldable pub omit : Bool → Array → Array
omit optional s = if optional then record s { len = 0 } else s

-- `c_str()`: the NUL is written behind the text of a vector that owns its block.
unfoldable pub c_str : Array → Option Array
c_str s = if ltb 0 (capacity s) then write_content (array_length s) (0 ∷ []) s else some s
