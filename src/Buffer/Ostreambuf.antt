-- ===== src/Buffer/Ostreambuf.antt =====
-- `fast_ostreambuf` (src/mfast/coder/encoder/fast_ostreambuf.h and .cpp), and `resizable_fast_ostreambuf`
-- (src/mfast/coder/encoder/resizable_fast_ostreambuf.h).
use m_fast.Common.{
  ℕ, zero, suc, ◌+◌, Bool, Option, none, some, List, [], ◌∷◌, ◌++◌, ◌==◌, leb, if◌then◌else◌,
  length, take, drop,
}
use m_fast.Wire.Istream.{has_stop}
use m_fast.Wire.Ostream.{or_stop}

-- The byte `pbase_[i]`; every use is below `pptr_`.
abbrev pub byte_at : ℕ → List ℕ → ℕ
byte_at i [] = 0
byte_at zero (b ∷ bs) = b
byte_at (suc i) (b ∷ bs) = byte_at i bs

-- `for (; index > 0 && pbase_[index] == 0; --index);`
unfoldable pub skip_zeros : ℕ → List ℕ → ℕ
skip_zeros zero w = 0
skip_zeros (suc i) w = if byte_at (suc i) w == 0 then skip_zeros i w else suc i

-- The stop bit put on the byte at `i`, and the bytes from `end` on moved up to it.
abbrev pub move_up : ℕ → ℕ → List ℕ → List ℕ
move_up end i w = take i w ++ or_stop (byte_at i w) ∷ drop end w

-- From `if (pbase_[index] & '\x80')` on.
abbrev pub mark : ℕ → ℕ → List ℕ → List ℕ
mark end i w = move_up end (if has_stop (byte_at i w) then suc i else i) w

-- From the first `--index` on. At the index 0 it goes below `pbase_`: `none`.
unfoldable pub cut_back : ℕ → ℕ → List ℕ → Option (List ℕ)
cut_back end zero w = none
cut_back end (suc index) w = some (mark end (skip_zeros index w) w)

-- The branch `if (shrink)`; `end` is `offset + n`.
unfoldable pub shrink_at : ℕ → List ℕ → Option (List ℕ)
shrink_at zero w = none
shrink_at (suc index) w = if byte_at index w == 0x80 then cut_back (suc index) index w else some w

-- `std::copy(bytes, data + n, pbase_ + offset)`
abbrev pub copy_at : List ℕ → ℕ → List ℕ → List ℕ
copy_at bytes offset w = take offset w ++ (bytes ++ drop (offset + length bytes) w)

-- `write_bytes_at` on the bytes from `pbase_` to `pptr_`. `none` is a failed assertion or a read below
-- `pbase_`.
unfoldable pub write_bytes_at : List ℕ → ℕ → Bool → List ℕ → Option (List ℕ)
write_bytes_at bytes offset shrink w =
    let end = offset + length bytes in
    let w' = copy_at bytes offset w in
    if leb end (length w) then (if shrink then shrink_at end w' else some w') else none
