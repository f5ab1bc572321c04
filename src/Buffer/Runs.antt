-- ===== src/Buffer/Runs.antt =====
-- Runs of the output buffer.
use m_fast.Common.{ℕ, ◌≡◌, refl, inl, true, none, some, List, [], ◌∷◌, ◌++◌, arith}
use m_fast.Wire.Ostream.{set_stop}
use m_fast.Buffer.Ostreambuf.{write_bytes_at, shrink_at, cut_back, skip_zeros}
use m_fast.Buffer.Shrink.{zeros}
use m_fast.Buffer.Put.{
  fixed, resizable, put, overflow_error, sputn, make_room, append_bytes, call_sputc, call_sputn,
  call_skip, run_calls,
}
use m_fast.Buffer.Growth.{IsBuf, run_calls-resizable}
use m_fast.Buffer.Stripped.{write_bytes_at-set_stop}

abbrev nested_room : List ℕ
nested_room = 0 ∷ 0 ∷ 0 ∷ 0 ∷ []

write_bytes_at-set_stop_example :
    write_bytes_at
      (set_stop ((0x20 ∷ []) ++ (0x08 ∷ zeros 2)))
      1
      true
      (0x81 ∷ nested_room ++ (0x83 ∷ []))
    ≡ some (0x81 ∷ set_stop ((0x20 ∷ []) ++ (0x08 ∷ [])) ++ (0x83 ∷ []))
unfolding set_stop
write_bytes_at-set_stop_example =
    write_bytes_at-set_stop (0x81 ∷ []) nested_room (0x83 ∷ []) (0x20 ∷ []) 0x08 2
      (inl (λ e. absurd (omega arith))) (omega arith) refl

-- A map of one group that is 0 at the start of the buffer: the byte before the buffer is read.
write_bytes_at_below : write_bytes_at (0x80 ∷ []) 0 true (0 ∷ 0x83 ∷ []) ≡ none
unfolding write_bytes_at shrink_at cut_back
write_bytes_at_below = refl

-- A map of zeros behind a byte without a stop bit: that byte is taken for a part of the map.
write_bytes_at_behind_data :
    write_bytes_at (0x80 ∷ []) 2 true (0x81 ∷ 0x41 ∷ 0 ∷ 0x83 ∷ []) ≡ some (0x81 ∷ 0xC1 ∷ 0x83 ∷ [])
unfolding write_bytes_at shrink_at cut_back skip_zeros
write_bytes_at_behind_data = refl

run_calls-resizable_example :
    (size : ℕ) × (run_calls resizable
        (call_skip (0 ∷ 0 ∷ []) ∷ call_sputn (1 ∷ 2 ∷ 3 ∷ []) ∷ call_sputc 4 ∷ [])
        (record { written = 9 ∷ []; size = 2 })
      ≡ put (record { written = 9 ∷ 0 ∷ 0 ∷ 1 ∷ 2 ∷ 3 ∷ 4 ∷ []; size = size }))
    × IsBuf 7 size
run_calls-resizable_example =
    run_calls-resizable (call_skip (0 ∷ 0 ∷ []) ∷ call_sputn (1 ∷ 2 ∷ 3 ∷ []) ∷ call_sputc 4 ∷ [])
      (9 ∷ []) 2 (omega arith, omega arith)

-- The fixed buffer refuses bytes that would just fit.
sputn_full : sputn fixed (1 ∷ 2 ∷ []) (record { written = []; size = 2 }) ≡ overflow_error
unfolding sputn make_room append_bytes
sputn_full = refl
