-- ===== src/Buffer/Put.antt =====
-- `sputc`, `sputn` and `skip` of `fast_ostreambuf` (src/mfast/coder/encoder/fast_ostreambuf.h), and
-- `overflow` of it and of `resizable_fast_ostreambuf`
-- (src/mfast/coder/encoder/resizable_fast_ostreambuf.h).
use m_fast.Common.{ℕ, zero, suc, ◌+◌, ◌*◌, List, [], ◌∷◌, ◌++◌, leb, if◌then◌else◌, length}

-- The bytes from `pbase_` to `pptr_`, and `epptr_ - pbase_`.
pub record Ostreambuf : Type 0 where
  pub written : List ℕ
  pub size : ℕ

-- `fast_ostreambuf` or `resizable_fast_ostreambuf`
pub data Kind : Type 0 where
  fixed resizable : Kind

-- `buffer_overflow_error`; `spins` is a loop that has used up its fuel.
pub data Put : Type 0 where
  put : Ostreambuf → Put
  overflow_error spins : Put

-- `while (pptr_ + k >= epptr_) overflow(n);`. The buffer of a `resizable_fast_ostreambuf` becomes twice
-- as long as what is needed.
unfoldable pub make_room : ℕ → Kind → ℕ → ℕ → Ostreambuf → Put
make_room zero kind k n b = spins
make_room (suc fuel) fixed k n b =
    if leb b.size (length b.written + k) then overflow_error else put b
make_room (suc fuel) resizable k n b =
    let rest = make_room fuel resizable k n (record b { size = 2 * (length b.written + n) }) in
    if leb b.size (length b.written + k) then rest else put b

-- The bytes copied to `pptr_`.
unfoldable pub append_bytes : List ℕ → Put → Put
append_bytes bytes (put b) = put (record b { written = b.written ++ bytes })
append_bytes bytes overflow_error = overflow_error
append_bytes bytes spins = spins

unfoldable pub sputc : Kind → ℕ → Ostreambuf → Put
sputc kind c b = append_bytes (c ∷ []) (make_room 2 kind 0 1 b)

unfoldable pub sputn : Kind → List ℕ → Ostreambuf → Put
sputn kind bytes b = append_bytes bytes (make_room 2 kind (length bytes) (length bytes) b)

-- `skip(n)` over the bytes `room` that the buffer holds there.
unfoldable pub skip : Kind → List ℕ → Ostreambuf → Put
skip kind room b = append_bytes room (make_room 2 kind (length room) (length room) b)

-- The calls that the coders make, one after another, up to the first exception.
pub data Call : Type 0 where
  call_sputc : ℕ → Call
  call_sputn call_skip : List ℕ → Call

abbrev pub call : Kind → Call → Ostreambuf → Put
call kind (call_sputc c) b = sputc kind c b
call kind (call_sputn bytes) b = sputn kind bytes b
call kind (call_skip room) b = skip kind room b

abbrev pub then_call : Put → (Ostreambuf → Put) → Put
then_call (put b) f = f b
then_call overflow_error f = overflow_error
then_call spins f = spins

abbrev pub run_calls : Kind → List Call → Ostreambuf → Put
run_calls kind [] b = put b
run_calls kind (c ∷ calls) b = then_call (call kind c b) (run_calls kind calls)

-- The bytes of the calls, in order.
abbrev pub call_bytes : List Call → List ℕ
call_bytes [] = []
call_bytes (call_sputc c ∷ calls) = c ∷ call_bytes calls
call_bytes (call_sputn bytes ∷ calls) = bytes ++ call_bytes calls
call_bytes (call_skip room ∷ calls) = room ++ call_bytes calls
