-- ===== src/Buffer/Growth.antt =====
-- The growth of the resizable buffer: to its users it is a list of bytes.
use m_fast.Common.{
  ℕ, ◌+◌, ◌*◌, ◌≤◌, ◌<◌, ◌≡◌, refl, sym, ap, subst, ◌∙◌, inl, inr, false, List, [], ◌∷◌, ◌++◌, leb,
  leb→le, Bool-cases, length, length-append, append-nil, append_assoc, arith,
}
use m_fast.Buffer.Put.{
  Ostreambuf, resizable, Put, put, make_room, append_bytes, sputc, sputn, skip, Call, call_sputc,
  call_sputn, call_skip, call, then_call, run_calls, call_bytes,
}

abbrev buf : List ℕ → ℕ → Ostreambuf
buf written size = record { written = written; size = size }

-- The pointers are in order and there is a buffer.
abbrev pub IsBuf : ℕ → ℕ → Type 0
IsBuf length size = (1 ≤ size) × (length ≤ size)

abbrev Holds : List ℕ → Put → Type 0
Holds bytes r = (size : ℕ) × (r ≡ put (buf bytes size)) × IsBuf (length bytes) size

twice_enough :
    (k n l size : ℕ) → k ≤ n → 1 ≤ size → size ≤ l + k → leb (2 * (l + n)) (l + k) ≡ false
twice_enough k n l size h p q = ground arith

fits_below : (n m : ℕ) → leb n m ≡ false → m < n
fits_below n m e = ground arith

make_room-resizable :
    (k n size : ℕ) (w : List ℕ)
    → k ≤ n
    → 1 ≤ size
    → (size' : ℕ) × (make_room 2 resizable k n (buf w size) ≡ put (buf w size'))
      × (length w + k < size')
unfolding make_room
make_room-resizable k n size w h l = elim (Bool-cases (leb size (length w + k))) [
  | inl e ↦
      let p = leb→le size (length w + k) e in
      (2 * (length w + n), rw (e, twice_enough k n (length w) size h l p) refl, omega arith)
  | inr e ↦ (size, rw e refl, fits_below size (length w + k) e)
]

Holds-append_bytes :
    (bytes w : List ℕ) (k n size : ℕ)
    → length bytes ≤ k + 1
    → k ≤ n
    → 1 ≤ size
    → Holds (w ++ bytes) (append_bytes bytes (make_room 2 resizable k n (buf w size)))
unfolding append_bytes
Holds-append_bytes bytes w k n size e h l =
    let (size', p, q) = make_room-resizable k n size w h l in
    (size', ap (append_bytes bytes) p, (omega arith, omega (arith, length-append w bytes)))

abbrev one_call : Call → List ℕ
one_call c = call_bytes (c ∷ [])

Holds-call :
    (c : Call) (w : List ℕ) (size : ℕ)
    → IsBuf (length w) size
    → Holds (w ++ one_call c) (call resizable c (buf w size))
unfolding sputc sputn skip
Holds-call (call_sputc c) w size h =
    Holds-append_bytes (c ∷ []) w 0 1 size (omega arith) (omega arith) h.0
Holds-call (call_sputn bytes) w size h =
    subst
      (λ u.
        Holds (w ++ u)
          (append_bytes bytes (make_room 2 resizable (length bytes) (length bytes) (buf w size))))
      (sym (append-nil bytes))
      (Holds-append_bytes bytes w (length bytes) (length bytes) size (omega arith) (omega arith)
        h.0)
Holds-call (call_skip room) w size h =
    subst
      (λ u.
        Holds (w ++ u)
          (append_bytes room (make_room 2 resizable (length room) (length room) (buf w size))))
      (sym (append-nil room))
      (Holds-append_bytes room w (length room) (length room) size (omega arith) (omega arith) h.0)

call_bytes-cons :
    (c : Call) (calls : List Call) → call_bytes (c ∷ calls) ≡ one_call c ++ call_bytes calls
call_bytes-cons (call_sputc c) calls = refl
call_bytes-cons (call_sputn bytes) calls = ap (λ u. u ++ call_bytes calls) (sym (append-nil bytes))
call_bytes-cons (call_skip room) calls = ap (λ u. u ++ call_bytes calls) (sym (append-nil room))

-- Any calls of `sputc`, `sputn` and `skip` on a resizable buffer, in any order, leave in it the bytes that
-- were there and then the bytes of the calls in order: no call throws, each loop ends after growing the
-- buffer at most once, and the write pointer stays within the buffer. At the start the buffer is not
-- empty and holds at most its size.
pub run_calls-resizable :
    (calls : List Call) (w : List ℕ) (size : ℕ)
    → IsBuf (length w) size
    → (size' : ℕ) × (run_calls resizable calls (record { written = w; size = size })
        ≡ put (record { written = w ++ call_bytes calls; size = size' }))
      × IsBuf (length (w ++ call_bytes calls)) size'
run_calls-resizable [] w size h =
    subst (λ u. Holds u (put (buf w size))) (sym (append-nil w)) (size, refl, h)
run_calls-resizable (c ∷ calls) w size h =
    let (size', e, k) = Holds-call c w size h in
    let (size'', f, k') = run_calls-resizable calls (w ++ one_call c) size' k in
    subst (λ u. Holds u (run_calls resizable (c ∷ calls) (buf w size)))
      (append_assoc w (one_call c) (call_bytes calls)
        ∙ ap (λ u. w ++ u) (sym (call_bytes-cons c calls)))
      (size'', ap (λ r. then_call r (run_calls resizable calls)) e ∙ f, k')
