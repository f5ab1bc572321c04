-- ===== src/Wire/Safety.antt =====
-- What `fast_istream::decode` does with bytes that no encoder writes.
use m_fast.Common.{
  ℕ, ◌<◌, false, ◌≤◌, ◌≡◌, refl, ap, Bool, Option, none, some, List, [], ◌∷◌, ◌++◌, length, leb,
  if◌then◌else◌, if-elim, arith,
}
use m_fast.Wire.Outcome.{buffer_underflow, fault, Result, ok, err, bind_result, return}
use m_fast.Wire.IntType.{IntType, int16, int32, uint32, int64, uint64, InRange}
use m_fast.Wire.Ostream.{encode_int}
use m_fast.Wire.IntRoundTrip.{decode_int-encode_int}
use m_fast.Wire.Istream.{
  Temp, sbumpc, has_stop, first_temp, shift_left, or_group, decode_groups, finish,
  to_nullable_value, decode_int, decode_bytes, gbump,
}

-- At least one byte is taken from the front of the stream, or the stream ends too early; nothing is read
-- behind its end.
abbrev pub Takes {ℓ} : {A : Type ℓ} → List ℕ → Result A → Type 0
Takes s (ok a rest) = (taken : List ℕ) × (s ≡ taken ++ rest) × (1 ≤ length taken)
Takes s (err e) = e ≡ buffer_underflow

Takes-cons {ℓ} : {A : Type ℓ} (c : ℕ) (s : List ℕ) (r : Result A) → Takes s r → Takes (c ∷ s) r
Takes-cons c s (ok a rest) (taken, e, l) = (c ∷ taken, ap (◌∷◌ c) e, omega arith)
Takes-cons c s (err e) h = h

Takes-one {ℓ} : {A : Type ℓ} (c : ℕ) (s : List ℕ) (a : A) → Takes (c ∷ s) (ok a s)
Takes-one c s a = (c ∷ [], refl, omega arith)

Takes-decode_groups : (ty : IntType) (t : Temp) (s : List ℕ) → Takes s (decode_groups ty t s)
unfolding decode_groups
Takes-decode_groups ty t [] = refl
Takes-decode_groups ty t (c ∷ rest) =
    let t' = or_group (shift_left ty t) c in
    if-elim (Takes (c ∷ rest)) (has_stop c) _ _ (λ _. Takes-one c rest t')
      (λ _. Takes-cons c rest _ (Takes-decode_groups ty t' rest))

-- A value that comes out is of the type.
abbrev pub ValueIn : IntType → Option ℕ → Type 0
ValueIn ty none = Unit
ValueIn ty (some v) = InRange ty v

finish-ValueIn :
    (ty : IntType) (nullable : Bool) (c : ℕ) (t : Temp) → ValueIn ty (finish ty nullable c t)
unfolding finish to_nullable_value
finish-ValueIn int16 nullable c t = ground arith
finish-ValueIn int32 nullable c t = ground arith
finish-ValueIn uint32 nullable c t = ground arith
finish-ValueIn int64 nullable c t = ground arith
finish-ValueIn uint64 nullable c t = ground arith

abbrev pub AnyValueIn : IntType → Result (Option ℕ) → Type 0
AnyValueIn ty (ok r rest) = ValueIn ty r
AnyValueIn ty (err e) = Unit

finished :
    (ty : IntType) (nullable : Bool) (c : ℕ) (s : List ℕ) (r : Result Temp)
    → Takes s r
    → Takes s (bind_result r (λ t. return (finish ty nullable c t)))
      × AnyValueIn ty (bind_result r (λ t. return (finish ty nullable c t)))
finished ty nullable c s (ok t rest) h = (h, finish-ValueIn ty nullable c t)
finished ty nullable c s (err e) h = (h, tt)

first_taken :
    (ty : IntType) (c : ℕ) (rest : List ℕ)
    → Takes
        (c ∷ rest)
        ((if has_stop c then return (first_temp ty c) else decode_groups ty (first_temp ty c)) rest)
first_taken ty c rest =
    if-elim (λ (read : List ℕ → Result Temp). Takes (c ∷ rest) (read rest)) (has_stop c) _ _
      (λ _. Takes-one c rest (first_temp ty c))
      (λ _. Takes-cons c rest _ (Takes-decode_groups ty (first_temp ty c) rest))

-- On any bytes, `decode` of an integer takes at least one byte from the front of the stream and gives a
-- null or a value of the type, or it throws "Buffer underflow"; it reads nothing behind the end.
pub decode_int-Takes :
    (ty : IntType) (nullable : Bool) (s : List ℕ)
    → Takes s (decode_int ty nullable s) × AnyValueIn ty (decode_int ty nullable s)
unfolding decode_int sbumpc
decode_int-Takes ty nullable [] = (refl, tt)
decode_int-Takes ty nullable (c ∷ rest) =
    finished ty nullable c (c ∷ rest) _ (first_taken ty c rest)

-- A unicode string or byte vector whose length, a uint32 as the encoder writes it, is more than the
-- bytes that are left is not refused: its end lies behind the end of the stream.
pub decode_bytes_overrun :
    (nullable : Bool) (n : ℕ) (s : List ℕ)
    → InRange uint32 n
    → length s < n
    → decode_bytes nullable (encode_int uint32 n false nullable ++ s) ≡ err fault
unfolding decode_bytes gbump
decode_bytes_overrun nullable n s r h =
    let beyond : leb n (length s) ≡ false = ground (arith, h) in
    rw ((decode_int-encode_int uint32 n nullable s r tt).0) (rw beyond refl)
