-- ===== src/Message/Interleaving.antt =====
-- The presence map of a message, whose bits are set while bytes are written behind it.
use m_fast.Common.{
  ℕ, zero, suc, ◌+◌, ◌≤◌, ◌≡◌, refl, sym, ap, ◌∙◌, subst, inl, inr, Bool, true, false, Option, none,
  some, List, [], ◌∷◌, ◌++◌, ◌==◌, leb, leb→le, append_assoc, length, length-append, take, drop,
  Bool-cases, Option-cases, if-true, if-both, arith,
}
use mathlib.Core.Option
use mathlib.Core.Option.{some-injective, none-ne-some}
use m_fast.Buffer.Ostreambuf.{write_bytes_at, copy_at}
use m_fast.PresenceMap.Encoder.{
  EncoderMap, set_next_bit, flush_full, next_mask, memory_bytes, start_word, put_bit,
}
use m_fast.PresenceMap.EncoderRun.{set_bits, then_bits}

module _ {ℓ} {A : Type ℓ} where
  take-append_within : (n : ℕ) (w x : List A) → n ≤ length w → take n (w ++ x) ≡ take n w
  take-append_within zero w x h = refl
  take-append_within (suc n) [] x h = absurd (omega (arith, h))
  take-append_within (suc n) (b ∷ w) x h = ap (◌∷◌ b) (take-append_within n w x (omega (arith, h)))

  drop-append_within : (n : ℕ) (w x : List A) → n ≤ length w → drop n (w ++ x) ≡ drop n w ++ x
  drop-append_within zero w x h = refl
  drop-append_within (suc n) [] x h = absurd (omega (arith, h))
  drop-append_within (suc n) (b ∷ w) x h = drop-append_within n w x (omega (arith, h))

copy_at-append :
    (bytes : List ℕ) (o : ℕ) (w x : List ℕ)
    → o + length bytes ≤ length w
    → copy_at bytes o (w ++ x) ≡ copy_at bytes o w ++ x
copy_at-append bytes o w x h =
    let end = o + length bytes in
    ap (λ l. l ++ (bytes ++ drop end (w ++ x))) (take-append_within o w x (omega (arith, h)))
    ∙ ap (λ l. take o w ++ (bytes ++ l)) (drop-append_within end w x h)
    ∙ ap (λ l. take o w ++ l) (sym (append_assoc bytes (drop end w) x))
    ∙ sym (append_assoc (take o w) (bytes ++ drop end w) x)

-- Bytes behind the stream stay behind it.
write_bytes_at-append :
    (bytes : List ℕ) (o : ℕ) (w w' x : List ℕ)
    → write_bytes_at bytes o false w ≡ some w'
    → write_bytes_at bytes o false (w ++ x) ≡ some (w' ++ x)
unfolding write_bytes_at
write_bytes_at-append bytes o w w' x e = elim (Bool-cases (leb (o + length bytes) (length w))) [
  | inr f ↦ absurd (ground (arith, e, f))
  | inl t ↦
      let h = leb→le _ _ t in
      let within : leb (o + length bytes) (length (w ++ x)) ≡ true =
        ground (arith, h, length-append w x) in
      if-true _ _ within
      ∙ ap some (
          copy_at-append bytes o w x h
          ∙ ap (λ l. l ++ x) (some-injective _ _ (sym (if-true _ _ t) ∙ e)))
]

abbrev pub MapAndStream : Type 0
MapAndStream = EncoderMap × List ℕ

-- `r` ends as `o` does, with `x` behind the stream.
abbrev Behind : List ℕ → Option MapAndStream → Option MapAndStream → Type 0
Behind x none r = Unit
Behind x (some (m, w)) r = r ≡ some (m, w ++ x)

written-Behind :
    (x : List ℕ) (m : EncoderMap) (o r : Option (List ℕ))
    → ((w : List ℕ) → o ≡ some w → r ≡ some (w ++ x))
    → Behind x (Option.map (λ w. (m, w)) o) (Option.map (λ w. (m, w)) r)
written-Behind x m none r h = tt
written-Behind x m (some w) r h = ap (λ q. Option.map (λ v. (m, v)) q) (h w refl)

map-Behind :
    (x : List ℕ) (g : EncoderMap → EncoderMap) (o r : Option MapAndStream)
    → Behind x o r
    → Behind x (Option.map (λ q. (g q.0, q.1)) o) (Option.map (λ q. (g q.0, q.1)) r)
map-Behind x g none r h = tt
map-Behind x g (some (m, w)) r h = ap (λ q. Option.map (λ v. (g v.0, v.1)) q) h

then_bits-Behind :
    (x : List ℕ) (o r : Option MapAndStream) (f : MapAndStream → Option MapAndStream)
    → ((m : EncoderMap) (w : List ℕ) → Behind x (f (m, w)) (f (m, w ++ x)))
    → Behind x o r
    → Behind x (then_bits o f) (then_bits r f)
then_bits-Behind x none r f h e = tt
then_bits-Behind x (some (m, w)) r f h e =
    subst (λ q. Behind x (f (m, w)) (then_bits q f)) (sym e) (h m w)

flush_full-Behind :
    (m : EncoderMap) (w x : List ℕ) → Behind x (flush_full m w) (flush_full m (w ++ x))
unfolding flush_full
flush_full-Behind m w x =
    if-both (Behind x) (m.mask == 0) (m.mask == 0) _ _ _ _ refl
      (λ _.
        written-Behind x (start_word m) _ _
          (λ w' e. write_bytes_at-append (memory_bytes 8 m.value) m.offset w w' x e))
      (λ _. refl)

set_bits-Behind :
    (bs : List Bool) (m : EncoderMap) (w x : List ℕ)
    → Behind x (set_bits bs (m, w)) (set_bits bs (m, w ++ x))
unfolding set_next_bit
set_bits-Behind [] m w x = refl
set_bits-Behind (b ∷ bs) m w x =
    then_bits-Behind x (set_next_bit b m w) (set_next_bit b m (w ++ x)) (set_bits bs)
      (λ m' w'. set_bits-Behind bs m' w' x)
      (map-Behind x (put_bit b) _ _ (flush_full-Behind (next_mask m) w x))

pub set_bits_behind :
    (bs : List Bool) (m m' : EncoderMap) (w w' x : List ℕ)
    → set_bits bs (m, w) ≡ some (m', w')
    → set_bits bs (m, w ++ x) ≡ some (m', w' ++ x)
set_bits_behind bs m m' w w' x e =
    subst (λ o. Behind x o (set_bits bs (m, w ++ x))) e (set_bits-Behind bs m w x)

-- Bits set in two parts.
pub set_bits-append :
    (bs cs : List Bool) (s : MapAndStream)
    → set_bits (bs ++ cs) s ≡ then_bits (set_bits bs s) (set_bits cs)
set_bits-append [] cs s = refl
set_bits-append (b ∷ bs) cs s = elim (Option-cases (set_next_bit b s.0 s.1)) [
  | inl e ↦ rw e refl
  | inr (r, e) ↦ rw e (set_bits-append bs cs r)
]

pub set_bits_parts :
    (bs cs : List Bool) (s t : MapAndStream)
    → set_bits (bs ++ cs) s ≡ some t
    → (r : MapAndStream) × (set_bits bs s ≡ some r) × (set_bits cs r ≡ some t)
set_bits_parts bs cs s t e =
    let parts = sym (set_bits-append bs cs s) ∙ e in
    elim (Option-cases (set_bits bs s)) [
      | inl n ↦ absurd (none-ne-some _ (sym (ap (λ o. then_bits o (set_bits cs)) n) ∙ parts))
      | inr (r, j) ↦ (r, j, sym (ap (λ o. then_bits o (set_bits cs)) j) ∙ parts)
    ]
