-- ===== src/PresenceMap/EncoderFlush.antt =====
-- The step of `set_next_bit` that writes a full word, and the run of all steps.
use m_fast.Common.{
  ℕ, zero, suc, ◌+◌, ◌-◌, ◌%◌, ◌^◌, ◌≤◌, ◌<◌, ◌≡◌, refl, sym, ap, subst, ◌∙◌, ◌⊎◌, inl, inr, Bool,
  false, some, List, [], ◌∷◌, ◌++◌, length, length-append, append-nil, append_assoc, arith,
}
use m_fast.Buffer.Ostreambuf.{write_bytes_at}
use m_fast.Buffer.WriteBytes.{write_bytes_at_room}
use m_fast.PresenceMap.Bits.{bits, group_bits}
use m_fast.PresenceMap.Encoder.{set_next_bit}
use m_fast.PresenceMap.EncoderSteps.{encoder, bit_value}
use m_fast.PresenceMap.EncoderBits.{group_bits-append}
use m_fast.PresenceMap.SetNextBit.{set_next_bit_next_word}
use m_fast.PresenceMap.EncoderRun.{
  then_bits, set_bits, bytes_at, state_at, Fits, Reaches, groups_are_bytes, All-append, value_below,
  full_group, step_in_byte, step_next_byte,
}

-- A list cut behind its first `n` elements.
split_at :
    (n : ℕ) (room : List ℕ)
    → n ≤ length room
    → (a : List ℕ) × (b : List ℕ) × (room ≡ a ++ b) × (length a ≡ n)
split_at zero room h = ([], room, refl, refl)
split_at (suc n) [] h = absurd (omega arith)
split_at (suc n) (x ∷ room) h =
    let (a, b, e, l) = split_at n room (omega arith) in (x ∷ a, b, ap (◌∷◌ x) e, ap suc l)

-- The eight bytes of a word go into the first eight bytes of the room.
open_room :
    (pre post done a b : List ℕ)
    → bytes_at pre post done (a ++ b) ≡ (pre ++ done) ++ (a ++ (b ++ post))
open_room pre post done a b =
    ap (λ r. pre ++ (done ++ r)) (append_assoc a b post)
    ∙ sym (append_assoc pre done (a ++ (b ++ post)))

pub write_word :
    (pre post done a b word : List ℕ)
    → length word ≡ length a
    → write_bytes_at word (length pre + length done) false (bytes_at pre post done (a ++ b))
      ≡ some (bytes_at pre post (done ++ word) b)
write_word pre post done a b word e =
    (λ i.
      write_bytes_at word (sym (length-append pre done) i) false (open_room pre post done a b i))
    ∙ write_bytes_at_room (pre ++ done) a (b ++ post) word false e
    ∙ ap some (
        append_assoc pre done (word ++ (b ++ post))
        ∙ ap (λ r. pre ++ r) (sym (append_assoc done word (b ++ post))))

word_end :
    (pre done word : List ℕ)
    → length word ≡ 8
    → length pre + length done + 8 ≡ length pre + length (done ++ word)
word_end pre done word e = omega (arith, length-append done word)

step_next_word :
    (pre post done gs room : List ℕ) (p r x slack n : ℕ) (prior : List Bool) (v : Bool)
    → length gs ≡ 7
    → p < 128
    → Fits slack (suc n) done gs room p 0 r prior
    → Reaches pre post slack n
        (prior ++ (v ∷ []))
        (set_next_bit v (encoder gs p 0 (length pre + length done) x) (bytes_at pre post done room))
step_next_word pre post done gs room p r x slack n prior v lt hp (e, l, b, hd, hg, lg, c, q) =
    let (a, room', f, la) = split_at 8 room (omega arith) in
    let word = gs ++ (p ∷ []) in
    let lw = length-append gs (p ∷ []) in
    (
      done ++ word,
      [],
      room',
      bit_value v,
      6,
      1,
      (x + 2 ^ 64 - 8) % 2 ^ 64,
      set_next_bit_next_word v gs p (length pre + length done) x (bytes_at pre post done room)
            (bytes_at pre post (done ++ word) room') lt (groups_are_bytes gs hg) (omega arith)
            (ap
                (λ u.
                  write_bytes_at word (length pre + length done) false (bytes_at pre post done u))
                f
              ∙ write_word pre post done a room' word (omega (arith, lw)))
          ∙ (λ i. some (
            encoder [] (bit_value v) 6 (word_end pre done word (omega (arith, lw)) i)
                ((x + 2 ^ 64 - 8) % 2 ^ 64),
            bytes_at pre post (done ++ word) room',
          )),
      (
        refl,
        omega arith,
        value_below v,
        All-append done word hd (All-append gs (p ∷ []) hg (hp, tt)),
        tt,
        omega arith,
        omega (arith, ap length f, length-append a room'),
        ap (λ u. u ++ bits 1 (bit_value v)) (group_bits-append done word)
            ∙ append_assoc (group_bits done) (group_bits word) (bits 1 (bit_value v))
            ∙ full_group done gs p r prior v (omega arith) q,
      ),
    )

full_or_not : (n : ℕ) → n ≤ 7 → (n < 7) ⊎ (n ≡ 7)
full_or_not n h = ground arith

below_full : (p r : ℕ) → r ≡ 7 → p < 2 ^ r → p < 128
below_full p r e h = subst (λ k. p < 2 ^ k) e h

-- One call of `set_next_bit`.
step :
    (pre post done gs room : List ℕ) (p s r x slack n : ℕ) (prior : List Bool) (v : Bool)
    → Fits slack (suc n) done gs room p s r prior
    → Reaches pre post slack n
        (prior ++ (v ∷ []))
        (set_next_bit v (encoder gs p s (length pre + length done) x) (bytes_at pre post done room))
step pre post done gs room p (suc s) r x slack n prior v h =
    step_in_byte pre post done gs room p s r x slack n prior v h
step pre post done gs room p zero r x slack n prior v h = elim (full_or_not (length gs) h.5) [
  | inl lt ↦
      step_next_byte pre post done gs room p r x slack n prior v lt
        (below_full p r (omega (arith, h.0)) h.2) h
  | inr e ↦
      step_next_word pre post done gs room p r x slack n prior v e
        (below_full p r (omega (arith, h.0)) h.2) h
]

pub set_bits_from :
    (pre post done gs room : List ℕ) (p s r x slack : ℕ) (prior bs : List Bool)
    → Fits slack (length bs) done gs room p s r prior
    → Reaches pre post slack 0 (prior ++ bs) (set_bits bs (state_at pre post done gs room p s x))
set_bits_from pre post done gs room p s r x slack prior [] h =
    subst (λ u. Reaches pre post slack 0 u (some (state_at pre post done gs room p s x)))
      (sym (append-nil prior)) (done, gs, room, p, s, r, x, refl, h)
set_bits_from pre post done gs room p s r x slack prior (b ∷ bs) h =
    let (done', gs', room', p', s', r', x', e, h') =
      step pre post done gs room p s r x slack (length bs) prior b h in
    subst
      (λ u. Reaches pre post slack 0 u (set_bits (b ∷ bs) (state_at pre post done gs room p s x)))
      (append_assoc prior (b ∷ []) bs)
      (subst (λ o. Reaches pre post slack 0 ((prior ++ (b ∷ [])) ++ bs) (then_bits o (set_bits bs)))
        (sym e)
        (set_bits_from pre post done' gs' room' p' s' r' x' slack (prior ++ (b ∷ [])) bs h'))
