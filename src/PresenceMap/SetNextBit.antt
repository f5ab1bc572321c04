-- ===== src/PresenceMap/SetNextBit.antt =====
-- `set_next_bit` in terms of groups: a bit goes into the group begun, or begins the next one, and with the
-- ninth group the eight that are full are written.
use Prim.Native.Nat.{bit_and}
use native.Mathlib.Nat.{one-le-pow}
use mathlib.Core.Option
use m_fast.Common.{
  ℕ, zero, suc, ◌+◌, ◌*◌, ◌%◌, ◌^◌, ◌≤◌, ◌<◌, ◌≡◌, refl, sym, ap, ◌∙◌, Bool, true, false, some,
  List, [], ◌∷◌, ◌++◌, All, length, length-append, ◌==◌, ==→eq, arith, ◌-◌, subst,
}
use m_fast.Buffer.Ostreambuf.{write_bytes_at}
use m_fast.PresenceMap.Encoder.{
  EncoderMap, memory_bytes, get_next_bit_mask, next_mask, flush_full, start_word, put_bit,
  set_next_bit,
}
use m_fast.PresenceMap.EncoderSteps.{
  holds_below_sound, place, lowest_table, next_byte_table, word, IsByte, word-bound, word-append,
  memory_bytes-word, bit_value, encoder_map, encoder, put_bit_above, flush_full_later,
  next_mask_in_byte, place_positive, place_half, not_zero,
}

abbrev put_result : Bool → EncoderMap × List ℕ → EncoderMap × List ℕ
put_result v r = (put_bit v r.0, r.1)

-- The parts of `set_next_bit` put together.
set_next_bit_parts :
    (v : Bool) (m m' m'' m3 : EncoderMap) (w w' : List ℕ)
    → next_mask m ≡ m'
    → flush_full m' w ≡ some (m'', w')
    → put_bit v m'' ≡ m3
    → set_next_bit v m w ≡ some (m3, w')
unfolding set_next_bit
set_next_bit_parts v m m' m'' m3 w w' e f g =
    ap (λ n. Option.map (put_result v) (flush_full n w)) e
    ∙ ap (Option.map (put_result v)) f
    ∙ ap (λ n. some (n, w')) g

twice : (y s q : ℕ) → y * place (suc s) q ≡ 2 * y * place s q
twice y s q = rw (place_half s q) (grind arith)

times_at_least : (x y : ℕ) → 1 ≤ x → y ≤ x * y
times_at_least zero y h = absurd (omega arith)
times_at_least (suc x) y h = grind arith

below_place : (gs : List ℕ) (s : ℕ) → All IsByte gs → word gs < place s (length gs)
below_place gs s h = omega (
  arith,
  word-bound gs h,
  times_at_least (2 ^ s) (256 ^ length gs) (one-le-pow s 2 (omega arith)),
)

-- The group that is begun has a bit free.
pub set_next_bit_in_byte :
    (v : Bool) (gs : List ℕ) (p s offset maxbytes : ℕ) (w : List ℕ)
    → s < 7
    → length gs < 8
    → All IsByte gs
    → set_next_bit v (encoder gs p (suc s) offset maxbytes) w
      ≡ some (encoder gs (2 * p + bit_value v) s offset maxbytes, w)
set_next_bit_in_byte v gs p s offset maxbytes w hs hq h =
    let q = length gs in
    let value = word gs + p * place (suc s) q in
    set_next_bit_parts v _ (encoder_map q value (place s q) offset maxbytes)
      (encoder_map q value (place s q) offset maxbytes) _ w w
      (next_mask_in_byte gs p s offset maxbytes hs hq)
      (flush_full_later q value (place s q) offset maxbytes w (place_positive s q))
      (put_bit_above (word gs) p value (place s q) q offset maxbytes v (below_place gs s h)
        (ap (λ d. word gs + d) (twice p s q)))

zero_plus : (n : ℕ) → 2 * 0 + n ≡ n
zero_plus n = omega arith

lowest : (q : ℕ) → q < 8 → bit_and (place 0 q) (get_next_bit_mask 8) ≡ place 0 q
lowest q h = ==→eq _ _ (
    holds_below_sound 8 (λ q. bit_and (place 0 q) (get_next_bit_mask 8) == place 0 q) q lowest_table
      h)

next_byte : (q : ℕ) → q < 7 → place 0 q * 2 ^ 14 % 2 ^ 64 ≡ place 6 (q + 1)
next_byte q h =
    ==→eq _ _ (
      holds_below_sound 7 (λ q. place 0 q * 2 ^ 14 % 2 ^ 64 == place 6 (q + 1)) q next_byte_table h)

next_mask_next_byte :
    (gs : List ℕ) (p offset maxbytes : ℕ)
    → length gs < 8
    → next_mask (encoder gs p 0 offset maxbytes)
      ≡ encoder_map
          (length gs + 1)
          (word (gs ++ (p ∷ [])))
          (place 0 (length gs) * 2 ^ 14 % 2 ^ 64)
          offset
          maxbytes
unfolding next_mask
next_mask_next_byte gs p offset maxbytes h =
    let q = length gs in
    rw (lowest q h, not_zero (place 0 q) (place_positive 0 q))
      (λ i.
        encoder_map (q + 1) (sym (word-append gs p) i) (place 0 q * 2 ^ 14 % 2 ^ 64) offset
          maxbytes)

pub IsByte-append : (gs : List ℕ) (p : ℕ) → All IsByte gs → IsByte p → All IsByte (gs ++ (p ∷ []))
IsByte-append [] p h k = (k, tt)
IsByte-append (g ∷ gs) p h k = (h.0, IsByte-append gs p h.1 k)

-- The group is full, and the word has another byte.
pub set_next_bit_next_byte :
    (v : Bool) (gs : List ℕ) (p offset maxbytes : ℕ) (w : List ℕ)
    → length gs < 7
    → All IsByte gs
    → IsByte p
    → set_next_bit v (encoder gs p 0 offset maxbytes) w
      ≡ some (encoder (gs ++ (p ∷ [])) (bit_value v) 6 offset maxbytes, w)
set_next_bit_next_byte v gs p offset maxbytes w hq h hp =
    let gs' = gs ++ (p ∷ []) in
    let n = length gs + 1 in
    let m' = encoder_map n (word gs') (place 6 n) offset maxbytes in
    let l = sym (length-append gs (p ∷ [])) in
    set_next_bit_parts v _ m' m' _ w w
      (next_mask_next_byte gs p offset maxbytes (omega arith)
        ∙ ap (λ k. encoder_map n (word gs') k offset maxbytes) (next_byte (length gs) hq))
      (flush_full_later n (word gs') (place 6 n) offset maxbytes w (place_positive 6 n))
      (put_bit_above (word gs') 0 (word gs') (place 6 n) n offset maxbytes v
          (subst (λ l. word gs' < place 6 l) (length-append gs (p ∷ []))
            (below_place gs' 6 (IsByte-append gs p h hp)))
          (omega arith)
        ∙ (λ i.
            encoder_map (l i) (word gs' + zero_plus (bit_value v) i * place 6 (l i)) (place 6 (l i))
              offset maxbytes))

full_word_written :
    (bs : List ℕ) (offset maxbytes : ℕ) (w w' : List ℕ)
    → length bs ≡ 8
    → All IsByte bs
    → write_bytes_at bs offset false w ≡ some w'
    → flush_full (encoder_map 8 (word bs) 0 offset maxbytes) w
      ≡ some (encoder [] 0 6 (offset + 8) ((maxbytes + 2 ^ 64 - 8) % 2 ^ 64), w')
unfolding flush_full start_word
full_word_written bs offset maxbytes w w' e h f =
    ap (Option.map (λ u. (start_word (encoder_map 8 (word bs) 0 offset maxbytes), u))) (
      ap (λ b. write_bytes_at b offset false w)
        (ap (λ n. memory_bytes n (word bs)) (sym e) ∙ memory_bytes-word bs h)
      ∙ f)

put_first :
    (v : Bool) (offset maxbytes : ℕ)
    → put_bit v (encoder [] 0 6 offset maxbytes) ≡ encoder [] (bit_value v) 6 offset maxbytes
put_first true offset maxbytes = refl
put_first false offset maxbytes = refl

-- The word is full: its eight bytes are written, and a new word begins.
pub set_next_bit_next_word :
    (v : Bool) (gs : List ℕ) (p offset maxbytes : ℕ) (w w' : List ℕ)
    → length gs ≡ 7
    → All IsByte gs
    → IsByte p
    → write_bytes_at (gs ++ (p ∷ [])) offset false w ≡ some w'
    → set_next_bit v (encoder gs p 0 offset maxbytes) w
      ≡ some (encoder [] (bit_value v) 6 (offset + 8) ((maxbytes + 2 ^ 64 - 8) % 2 ^ 64), w')
set_next_bit_next_word v gs p offset maxbytes w w' e h hp f =
    let gs' = gs ++ (p ∷ []) in
    set_next_bit_parts v _ (encoder_map 8 (word gs') 0 offset maxbytes)
      (encoder [] 0 6 (offset + 8) ((maxbytes + 2 ^ 64 - 8) % 2 ^ 64)) _ w w'
      (next_mask_next_byte gs p offset maxbytes (omega arith)
        ∙ (λ i. encoder_map (e i + 1) (word gs') (place 0 (e i) * 2 ^ 14 % 2 ^ 64) offset maxbytes))
      (full_word_written gs' offset maxbytes w w' (omega (arith, length-append gs (p ∷ [])))
        (IsByte-append gs p h hp) f)
      (put_first v (offset + 8) ((maxbytes + 2 ^ 64 - 8) % 2 ^ 64))
