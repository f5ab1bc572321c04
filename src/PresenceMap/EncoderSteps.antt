-- ===== src/PresenceMap/EncoderSteps.antt =====
-- What one call of `set_next_bit` does to the groups that the word of `encoder_presence_map` holds.
use Prim.Native.Nat.{bit_and}
use native.Mathlib.Nat.{pow-suc, mul-pos, one-le-pow, add-mul-div_right, div-eq_of_lt}
use m_fast.Common.{
  ℕ, zero, suc, ◌+◌, ◌*◌, ◌/◌, ◌%◌, ◌^◌, ◌<◌, ◌≡◌, refl, ap, ◌∙◌, Bool, true, false, some, List, [],
  ◌∷◌, ◌++◌, All, length, ◌==◌, ==→eq, if◌then◌else◌, arith,
}
use m_fast.PresenceMap.Encoder.{
  EncoderMap, memory_bytes, get_next_bit_mask, next_mask, flush_full, or_mask, put_bit,
}

-- A test that every number below a bound passes.
abbrev pub holds_below : ℕ → (ℕ → Bool) → Bool
holds_below zero test = true
holds_below (suc bound) test = if test bound then holds_below bound test else false

pub holds_below_sound :
    (bound : ℕ) (test : ℕ → Bool) (x : ℕ)
    → holds_below bound test ≡ true
    → x < bound
    → test x ≡ true
holds_below_sound zero test x h lt = absurd (omega arith)
holds_below_sound (suc bound) test x h lt = ground (arith, holds_below_sound bound test x)

-- The place of a bit: `s` in its byte, which has `q` bytes below it.
abbrev pub place : ℕ → ℕ → ℕ
place s q = 2 ^ s * 256 ^ q

in_byte_table :
    holds_below 8 (λ q. holds_below 7 (λ s. bit_and (place (suc s) q) (get_next_bit_mask 8) == 0))
    ≡ true
in_byte_table = refl

pub lowest_table :
    holds_below 8 (λ q. bit_and (place 0 q) (get_next_bit_mask 8) == place 0 q) ≡ true
lowest_table = refl

pub next_byte_table : holds_below 7 (λ q. place 0 q * 2 ^ 14 % 2 ^ 64 == place 6 (q + 1)) ≡ true
next_byte_table = refl

pub in_byte : (s q : ℕ) → s < 7 → q < 8 → bit_and (place (suc s) q) (get_next_bit_mask 8) ≡ 0
in_byte s q hs hq = ==→eq _ _ (
    holds_below_sound 7 (λ s. bit_and (place (suc s) q) (get_next_bit_mask 8) == 0) s
      (holds_below_sound 8
        (λ q. holds_below 7 (λ s. bit_and (place (suc s) q) (get_next_bit_mask 8) == 0)) q
        in_byte_table hq)
      hs)

pub place_half : (s q : ℕ) → place (suc s) q ≡ 2 * place s q
place_half s q = grind (arith, pow-suc 2 s)

half_place : (s q : ℕ) → place (suc s) q / 2 ≡ place s q
half_place s q = omega (arith, place_half s q)

pub exchange : (p d : ℕ) → p * (256 * d) ≡ 256 * (p * d)
exchange p d = grind arith

place-suc : (q : ℕ) → place 0 (suc q) ≡ 256 * place 0 q
place-suc q = omega (arith, pow-suc 256 q)

scale : (p q : ℕ) → p * place 0 (suc q) ≡ 256 * (p * place 0 q)
scale p q = ap (λ d. p * d) (place-suc q) ∙ exchange p (place 0 q)

pub place_positive : (s q : ℕ) → 0 < place s q
place_positive s q = mul-pos (one-le-pow s 2 (omega arith)) (one-le-pow q 256 (omega arith))

-- The groups of the bytes below the mask.
abbrev pub word : List ℕ → ℕ
word [] = 0
word (g ∷ gs) = g + 256 * word gs

abbrev pub IsByte : ℕ → Type 0
IsByte b = b < 256

pub word-bound : (gs : List ℕ) → All IsByte gs → word gs < 256 ^ length gs
word-bound [] h = omega arith
word-bound (g ∷ gs) h = omega (arith, word-bound gs h.1, pow-suc 256 (length gs))

pub word-append : (gs : List ℕ) (p : ℕ) → word (gs ++ (p ∷ [])) ≡ word gs + p * place 0 (length gs)
word-append [] p = omega arith
word-append (g ∷ gs) p = omega (arith, word-append gs p, scale p (length gs))

low_byte : (g w : ℕ) → IsByte g → (g + 256 * w) % 256 ≡ g
low_byte g w h = omega arith

high_bytes : (g w : ℕ) → IsByte g → (g + 256 * w) / 256 ≡ w
high_bytes g w h = omega arith

pub memory_bytes-word : (gs : List ℕ) → All IsByte gs → memory_bytes (length gs) (word gs) ≡ gs
memory_bytes-word [] h = refl
memory_bytes-word (g ∷ gs) h = λ i.
    low_byte g (word gs) h.0 i
    ∷ (ap (memory_bytes (length gs)) (high_bytes g (word gs) h.0) ∙ memory_bytes-word gs h.1) i

even_above : (a x mask : ℕ) → a < mask → (a + 2 * x * mask) / mask ≡ 2 * x
even_above a x mask h =
    add-mul-div_right a (2 * x) (omega arith) ∙ rw (div-eq_of_lt h) (omega arith)

pub or_mask-above :
    (a x mask : ℕ) → a < mask → or_mask (a + 2 * x * mask) mask ≡ a + (2 * x + 1) * mask
or_mask-above a x mask h = rw (even_above a x mask h) (grind arith)

abbrev pub bit_value : Bool → ℕ
bit_value v = if v then 1 else 0

abbrev pub encoder_map : ℕ → ℕ → ℕ → ℕ → ℕ → EncoderMap
encoder_map n value mask offset maxbytes = record {
  nbytes = n;
  value = value;
  mask = mask;
  offset = offset;
  maxbytes = maxbytes;
}

-- The map whose word holds the groups `gs` and of the next group the bits that `p` spells, `s` below
-- them still free.
abbrev pub encoder : List ℕ → ℕ → ℕ → ℕ → ℕ → EncoderMap
encoder gs p s offset maxbytes =
    let k = place s (length gs) in encoder_map (length gs) (word gs + p * k) k offset maxbytes

value_after :
    (a y value k : ℕ) (v : Bool)
    → a < k
    → value ≡ a + 2 * y * k
    → (if v then or_mask value k else value) ≡ a + (2 * y + bit_value v) * k
value_after a y value k true h e = ap (λ u. or_mask u k) e ∙ or_mask-above a y k h
value_after a y value k false h e = e ∙ ap (λ u. a + u * k) (omega arith)

pub put_bit_above :
    (a y value k n offset maxbytes : ℕ) (v : Bool)
    → a < k
    → value ≡ a + 2 * y * k
    → put_bit v (encoder_map n value k offset maxbytes)
      ≡ encoder_map n (a + (2 * y + bit_value v) * k) k offset maxbytes
put_bit_above a y value k n offset maxbytes true h e i =
    encoder_map n (value_after a y value k true h e i) k offset maxbytes
put_bit_above a y value k n offset maxbytes false h e i =
    encoder_map n (value_after a y value k false h e i) k offset maxbytes

pub not_zero : (k : ℕ) → 0 < k → (k == 0) ≡ false
not_zero k h = ground arith

pub flush_full_later :
    (n value k offset maxbytes : ℕ) (w : List ℕ)
    → 0 < k
    → flush_full (encoder_map n value k offset maxbytes) w
      ≡ some (encoder_map n value k offset maxbytes, w)
unfolding flush_full
flush_full_later n value k offset maxbytes w h = rw (not_zero k h) refl

pub next_mask_in_byte :
    (gs : List ℕ) (p s offset maxbytes : ℕ)
    → s < 7
    → length gs < 8
    → next_mask (encoder gs p (suc s) offset maxbytes)
      ≡ encoder_map
          (length gs)
          (word gs + p * place (suc s) (length gs))
          (place s (length gs))
          offset
          maxbytes
unfolding next_mask
next_mask_in_byte gs p s offset maxbytes hs hq = rw (in_byte s (length gs) hs hq) (
    ap (λ k. encoder_map (length gs) (word gs + p * place (suc s) (length gs)) k offset maxbytes)
      (half_place s (length gs)))
