-- ===== src/PresenceMap/EncoderCommit.antt =====
-- `commit` in terms of groups.
use native.Mathlib.Nat.{mul-le-mul_right}
use m_fast.Common.{
  ℕ, suc, ◌+◌, ◌*◌, ◌%◌, ◌^◌, ◌≤◌, ◌<◌, ◌≡◌, refl, sym, ap, ◌∙◌, Bool, true, not, List, [], ◌∷◌,
  ◌++◌, All, length, length-append, ◌==◌, ==→eq, arith,
}
use m_fast.Wire.Ostream.{set_stop}
use m_fast.Wire.Groups.{IsGroup, or_stop_bits}
use m_fast.Buffer.Ostreambuf.{write_bytes_at}
use m_fast.Buffer.WriteBytes.{set_stop-append}
use m_fast.PresenceMap.Encoder.{memory_bytes, init_mask, or_mask, commit}
use m_fast.PresenceMap.EncoderSteps.{
  holds_below, holds_below_sound, place, word, IsByte, word-bound, word-append, memory_bytes-word,
  or_mask-above, encoder,
}
use m_fast.PresenceMap.EncoderRun.{groups_are_bytes}
use m_fast.PresenceMap.SetNextBit.{IsByte-append}

stop_bit_table : holds_below 8 (λ q. init_mask * 2 ^ (q * 8) % 2 ^ 64 == place 7 q) ≡ true
stop_bit_table = refl

stop_bit_place : (q : ℕ) → q < 8 → init_mask * 2 ^ (q * 8) % 2 ^ 64 ≡ place 7 q
stop_bit_place q h =
    ==→eq _ _
      (holds_below_sound 8 (λ q. init_mask * 2 ^ (q * 8) % 2 ^ 64 == place 7 q) q stop_bit_table h)

pub more_times : (c d : ℕ) → suc c * d ≡ c * d + d
more_times c d = grind arith

below_stop : (a c d : ℕ) → c < 128 → a < d → a + c * d < 128 * d
below_stop a c d h k = omega (arith, more_times c d, mul-le-mul_right d h)

seven_place : (q : ℕ) → place 7 q ≡ 128 * place 0 q
seven_place q = omega arith

no_more : (a k : ℕ) → a ≡ a + 2 * 0 * k
no_more a k = omega arith

top_place : (a c q : ℕ) → a + c * place 0 q < 128 * place 0 q → a + c * place 0 q < place 7 q
top_place a c q h = rw (seven_place q) h

top_sum : (a c d : ℕ) → a + c * d + (2 * 0 + 1) * (128 * d) ≡ a + (c + 128) * d
top_sum a c d = grind arith

top_value : (a c q : ℕ) → a + c * place 0 q + (2 * 0 + 1) * place 7 q ≡ a + (c + 128) * place 0 q
top_value a c q = rw (seven_place q) (top_sum a c (place 0 q))

stop_value :
    (gs : List ℕ) (c : ℕ)
    → All IsByte gs
    → c < 128
    → or_mask (word gs + c * place 0 (length gs)) (place 7 (length gs))
      ≡ word (gs ++ ((c + 128) ∷ []))
stop_value gs c h k =
    let q = length gs in
    let d = place 0 q in
    let a = word gs + c * d in
    ap (λ u. or_mask u (place 7 q)) (no_more a (place 7 q))
    ∙ or_mask-above a 0 (place 7 q)
        (top_place (word gs) c q (below_stop (word gs) c d k (omega (arith, word-bound gs h))))
    ∙ top_value (word gs) c q
    ∙ sym (word-append gs (c + 128))

product : (p a b : ℕ) → p * (a * b) ≡ p * a * (2 ^ 0 * b)
product p a b = grind arith

place_value : (p s q : ℕ) → p * place s q ≡ p * 2 ^ s * place 0 q
place_value p s q = product p (2 ^ s) (256 ^ q)

commit_bytes :
    (gs : List ℕ) (p s offset maxbytes : ℕ)
    → length gs ≤ 7
    → All IsGroup gs
    → p * 2 ^ s < 128
    → memory_bytes
        (length gs + 1)
        (or_mask (word gs + p * place s (length gs)) (init_mask * 2 ^ (length gs * 8) % 2 ^ 64))
      ≡ set_stop (gs ++ ((p * 2 ^ s) ∷ []))
unfolding set_stop
commit_bytes gs p s offset maxbytes lg hg h =
    let q = length gs in
    let c = p * 2 ^ s in
    let bytes = gs ++ ((c + 128) ∷ []) in
    ap (λ k. memory_bytes (q + 1) (or_mask (word gs + p * place s q) k))
      (stop_bit_place q (omega arith))
    ∙ ap (λ u. memory_bytes (q + 1) (or_mask (word gs + u) (place 7 q))) (place_value p s q)
    ∙ ap (memory_bytes (q + 1)) (stop_value gs c (groups_are_bytes gs hg) h)
    ∙ ap (λ n. memory_bytes n (word bytes)) (sym (length-append gs ((c + 128) ∷ [])))
    ∙ memory_bytes-word bytes (IsByte-append gs (c + 128) (groups_are_bytes gs hg) (omega arith))
    ∙ ap (λ b. gs ++ (b ∷ [])) (sym (or_stop_bits c h))
    ∙ sym (set_stop-append gs [] c)

-- `commit` writes the groups of the word and the one begun, the stop bit on the last.
pub commit-encoder :
    (overlong : Bool) (gs : List ℕ) (p s offset maxbytes : ℕ) (w : List ℕ)
    → length gs ≤ 7
    → All IsGroup gs
    → p * 2 ^ s < 128
    → commit overlong (encoder gs p s offset maxbytes) w
      ≡ write_bytes_at (set_stop (gs ++ ((p * 2 ^ s) ∷ []))) offset (not overlong) w
unfolding commit
commit-encoder overlong gs p s offset maxbytes w lg hg h =
    ap (λ b. write_bytes_at b offset (not overlong) w) (commit_bytes gs p s offset maxbytes lg hg h)
