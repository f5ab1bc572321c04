-- ===== src/PresenceMap/EncoderBits.antt =====
-- The bits of the group that is begun, and of the groups before it.
use native.Mathlib.Nat.{pow-suc}
use m_fast.Common.{
  ℕ, zero, suc, ◌+◌, ◌*◌, ◌/◌, ◌%◌, ◌^◌, ◌≡◌, refl, sym, ap, ◌∙◌, Bool, true, false, List, [], ◌∷◌,
  ◌++◌, ◌==◌, append-nil, append_assoc, arith,
}
use m_fast.PresenceMap.Bits.{bit, bits, bit-suc, group_bits}
use m_fast.PresenceMap.EncoderSteps.{bit_value}

abbrev pub falses : ℕ → List Bool
falses zero = []
falses (suc n) = false ∷ falses n

last_one : (p : ℕ) → (2 * p + 1) / 2 ^ 0 % 2 ≡ 1
last_one p = omega arith

last_zero : (p : ℕ) → (2 * p + 0) / 2 ^ 0 % 2 ≡ 0
last_zero p = omega arith

bit_zero : (p : ℕ) (v : Bool) → bit 0 (2 * p + bit_value v) ≡ v
bit_zero p true = ap (λ r. r == 1) (last_one p)
bit_zero p false = ap (λ r. r == 1) (last_zero p)

half_next : (p : ℕ) (v : Bool) → (2 * p + bit_value v) / 2 ≡ p
half_next p true = omega arith
half_next p false = omega arith

-- A bit put behind those of a group.
pub bits_next : (r p : ℕ) (v : Bool) → bits (suc r) (2 * p + bit_value v) ≡ bits r p ++ (v ∷ [])
bits_next zero p v = λ i. bit_zero p v i ∷ []
bits_next (suc r) p v =
    λ i. (bit-suc r (2 * p + bit_value v) ∙ ap (bit r) (half_next p v)) i ∷ bits_next r p v i

pub bits_first : (v : Bool) → bits 1 (bit_value v) ≡ v ∷ []
bits_first true = refl
bits_first false = refl

pub group_bits-append : (gs hs : List ℕ) → group_bits (gs ++ hs) ≡ group_bits gs ++ group_bits hs
group_bits-append [] hs = refl
group_bits-append (g ∷ gs) hs =
    ap (λ r. bits 7 g ++ r) (group_bits-append gs hs)
    ∙ sym (append_assoc (bits 7 g) (group_bits gs) (group_bits hs))

-- The free places of the last group are 0.
abbrev places : ℕ → ℕ → ℕ
places zero r = r
places (suc s) r = suc (places s r)

abbrev pub shift_up : ℕ → ℕ → ℕ
shift_up zero p = p
shift_up (suc s) p = 2 * shift_up s p

falses_end : (s : ℕ) → falses s ++ (false ∷ []) ≡ falses (suc s)
falses_end zero = refl
falses_end (suc s) = ap (◌∷◌ false) (falses_end s)

falses-suc : (s : ℕ) (bs : List Bool) → (bs ++ falses s) ++ (false ∷ []) ≡ bs ++ falses (suc s)
falses-suc s bs = append_assoc bs (falses s) (false ∷ []) ∙ ap (λ r. bs ++ r) (falses_end s)

bits_free : (s r p : ℕ) → bits (places s r) (shift_up s p) ≡ bits r p ++ falses s
bits_free zero r p = sym (append-nil (bits r p))
bits_free (suc s) r p =
    ap (bits (suc (places s r))) (omega arith)
    ∙ bits_next (places s r) (shift_up s p) false
    ∙ ap (λ bs. bs ++ (false ∷ [])) (bits_free s r p)
    ∙ falses-suc s (bits r p)

places_lem : (s r : ℕ) → places s r ≡ r + s
places_lem zero r = omega arith
places_lem (suc s) r = omega (arith, places_lem s r)

shift_up_lem : (s p : ℕ) → shift_up s p ≡ p * 2 ^ s
shift_up_lem zero p = omega arith
shift_up_lem (suc s) p = grind (arith, shift_up_lem s p, pow-suc 2 s)

pub bits_seven : (s r p : ℕ) → r + s ≡ 7 → bits 7 (p * 2 ^ s) ≡ bits r p ++ falses s
bits_seven s r p e =
    (λ i. bits ((sym e ∙ sym (places_lem s r)) i) (sym (shift_up_lem s p) i)) ∙ bits_free s r p
