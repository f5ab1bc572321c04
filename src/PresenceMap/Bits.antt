-- ===== src/PresenceMap/Bits.antt =====
-- The bits of a word, greatest first, and of the groups of seven that make it up.
use m_fast.Common.{
  ℕ, zero, suc, ◌+◌, ◌*◌, ◌/◌, ◌%◌, ◌^◌, ◌≤◌, ◌<◌, ◌≡◌, refl, sym, ap, ◌∙◌, Bool, List, [], ◌∷◌,
  ◌++◌, ◌==◌, arith,
}
use native.Mathlib.Nat.{
  pow-suc, div-div-eq-div-mul, mod-eq_of_lt, mod-lt, div-add-mod, add-mul-mod_self_left, one-le-pow,
}

abbrev pub bit : ℕ → ℕ → Bool
bit b c = c / 2 ^ b % 2 == 1

abbrev pub bits : ℕ → ℕ → List Bool
bits zero c = []
bits (suc k) c = bit k c ∷ bits k c

-- 7 * j, as a unary number
abbrev pub seven_more : ℕ → ℕ
seven_more k = suc (suc (suc (suc (suc (suc (suc k))))))

abbrev pub sevens : ℕ → ℕ
sevens zero = 0
sevens (suc j) = seven_more (sevens j)

-- The bits of a presence map, group by group.
abbrev pub group_bits : List ℕ → List Bool
group_bits [] = []
group_bits (g ∷ gs) = bits 7 g ++ group_bits gs

pub bit-suc : (b c : ℕ) → bit (suc b) c ≡ bit b (c / 2)
bit-suc b c =
    ap (λ q. q % 2 == 1)
      (ap (λ p. c / p) (omega (arith, pow-suc 2 b)) ∙ sym (div-div-eq-div-mul c 2 (2 ^ b)))

bit_seven : (b c : ℕ) → bit (seven_more b) c ≡ bit b (c / 128)
bit_seven b c =
    bit-suc (suc (suc (suc (suc (suc (suc b)))))) c
    ∙ bit-suc (suc (suc (suc (suc (suc b))))) (c / 2)
    ∙ bit-suc (suc (suc (suc (suc b)))) (c / 2 / 2)
    ∙ bit-suc (suc (suc (suc b))) (c / 2 / 2 / 2)
    ∙ bit-suc (suc (suc b)) (c / 2 / 2 / 2 / 2)
    ∙ bit-suc (suc b) (c / 2 / 2 / 2 / 2 / 2)
    ∙ bit-suc b (c / 2 / 2 / 2 / 2 / 2 / 2)
    ∙ ap (bit b) (omega arith)

bits-seven_more : (k w : ℕ) → bits (seven_more k) w ≡ bits k (w / 128) ++ bits 7 w
bits-seven_more zero w = refl
bits-seven_more (suc k) w = λ i. bit_seven k w i ∷ bits-seven_more k w i

half_mod : (c x : ℕ) → 0 < x → c % (2 * x) / 2 ≡ c / 2 % x
half_mod c x h =
    let r = c % (2 * x) in
    let q = c / (2 * x) in
    sym (mod-eq_of_lt (omega (arith, mod-lt c {m = 2 * x} (omega arith))))
    ∙ sym (add-mul-mod_self_left (r / 2) x q)
    ∙ ap (λ n. n % x) (omega (arith, div-add-mod c (2 * x)))

even_mod : (c x : ℕ) → c % (2 * x) % 2 ≡ c % 2
even_mod c x = omega (arith, div-add-mod c (2 * x))

two_pow : (m : ℕ) → 2 ^ suc m ≡ 2 * 2 ^ m
two_pow m = omega (arith, pow-suc 2 m)

zeroth : (c : ℕ) → c / 2 ^ 0 % 2 ≡ c % 2
zeroth c = omega arith

bit-mod : (m b c : ℕ) → b < m → bit b (c % 2 ^ m) ≡ bit b c
bit-mod zero b c h = absurd (omega arith)
bit-mod (suc m) zero c h =
    rw (two_pow m)
      (ap (λ r. r == 1) (zeroth (c % (2 * 2 ^ m)) ∙ even_mod c (2 ^ m) ∙ sym (zeroth c)))
bit-mod (suc m) (suc b) c h =
    bit-suc b (c % 2 ^ suc m)
    ∙ ap (bit b)
        (ap (λ p. c % p / 2) (two_pow m) ∙ half_mod c (2 ^ m) (one-le-pow m 2 (omega arith)))
    ∙ bit-mod m b (c / 2) (omega arith)
    ∙ sym (bit-suc b c)

bits-mod : (m k c : ℕ) → k ≤ m → bits k (c % 2 ^ m) ≡ bits k c
bits-mod m zero c h = refl
bits-mod m (suc k) c h = λ i. bit-mod m k c h i ∷ bits-mod m k c (omega arith) i

append_both : {a b c d : List Bool} → a ≡ b → c ≡ d → a ++ c ≡ b ++ d
append_both p q i = p i ++ q i

-- One byte of a presence map shifted into the word: the bits above are those of the word before.
pub bits_shift_in :
    (k c g : ℕ)
    → k ≤ 57
    → g < 128
    → bits (seven_more k) (c * 128 % 2 ^ 64 + g) ≡ bits k c ++ bits 7 g
bits_shift_in k c g hk hg =
    let w = c * 128 % 2 ^ 64 + g in
    bits-seven_more k w
    ∙ append_both (ap (bits k) (omega arith) ∙ bits-mod 57 k c hk)
        (sym (bits-mod 7 7 w (omega arith)) ∙ ap (bits 7) (omega arith))
