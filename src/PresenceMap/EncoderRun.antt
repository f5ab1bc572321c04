-- ===== src/PresenceMap/EncoderRun.antt =====
-- The calls of `set_next_bit` for one presence map: after each of them the groups written, those in the
-- word and the one that is begun hold the bits that were set.
use native.Mathlib.Nat.{pow-suc}
use m_fast.Common.{
  ℕ, suc, ◌+◌, ◌*◌, ◌^◌, ◌≤◌, ◌<◌, ◌≡◌, refl, sym, ap, ◌∙◌, Bool, true, false, Option, none, some,
  List, [], ◌∷◌, ◌++◌, All, length, length-append, append-nil, append_assoc, arith,
}
use m_fast.Wire.Groups.{IsGroup}
use m_fast.PresenceMap.Bits.{bits, group_bits}
use m_fast.PresenceMap.Encoder.{EncoderMap, set_next_bit}
use m_fast.PresenceMap.EncoderSteps.{IsByte, encoder, bit_value}
use m_fast.PresenceMap.EncoderBits.{bits_next, bits_first, group_bits-append}
use m_fast.PresenceMap.SetNextBit.{set_next_bit_in_byte, set_next_bit_next_byte}

-- The calls of `set_next_bit` one after another.
abbrev pub then_bits :
    Option (EncoderMap × List ℕ)
    → (EncoderMap × List ℕ → Option (EncoderMap × List ℕ))
    → Option (EncoderMap × List ℕ)
then_bits none f = none
then_bits (some r) f = f r

abbrev pub set_bits : List Bool → EncoderMap × List ℕ → Option (EncoderMap × List ℕ)
set_bits [] r = some r
set_bits (b ∷ bs) r = then_bits (set_next_bit b r.0 r.1) (set_bits bs)

-- The stream with the groups `done` of the map behind `pre`, and the `room` that is left before `post`.
abbrev pub bytes_at : List ℕ → List ℕ → List ℕ → List ℕ → List ℕ
bytes_at pre post done room = pre ++ (done ++ (room ++ post))

abbrev pub state_at : List ℕ → List ℕ → List ℕ → List ℕ → List ℕ → ℕ → ℕ → ℕ → EncoderMap × List ℕ
state_at pre post done gs room p s x =
    (encoder gs p s (length pre + length done) x, bytes_at pre post done room)

-- `r` bits of the group begun are set and `s` are free; `n` bits are still to come, and then `slack`
-- places of the room are left over.
abbrev pub Fits : ℕ → ℕ → List ℕ → List ℕ → List ℕ → ℕ → ℕ → ℕ → List Bool → Type 0
Fits slack n done gs room p s r prior =
    (r + s ≡ 7)
    × (1 ≤ r)
    × (p < 2 ^ r)
    × All IsGroup done
    × All IsGroup gs
    × (length gs ≤ 7)
    × (7 * length gs + r + n + slack ≡ 7 * length room)
    × (group_bits done ++ (group_bits gs ++ bits r p) ≡ prior)

abbrev pub Reaches : List ℕ → List ℕ → ℕ → ℕ → List Bool → Option (EncoderMap × List ℕ) → Type 0
Reaches pre post slack n bs res =
    (done : List ℕ) × (gs : List ℕ) × (room : List ℕ) × (p : ℕ) × (s : ℕ) × (r : ℕ) × (x : ℕ) × (res
      ≡ some (state_at pre post done gs room p s x))
    × Fits slack n done gs room p s r bs

pub groups_are_bytes : (gs : List ℕ) → All IsGroup gs → All IsByte gs
groups_are_bytes [] h = tt
groups_are_bytes (g ∷ gs) h = (omega arith, groups_are_bytes gs h.1)

pub All-append : (gs hs : List ℕ) → All IsGroup gs → All IsGroup hs → All IsGroup (gs ++ hs)
All-append [] hs h k = k
All-append (g ∷ gs) hs h k = (h.0, All-append gs hs h.1 k)

next_below : (p r : ℕ) (v : Bool) → p < 2 ^ r → 2 * p + bit_value v < 2 ^ suc r
next_below p r true h = omega (arith, pow-suc 2 r)
next_below p r false h = omega (arith, pow-suc 2 r)

pub value_below : (v : Bool) → bit_value v < 2 ^ 1
value_below true = omega arith
value_below false = omega arith

pub append_three : (a b c d : List Bool) → a ++ (b ++ (c ++ d)) ≡ (a ++ (b ++ c)) ++ d
append_three a b c d = ap (λ r. a ++ r) (sym (append_assoc b c d)) ∙ sym (append_assoc a (b ++ c) d)

pub step_in_byte :
    (pre post done gs room : List ℕ) (p s r x slack n : ℕ) (prior : List Bool) (v : Bool)
    → Fits slack (suc n) done gs room p (suc s) r prior
    → Reaches pre post slack n (prior ++ (v ∷ [])) (
        set_next_bit v
          (encoder gs p (suc s) (length pre + length done) x)
          (bytes_at pre post done room))
step_in_byte pre post done gs room p s r x slack n prior v (e, l, b, hd, hg, lg, c, q) = (
  done,
  gs,
  room,
  2 * p + bit_value v,
  s,
  suc r,
  x,
  set_next_bit_in_byte v gs p s (length pre + length done) x (bytes_at pre post done room)
      (omega arith) (omega arith) (groups_are_bytes gs hg),
  (
    omega arith,
    omega arith,
    next_below p r v b,
    hd,
    hg,
    lg,
    omega arith,
    ap (λ u. group_bits done ++ (group_bits gs ++ u)) (bits_next r p v)
        ∙ append_three (group_bits done) (group_bits gs) (bits r p) (v ∷ [])
        ∙ ap (λ u. u ++ (v ∷ [])) q,
  ),
)

-- The bits when the group begun has become full.
pub full_group :
    (done gs : List ℕ) (p r : ℕ) (prior : List Bool) (v : Bool)
    → r ≡ 7
    → group_bits done ++ (group_bits gs ++ bits r p) ≡ prior
    → group_bits done ++ (group_bits (gs ++ (p ∷ [])) ++ bits 1 (bit_value v)) ≡ prior ++ (v ∷ [])
full_group done gs p r prior v e q =
    (λ i.
      group_bits done
      ++ ((group_bits-append gs (p ∷ []) ∙ ap (λ u. group_bits gs ++ u) (append-nil (bits 7 p))) i
          ++ bits_first v i))
    ∙ ap (λ u. group_bits done ++ u) (append_assoc (group_bits gs) (bits 7 p) (v ∷ []))
    ∙ append_three (group_bits done) (group_bits gs) (bits 7 p) (v ∷ [])
    ∙ ap (λ u. u ++ (v ∷ [])) (ap (λ k. group_bits done ++ (group_bits gs ++ bits k p)) (sym e) ∙ q)

pub step_next_byte :
    (pre post done gs room : List ℕ) (p r x slack n : ℕ) (prior : List Bool) (v : Bool)
    → length gs < 7
    → p < 128
    → Fits slack (suc n) done gs room p 0 r prior
    → Reaches pre post slack n
        (prior ++ (v ∷ []))
        (set_next_bit v (encoder gs p 0 (length pre + length done) x) (bytes_at pre post done room))
step_next_byte pre post done gs room p r x slack n prior v lt hp (e, l, b, hd, hg, lg, c, q) = (
  done,
  gs ++ (p ∷ []),
  room,
  bit_value v,
  6,
  1,
  x,
  set_next_bit_next_byte v gs p (length pre + length done) x (bytes_at pre post done room) lt
      (groups_are_bytes gs hg) (omega arith),
  (
    refl,
    omega arith,
    value_below v,
    hd,
    All-append gs (p ∷ []) hg (hp, tt),
    omega (arith, length-append gs (p ∷ [])),
    omega (arith, length-append gs (p ∷ [])),
    full_group done gs p r prior v (omega arith) q,
  ),
)
