-- ===== src/PresenceMap/Loading.antt =====
-- What `decoder_presence_map::load` makes of a presence map of any number of groups.
use native.Mathlib.Nat.{pow-suc, pow-le-pow_right}
use m_fast.Common.{
  ℕ, zero, suc, ◌+◌, ◌*◌, ◌%◌, ◌^◌, ◌≤◌, ◌≡◌, refl, sym, ap, ◌∙◌, ◌⊎◌, inl, inr, Bool, true, false,
  Option, none, some, List, [], ◌∷◌, ◌++◌, All, length, append-nil, append_assoc, arith,
}
use m_fast.Wire.Ostream.{set_stop, or_stop}
use m_fast.Wire.Groups.{IsGroup, has_stop_group, has_stop-or_stop, or_stop_bits}
use m_fast.PresenceMap.Decoder.{DecoderMap, load_bytes, map_at}
use m_fast.PresenceMap.Bits.{bits, seven_more, sevens, group_bits, bits_shift_in}

sevens_lem : (j : ℕ) → sevens j ≡ 7 * j
sevens_lem zero = refl
sevens_lem (suc j) = omega (arith, sevens_lem j)

two_pow_seven_more : (k : ℕ) → 2 ^ seven_more k ≡ 2 ^ k * 128
two_pow_seven_more k = omega (
  arith,
  pow-suc 2 k,
  pow-suc 2 (suc k),
  pow-suc 2 (suc (suc k)),
  pow-suc 2 (suc (suc (suc k))),
  pow-suc 2 (suc (suc (suc (suc k)))),
  pow-suc 2 (suc (suc (suc (suc (suc k))))),
  pow-suc 2 (suc (suc (suc (suc (suc (suc k)))))),
)

mask_step : (j : ℕ) → j ≤ 8 → 2 ^ sevens j * 128 % 2 ^ 64 ≡ 2 ^ sevens (suc j)
mask_step j h = omega (
  arith,
  two_pow_seven_more (sevens j),
  pow-le-pow_right {n = 2} (omega arith) {i = sevens j} {j = 56} (omega (arith, sevens_lem j)),
)

-- The loop has met the stop bit, or has used its rounds and leaves groups to load later. Either way the
-- bits below the mask and those left are `all`.
abbrev pub Complete : List ℕ → List Bool → Option (Bool × DecoderMap × List ℕ) → Type 0
Complete rest all r =
    (k : ℕ) × (w : ℕ) × (r ≡ some (true, map_at w (2 ^ suc k) none, rest)) × (bits (suc k) w ≡ all)

abbrev pub Partial : ℕ → ℕ → List ℕ → List Bool → Option (Bool × DecoderMap × List ℕ) → Type 0
Partial i n rest all r =
    (k : ℕ) × (w : ℕ) × (h : ℕ) × (hs : List ℕ) × (r
      ≡ some (
        false,
        map_at w (2 ^ suc k) (some (set_stop (h ∷ hs) ++ rest)),
        set_stop (h ∷ hs) ++ rest,
      ))
    × (bits (suc k) w ++ group_bits (h ∷ hs) ≡ all)
    × All IsGroup (h ∷ hs)
    × (length (h ∷ hs) + i ≡ n)

abbrev pub Loaded : ℕ → ℕ → List ℕ → List Bool → Option (Bool × DecoderMap × List ℕ) → Type 0
Loaded i n rest all r = Complete rest all r ⊎ Partial i n rest all r

abbrev shifted_in : ℕ → ℕ → ℕ
shifted_in cur g = cur * 128 % 2 ^ 64 + g

low_bits : (g : ℕ) → IsGroup g → g % 128 ≡ g
low_bits g h = omega arith

low_bits_stop : (g : ℕ) → IsGroup g → or_stop g % 128 ≡ g
low_bits_stop g h = rw (or_stop_bits g h) (omega arith)

load_bytes_zero :
    (cur mask : ℕ) (addr : List ℕ)
    → load_bytes 0 cur mask addr ≡ some (false, map_at cur mask (some addr), addr)
unfolding load_bytes
load_bytes_zero cur mask addr = refl

stop_round :
    (i j cur g : ℕ) (rest : List ℕ)
    → j ≤ 8
    → IsGroup g
    → load_bytes (suc i) cur (2 ^ sevens j) (or_stop g ∷ rest)
      ≡ some (true, map_at (shifted_in cur g) (2 ^ sevens (suc j)) none, rest)
unfolding load_bytes
stop_round i j cur g rest hj hg = rw (has_stop-or_stop g hg) (λ t.
    some (true, map_at (cur * 128 % 2 ^ 64 + low_bits_stop g hg t) (mask_step j hj t) none, rest))

next_round :
    (i j cur g : ℕ) (addr : List ℕ)
    → j ≤ 8
    → IsGroup g
    → load_bytes (suc i) cur (2 ^ sevens j) (g ∷ addr)
      ≡ load_bytes i (shifted_in cur g) (2 ^ sevens (suc j)) addr
unfolding load_bytes
next_round i j cur g addr hj hg =
    rw (has_stop_group g hg)
      (λ t. load_bytes i (cur * 128 % 2 ^ 64 + low_bits g hg t) (mask_step j hj t) addr)

bits_round :
    (j cur g : ℕ) (gs : List ℕ)
    → j ≤ 8
    → IsGroup g
    → bits (sevens (suc j)) (shifted_in cur g) ++ group_bits gs
      ≡ bits (sevens j) cur ++ group_bits (g ∷ gs)
bits_round j cur g gs hj hg =
    ap (λ bs. bs ++ group_bits gs) (bits_shift_in (sevens j) cur g (omega (arith, sevens_lem j)) hg)
    ∙ append_assoc (bits (sevens j) cur) (bits 7 g) (group_bits gs)

Loaded-suc :
    (i n : ℕ) (rest : List ℕ) (all all' : List Bool) (r r' : Option (Bool × DecoderMap × List ℕ))
    → r' ≡ r
    → all ≡ all'
    → Loaded i n rest all r
    → Loaded (suc i) (suc n) rest all' r'
Loaded-suc i n rest all all' r r' e f (inl (k, w, p, q)) = inl (k, w, e ∙ p, q ∙ f)
Loaded-suc i n rest all all' r r' e f (inr (k, w, h, hs, p, q, a, l)) =
    inr (k, w, h, hs, e ∙ p, q ∙ f, a, omega arith)

-- 7 * j - 1 for the j above 0
abbrev six_more : ℕ → ℕ
six_more k = suc (suc (suc (suc (suc (suc k)))))

pub load_bytes-set_stop :
    (i j cur g : ℕ) (gs rest : List ℕ)
    → i + j ≡ 9
    → All IsGroup (g ∷ gs)
    → Loaded i
        (length (g ∷ gs))
        rest
        (bits (sevens j) cur ++ group_bits (g ∷ gs))
        (load_bytes i cur (2 ^ sevens j) (set_stop (g ∷ gs) ++ rest))
unfolding set_stop
load_bytes-set_stop zero zero cur g gs rest e h = absurd (omega arith)
load_bytes-set_stop zero (suc j) cur g gs rest e h =
    inr (six_more (sevens j), cur, g, gs, load_bytes_zero _ _ _, refl, h, omega arith)
load_bytes-set_stop (suc i) j cur g [] rest e h = inl (
  six_more (sevens j),
  shifted_in cur g,
  stop_round i j cur g rest (omega arith) h.0,
  sym (append-nil _) ∙ bits_round j cur g [] (omega arith) h.0,
)
load_bytes-set_stop (suc i) j cur g (g' ∷ gs) rest e h =
    Loaded-suc i (length (g' ∷ gs)) rest _ _ _ _
      (next_round i j cur g (set_stop (g' ∷ gs) ++ rest) (omega arith) h.0)
      (bits_round j cur g (g' ∷ gs) (omega arith) h.0)
      (load_bytes-set_stop i (suc j) (shifted_in cur g) g' gs rest (omega arith) h.1)
