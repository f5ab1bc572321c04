-- ===== src/PresenceMap/DecoderBits.antt =====
-- The bits that `is_next_bit_set` gives are those of the groups, whatever their number.
use native.Mathlib.Nat.{pow-suc, one-le-pow}
use m_fast.Common.{
  ℕ, zero, suc, ◌/◌, ◌^◌, ◌≤◌, ◌≡◌, refl, sym, ap, subst, ◌∙◌, inl, inr, Bool, true, false, Option,
  none, some, List, [], ◌∷◌, ◌++◌, All, length, ◌==◌, arith,
}
use m_fast.Wire.Outcome.{ok}
use m_fast.Wire.Ostream.{set_stop}
use m_fast.Wire.Groups.{IsGroup, has_stop_group, has_stop-or_stop}
use m_fast.Field.Storage.{BitSource, Yields}
use m_fast.PresenceMap.Decoder.{
  DecoderMap, load, is_next_bit_set, decode_pmap, after_load, skip_to_stop, map_source, map_at,
}
use m_fast.PresenceMap.Bits.{bit, bits, group_bits}
use m_fast.PresenceMap.Loading.{Loaded, Complete, load_bytes-set_stop}

Yields-append :
    (src : BitSource) (m m' m'' : src.Map) (bs cs : List Bool)
    → Yields src m bs m'
    → Yields src m' cs m''
    → Yields src m (bs ++ cs) m''
Yields-append src m m' m'' [] cs p q = subst (λ n. Yields src n cs m'') (sym p) q
Yields-append src m m' m'' (b ∷ bs) cs p q = (p.0, Yields-append src _ m' m'' bs cs p.1 q)

two_pow_half : (k : ℕ) → 2 ^ suc k / 2 ≡ 2 ^ k
two_pow_half k = omega (arith, pow-suc 2 k)

two_pow_not_zero : (k : ℕ) → (2 ^ k == 0) ≡ false
two_pow_not_zero k = ground (arith, one-le-pow k 2 (omega arith))

-- As long as the mask has bits, the word answers.
next_in_word :
    (k w : ℕ) (cont : Option (List ℕ))
    → is_next_bit_set (map_at w (2 ^ suc k) cont) ≡ some (bit k w, map_at w (2 ^ k) cont)
unfolding is_next_bit_set
next_in_word k w cont = rw (two_pow_half k, two_pow_not_zero k) refl

Yields-bits :
    (k w : ℕ) (cont : Option (List ℕ))
    → Yields map_source (some (map_at w (2 ^ k) cont)) (bits k w) (some (map_at w 1 cont))
Yields-bits zero w cont = refl
Yields-bits (suc k) w cont = rw (next_in_word k w cont) (refl, Yields-bits k w cont)

-- At the end of the word the bytes that `continue_` points to answer.
next_at_end :
    (k w w' : ℕ) (complete : Bool) (addr addr' : List ℕ) (cont : Option (List ℕ))
    → load w addr ≡ some (complete, map_at w' (2 ^ suc k) cont, addr')
    → is_next_bit_set (map_at w 1 (some addr)) ≡ is_next_bit_set (map_at w' (2 ^ suc k) cont)
unfolding is_next_bit_set
next_at_end k w w' complete addr addr' cont e = rw (e, two_pow_half k, two_pow_not_zero k) refl

Yields-at_end :
    (k w w' : ℕ) (complete : Bool) (addr addr' : List ℕ) (cont : Option (List ℕ)) (g : ℕ)
    (gs : List ℕ) (m : Option DecoderMap)
    → load w addr ≡ some (complete, map_at w' (2 ^ suc k) cont, addr')
    → Yields map_source (some (map_at w' (2 ^ suc k) cont)) (group_bits (g ∷ gs)) m
    → Yields map_source (some (map_at w 1 (some addr))) (group_bits (g ∷ gs)) m
Yields-at_end k w w' complete addr addr' cont g gs m e y =
    rw (next_at_end k w w' complete addr addr' cont e) y

load-set_stop :
    (cur g : ℕ) (gs rest : List ℕ)
    → All IsGroup (g ∷ gs)
    → Loaded 9 (length (g ∷ gs)) rest (group_bits (g ∷ gs)) (load cur (set_stop (g ∷ gs) ++ rest))
unfolding load
load-set_stop cur g gs rest h = load_bytes-set_stop 9 0 cur g gs rest refl h

skip_to_stop-set_stop :
    (m : DecoderMap) (g : ℕ) (gs rest : List ℕ)
    → All IsGroup (g ∷ gs)
    → skip_to_stop m (set_stop (g ∷ gs) ++ rest) ≡ ok m rest
unfolding skip_to_stop set_stop
skip_to_stop-set_stop m g [] rest h = rw (has_stop-or_stop g h.0) refl
skip_to_stop-set_stop m g (g' ∷ gs) rest h =
    rw (has_stop_group g h.0) (skip_to_stop-set_stop m g' gs rest h.1)

-- The outcome of a load: the stream goes on behind the stop bit, and the map yields the bits.
abbrev Serves : List ℕ → List Bool → Option (Bool × DecoderMap × List ℕ) → Type 0
Serves rest all r =
    (complete : Bool) × (k : ℕ) × (w : ℕ) × (cont : Option (List ℕ)) × (addr : List ℕ)
    × (m' : DecoderMap) × (r ≡ some (complete, map_at w (2 ^ suc k) cont, addr))
    × (after_load r ≡ ok (map_at w (2 ^ suc k) cont) rest)
    × Yields map_source (some (map_at w (2 ^ suc k) cont)) all (some m')

Serves-Complete :
    (rest : List ℕ) (all : List Bool) (r : Option (Bool × DecoderMap × List ℕ))
    → Complete rest all r
    → Serves rest all r
Serves-Complete rest all r (k, w, e, b) = (
  true,
  k,
  w,
  none,
  rest,
  map_at w 1 none,
  e,
  ap after_load e,
  subst (λ bs. Yields map_source (some (map_at w (2 ^ suc k) none)) bs (some (map_at w 1 none))) b
      (Yields-bits (suc k) w none),
)

Serves-later :
    (k w h : ℕ) (hs rest : List ℕ) (all : List Bool) (r : Option (Bool × DecoderMap × List ℕ))
    → let addr = set_stop (h ∷ hs) ++ rest in
      r ≡ some (false, map_at w (2 ^ suc k) (some addr), addr)
      → bits (suc k) w ++ group_bits (h ∷ hs) ≡ all
      → All IsGroup (h ∷ hs)
      → Serves rest (group_bits (h ∷ hs)) (load w (set_stop (h ∷ hs) ++ rest))
      → Serves rest all r
Serves-later k w h hs rest all r e b a (complete, k', w', cont, addr', m', e', o, y) =
    let addr = set_stop (h ∷ hs) ++ rest in
    let m = map_at w (2 ^ suc k) (some addr) in
    (
      false,
      k,
      w,
      some addr,
      addr,
      m',
      e,
      ap after_load e ∙ skip_to_stop-set_stop m h hs rest a,
      subst (λ bs. Yields map_source (some m) bs (some m')) b
          (Yields-append map_source (some m) (some (map_at w 1 (some addr))) (some m')
            (bits (suc k) w) (group_bits (h ∷ hs)) (Yields-bits (suc k) w (some addr))
            (Yields-at_end k' w w' complete addr addr' cont h hs (some m') e' y)),
    )

Serves-load :
    (n cur g : ℕ) (gs rest : List ℕ)
    → length (g ∷ gs) ≤ n
    → All IsGroup (g ∷ gs)
    → Serves rest (group_bits (g ∷ gs)) (load cur (set_stop (g ∷ gs) ++ rest))
Serves-load zero cur g gs rest l h = absurd (omega arith)
Serves-load (suc n) cur g gs rest l h = elim (load-set_stop cur g gs rest h) [
  | inl c ↦ Serves-Complete rest _ _ c
  | inr (k, w, h', hs, e, b, a, f) ↦
      Serves-later k w h' hs rest _ _ e b a (Serves-load n w h' hs rest (omega arith) a)
]

-- A presence map of one or more groups, the stop bit in the last, is loaded by
-- `fast_istream::decode(decoder_presence_map &)`: the stream goes on with the bytes behind it, and
-- `is_next_bit_set`, called on the map and on each map that it leaves, gives the seven bits of each
-- group in order, also those beyond the nine groups that a word holds.
pub Yields-decode_pmap :
    (g : ℕ) (gs rest : List ℕ)
    → All IsGroup (g ∷ gs)
    → (m : DecoderMap) × (m' : DecoderMap) × (decode_pmap (set_stop (g ∷ gs) ++ rest) ≡ ok m rest)
      × Yields map_source (some m) (group_bits (g ∷ gs)) (some m')
unfolding decode_pmap
Yields-decode_pmap g gs rest h =
    let (complete, k, w, cont, addr, m', e, o, y) =
      Serves-load (length (g ∷ gs)) 0 g gs rest (omega arith) h in
    (map_at w (2 ^ suc k) cont, m', o, y)
