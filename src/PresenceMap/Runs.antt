-- ===== src/PresenceMap/Runs.antt =====
-- Runs of the presence maps on concrete streams.
use m_fast.Common.{
  true, false, ℕ, zero, suc, Bool, ◌≡◌, refl, List, [], ◌∷◌, ◌++◌, none, some, arith,
}
use m_fast.Wire.Outcome.{ok}
use m_fast.Wire.Ostream.{set_stop}
use m_fast.Field.Storage.{Yields}
use m_fast.PresenceMap.Decoder.{DecoderMap, load, load_bytes, decode_pmap, map_source, map_at}
use m_fast.PresenceMap.Bits.{group_bits}
use m_fast.PresenceMap.Encoder.{set_next_bit, next_mask, flush_full, commit}
use m_fast.PresenceMap.EncoderBits.{falses}
use m_fast.PresenceMap.RoundTrip.{encode_pmap, decode_pmap-encode_pmap}
use m_fast.Buffer.Ostreambuf.{write_bytes_at, shrink_at}
use m_fast.PresenceMap.DecoderBits.{Yields-decode_pmap}

-- Eleven groups, so that a second word is loaded.
abbrev long_pmap : List ℕ
long_pmap = 0x40 ∷ 0x7F ∷ 0 ∷ 0 ∷ 1 ∷ 2 ∷ 3 ∷ 4 ∷ 0x55 ∷ 0x2A ∷ 0x40 ∷ []

Yields-decode_pmap_example :
    (m : DecoderMap) × (m' : DecoderMap) × (decode_pmap (set_stop long_pmap ++ 0x81 ∷ [])
      ≡ ok m (0x81 ∷ []))
    × Yields map_source (some m) (group_bits long_pmap) (some m')
Yields-decode_pmap_example =
    Yields-decode_pmap 0x40 (0x7F ∷ 0 ∷ 0 ∷ 1 ∷ 2 ∷ 3 ∷ 4 ∷ 0x55 ∷ 0x2A ∷ 0x40 ∷ []) (0x81 ∷ [])
      (ground arith)

decode_pmap_short : decode_pmap (0xC0 ∷ 0x81 ∷ []) ≡ ok (map_at 0x40 128 none) (0x81 ∷ [])
unfolding decode_pmap load load_bytes
decode_pmap_short = refl

-- More bits than a word of eight bytes holds.
abbrev stripes : ℕ → List Bool
stripes zero = []
stripes (suc n) = true ∷ false ∷ false ∷ stripes n

abbrev long_room : List ℕ
long_room = 7 ∷ 7 ∷ 7 ∷ 7 ∷ 7 ∷ 7 ∷ 7 ∷ 7 ∷ 7 ∷ []

decode_pmap-encode_pmap_example :
    (bytes : List ℕ) × (m : DecoderMap) × (m' : DecoderMap) × (k : ℕ) × (encode_pmap true
        (true ∷ stripes 20)
        (0x81 ∷ [])
        long_room
        (0x83 ∷ [])
      ≡ some ((0x81 ∷ []) ++ (bytes ++ (0x83 ∷ []))))
    × (decode_pmap (bytes ++ (0x83 ∷ [])) ≡ ok m (0x83 ∷ []))
    × Yields map_source (some m) ((true ∷ stripes 20) ++ falses k) (some m')
decode_pmap-encode_pmap_example =
    decode_pmap-encode_pmap true (stripes 20) (0x81 ∷ []) long_room (0x83 ∷ []) (0x83 ∷ []) refl

-- A map of nine bits, 1 0 0 three times.
encode_pmap_run :
    encode_pmap true (stripes 3) (0x81 ∷ []) (0 ∷ 0 ∷ []) (0x83 ∷ [])
    ≡ some (0x81 ∷ 0x49 ∷ 0x80 ∷ 0x83 ∷ [])
unfolding set_next_bit next_mask flush_full commit write_bytes_at shrink_at
encode_pmap_run = refl
