-- ===== src/PresenceMap/Decoder.antt =====
-- `decoder_presence_map` (src/mfast/coder/decoder/decoder_presence_map.h), and its loading by
-- `fast_istream` (src/mfast/coder/decoder/fast_istream.h).
use m_fast.Common.{
  ℕ, zero, suc, ◌+◌, ◌*◌, ◌/◌, ◌%◌, ◌^◌, Bool, true, false, Option, none, some, List, [], ◌∷◌, ◌==◌,
  if◌then◌else◌,
}
use m_fast.Wire.Outcome.{Reader, Result, ok, err, buffer_underflow, fault}
use m_fast.Wire.Istream.{has_stop}
use m_fast.Field.Storage.{BitSource}

-- `cur_bitmap_` and `mask_` are 64-bit words. `continue_` is a null pointer or points to bytes of the
-- stream, here the bytes from there on.
pub record DecoderMap : Type 0 where
  pub cur_bitmap : ℕ
  pub mask : ℕ
  pub continue : Option (List ℕ)

abbrev pub map_at : ℕ → ℕ → Option (List ℕ) → DecoderMap
map_at cur mask continue = record { cur_bitmap = cur; mask = mask; continue = continue }

-- The loop of `load`, with the rounds that are left: the answer, the map, and the bytes from `addr` on.
-- `none` is a read beyond the buffer. The new bits come in where the shift leaves zeros.
unfoldable pub load_bytes : ℕ → ℕ → ℕ → List ℕ → Option (Bool × DecoderMap × List ℕ)
load_bytes zero cur mask addr = some (false, map_at cur mask (some addr), addr)
load_bytes (suc i) cur mask [] = none
load_bytes (suc i) cur mask (c ∷ addr) =
    let cur' = cur * 128 % 2 ^ 64 + c % 128 in
    let mask' = mask * 128 % 2 ^ 64 in
    if has_stop c then some (true, map_at cur' mask' none, addr) else load_bytes i cur' mask' addr

-- `load(const char *&addr)`: `sizeof(size_t) * 8 / 7` rounds
unfoldable pub load : ℕ → List ℕ → Option (Bool × DecoderMap × List ℕ)
load cur addr = load_bytes 9 cur 1 addr

-- `(cur_bitmap_ & mask_) != 0` for a mask that is 0 or a single bit, as every mask is.
abbrev pub masked : ℕ → ℕ → Bool
masked cur mask = cur / mask % 2 == 1

-- `mask_ >>= 1` and the test.
abbrev pub shifted : DecoderMap → Bool × DecoderMap
shifted m = (masked m.cur_bitmap (m.mask / 2), record m { mask = m.mask / 2 })

-- `load(continue_)`; the bit is then taken from the map that was loaded.
abbrev pub reload : Option (Bool × DecoderMap × List ℕ) → Option (Bool × DecoderMap)
reload none = none
reload (some (complete, m, addr)) = some (shifted m)

abbrev pub next_from : DecoderMap → Option (List ℕ) → Option (Bool × DecoderMap)
next_from m none = some (shifted m)
next_from m (some addr) = reload (load m.cur_bitmap addr)

-- `is_next_bit_set`; `none` is a read beyond the buffer.
unfoldable pub is_next_bit_set : DecoderMap → Option (Bool × DecoderMap)
is_next_bit_set m = if m.mask / 2 == 0 then next_from m m.continue else some (shifted m)

-- `while (0 == (buf_->sbumpc() & 0x80));`
unfoldable pub skip_to_stop : DecoderMap → Reader DecoderMap
skip_to_stop m [] = err buffer_underflow
skip_to_stop m (c ∷ rest) = if has_stop c then ok m rest else skip_to_stop m rest

abbrev pub after_load : Option (Bool × DecoderMap × List ℕ) → Result DecoderMap
after_load none = err fault
after_load (some (true, m, rest)) = ok m rest
after_load (some (false, m, rest)) = skip_to_stop m rest

-- `fast_istream::decode(decoder_presence_map &)` on a fresh map
unfoldable pub decode_pmap : Reader DecoderMap
decode_pmap s = after_load (load 0 s)

-- The map as the field operators use it. `none` is the map after a read beyond the buffer.
abbrev pub next_of : Option (Bool × DecoderMap) → Bool × Option DecoderMap
next_of none = (false, none)
next_of (some (bit, m)) = (bit, some m)

abbrev pub source_next : Option DecoderMap → Bool × Option DecoderMap
source_next none = (false, none)
source_next (some m) = next_of (is_next_bit_set m)

abbrev pub map_source : BitSource
map_source = record { Map = Option DecoderMap; is_next_bit_set = source_next }
