-- ===== src/PresenceMap/Encoder.antt =====
-- `encoder_presence_map` (src/mfast/coder/encoder/encoder_presence_map.h) on a little-endian machine,
-- with 64-bit words.
use Prim.Native.Nat.{bit_and}
use m_fast.Common.{
  ℕ, zero, suc, ◌+◌, ◌-◌, ◌*◌, ◌/◌, ◌%◌, ◌^◌, Bool, false, not, Option, some, List, [], ◌∷◌, ◌==◌,
  if◌then◌else◌, length,
}
use mathlib.Core.Option
use m_fast.Buffer.Ostreambuf.{write_bytes_at}

pub record EncoderMap : Type 0 where
  pub nbytes : ℕ
  pub value : ℕ
  pub mask : ℕ
  pub offset : ℕ
  pub maxbytes : ℕ

-- The bytes of a word as they lie in memory.
abbrev pub memory_bytes : ℕ → ℕ → List ℕ
memory_bytes zero v = []
memory_bytes (suc n) v = (v % 256) ∷ memory_bytes n (v / 256)

abbrev pub init_mask : ℕ
init_mask = 2 ^ 7

abbrev pub reset : EncoderMap → EncoderMap
reset m = record m { nbytes = 0; value = 0; mask = init_mask }

-- `init` on a map as the constructor leaves it, where the stream has `length` bytes. `skip(maxbytes_)`
-- is `room` behind them.
abbrev pub init : ℕ → List ℕ → EncoderMap
init maxbits w = record {
  nbytes = 0;
  value = 0;
  mask = init_mask;
  offset = length w;
  maxbytes = (maxbits + 6) / 7;
}

-- The bits below are 0 where 1 is put in.
abbrev pub get_next_bit_mask : ℕ → ℕ
get_next_bit_mask zero = 0
get_next_bit_mask (suc i) = get_next_bit_mask i * 256 % 2 ^ 64 + 1

-- The mask and the number of bytes after the first `if`.
unfoldable pub next_mask : EncoderMap → EncoderMap
next_mask m =
    if bit_and m.mask (get_next_bit_mask 8) == 0
    then record m { mask = m.mask / 2 }
    else record m { mask = m.mask * 2 ^ 14 % 2 ^ 64; nbytes = m.nbytes + 1 }

-- What `mask_ == 0` leads to.
unfoldable pub start_word : EncoderMap → EncoderMap
start_word m =
    let r =
      reset (record m { offset = m.offset + 8; maxbytes = (m.maxbytes + 2 ^ 64 - 8) % 2 ^ 64 }) in
    record r { mask = r.mask / 2 }

unfoldable pub flush_full : EncoderMap → List ℕ → Option (EncoderMap × List ℕ)
flush_full m w =
    if m.mask == 0
    then Option.map (λ w'. (start_word m, w'))
        (write_bytes_at (memory_bytes 8 m.value) m.offset false w)
    else some (m, w)

-- `value_ |= mask_` where `mask_` is a single bit.
abbrev pub or_mask : ℕ → ℕ → ℕ
or_mask value mask = if value / mask % 2 == 1 then value else value + mask

abbrev pub put_bit : Bool → EncoderMap → EncoderMap
put_bit v m = if v then record m { value = or_mask m.value m.mask } else m

-- `set_next_bit` on the map and the bytes of the stream; `none` is a failed assertion in
-- `write_bytes_at`.
unfoldable pub set_next_bit : Bool → EncoderMap → List ℕ → Option (EncoderMap × List ℕ)
set_next_bit v m w = Option.map (λ r. (put_bit v r.0, r.1)) (flush_full (next_mask m) w)

-- `commit`; `allow_overlong` is the flag of the stream.
unfoldable pub commit : Bool → EncoderMap → List ℕ → Option (List ℕ)
commit allow_overlong m w =
    let stop_bit_mask = init_mask * 2 ^ (m.nbytes * 8) % 2 ^ 64 in
    write_bytes_at (memory_bytes (m.nbytes + 1) (or_mask m.value stop_bit_mask)) m.offset
      (not allow_overlong) w
