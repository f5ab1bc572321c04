-- ===== src/Text/DeltaRoundTrip.antt =====
-- The delta operator at strings and byte vectors: what the encoder sends, the decoder receives.
use m_fast.Common.{
  ℕ, ◌^◌, ◌<◌, ◌-◌, ◌≡◌, refl, sym, ap, subst, ◌∙◌, Bool, true, false, Option, none, some, List, [],
  ◌∷◌, ◌++◌, append_assoc, length, All, if-elim, if-true, option-elim, arith,
}
use mathlib.Core.Option
use m_fast.Wire.Groups.{IsGroup}
use m_fast.Wire.Outcome.{Result, ok, err, bind_result, return}
use m_fast.Wire.IntType.{int32}
use m_fast.Wire.Istream.{decode_int, decode_bytes, extract_ascii, clear_stop}
use m_fast.Wire.Ostream.{encode_int, encode_null, encode_bytes}
use m_fast.Wire.IntRoundTrip.{decode_int-encode_int, decode_null}
use m_fast.Wire.StringRoundTrip.{IsAscii, extract_ascii-encode_ascii, decode_bytes-encode_bytes}
use m_fast.Field.Storage.{
  Slot, Instruction, absent, as_field, assign, is_nullable, is_constant, save_previous_value,
}
use m_fast.Field.Decode.{Step, done, on_read, delta_base_value_of}
use m_fast.Field.Encode.{Sent, sent, refused}
use m_fast.Text.Delta.{
  TextType, ascii, unicode, byte_vector, encode_text, decode_text, copy_string_raw, string_delta,
  Memory, outgrows, read_base, subtracted, apply_string_delta, join_delta, applied,
}
use m_fast.Text.Operators.{encode_text_delta, decode_text_delta, text_save_to, on_applied}
use m_fast.Text.Mismatch.{IsLetter, Rebuilds, RebuildsIfAny, Rebuilds-string_delta}

-- What the encoder takes for granted about a text: `resize` asserts its length, and an ascii string has
-- no NUL and no bit 0x80.
abbrev pub IsText : TextType → List ℕ → Type 0
IsText ascii str = (length str < 2 ^ 31) × All IsLetter str
IsText ty str = length str < 2 ^ 31

groups : (str : List ℕ) → All IsLetter str → All IsGroup str
groups [] h = tt
groups (c ∷ str) h = (h.0.1, groups str h.1)

letters-IsAscii : (str : List ℕ) → All IsLetter str → IsAscii str
letters-IsAscii [] h = tt
letters-IsAscii (c ∷ []) h = h.0.1
letters-IsAscii (c ∷ d ∷ str) h = (h.0.0, groups (c ∷ d ∷ str) h)

-- Reading back the delta: the bytes that `decode` points to, and what `copy_string_raw` makes of them.
abbrev pub Reads : TextType → List ℕ → List ℕ → Result (Option (List ℕ)) → Type 0
Reads ty str rest r = (raw : List ℕ) × (r ≡ ok (some raw) rest) × (copy_string_raw ty raw ≡ str)

Reads-bind_result :
    (str rest : List ℕ) (r : Result (Option (List ℕ)))
    → bind_result r (λ s. return (Option.map clear_stop s)) ≡ ok (some str) rest
    → Reads ascii str rest r
unfolding copy_string_raw
Reads-bind_result str rest (ok none end) h = cc
Reads-bind_result str rest (ok (some raw) end) h = (raw, cc, cc)
Reads-bind_result str rest (err e) h = cc

Reads-decode_bytes :
    (ty : TextType) (str rest : List ℕ) (r : Result (Option (List ℕ)))
    → copy_string_raw ty str ≡ str
    → r ≡ ok (some str) rest
    → Reads ty str rest r
Reads-decode_bytes ty str rest r c h = (str, h, c)

bytes_read :
    (nullable : Bool) (str rest : List ℕ)
    → length str < 2 ^ 31
    → decode_bytes nullable (encode_bytes (some str) nullable ++ rest) ≡ ok (some str) rest
bytes_read nullable str rest h = (decode_bytes-encode_bytes nullable str rest (omega arith)).0

pub Reads-encode_text :
    (ty : TextType) (nullable : Bool) (str rest : List ℕ)
    → IsText ty str
    → Reads ty str rest (decode_text ty nullable (encode_text ty str nullable ++ rest))
unfolding decode_text encode_text copy_string_raw extract_ascii
Reads-encode_text ascii nullable str rest h =
    Reads-bind_result str rest _
      (extract_ascii-encode_ascii nullable str rest (letters-IsAscii str h.1)).0
Reads-encode_text unicode nullable str rest h =
    Reads-decode_bytes unicode str rest _ refl (bytes_read nullable str rest h)
Reads-encode_text byte_vector nullable str rest h =
    Reads-decode_bytes byte_vector str rest _ refl (bytes_read nullable str rest h)

-- The encoder's outcome `e` is received: no bit is used, and the decoder ends with the encoder's
-- previous value, with the field as it was sent, and behind the bytes.
abbrev pub Received :
    {M : Type 0}
    → Instruction (List ℕ)
    → Slot (List ℕ)
    → Slot (List ℕ)
    → (M → List ℕ → Step (List ℕ) M)
    → Sent (List ℕ)
    → Type 0
Received {M = M} inst f fd decode (sent pe bits bytes) =
    (bits ≡ [])
    × ((m : M) (rest : List ℕ) → decode m (bytes ++ rest) ≡ done pe (as_field inst f fd) m rest)
Received inst f fd decode (refused e) = Unit

nullable_of_absent :
    (inst : Instruction (List ℕ)) (f : Slot (List ℕ))
    → is_constant inst.operator ≡ false
    → absent inst f ≡ true
    → is_nullable inst ≡ true
nullable_of_absent inst f c a = ground arith

null_read :
    (nullable : Bool) (rest : List ℕ)
    → nullable ≡ true
    → decode_int int32 nullable (encode_null ++ rest) ≡ ok none rest
unfolding encode_int
null_read nullable rest e = rw e (decode_null int32 0 rest)

pub base_bound :
    (inst : Instruction (List ℕ)) (p : Slot (List ℕ)) (base : List ℕ)
    → length p.content < 2 ^ 31
    → length inst.initial.content < 2 ^ 31
    → delta_base_value_of [] inst p ≡ some base
    → length base < 2 ^ 31
unfolding delta_base_value_of
base_bound inst p base h i e = ground (arith, h, i)

pub piece-IsText :
    (ty : TextType) (str base : List ℕ) (d : ℕ × List ℕ)
    → IsText ty str
    → Rebuilds str base d
    → IsText ty d.1
piece-IsText ascii str base d t r = (omega (arith, t.0, r.shorter), r.piece t.1)
piece-IsText unicode str base d t r = omega (arith, t, r.shorter)
piece-IsText byte_vector str base d t r = omega (arith, t, r.shorter)

read_joined :
    (ty : TextType) (mem : Memory) (base : List ℕ) (sub : ℕ) (raw str : List ℕ)
    → join_delta ty base sub raw ≡ applied str
    → apply_string_delta ty mem base sub raw
      ≡ read_base mem (length base - subtracted sub) (applied str)
unfolding apply_string_delta
read_joined ty mem base sub raw str h = ap (read_base mem (length base - subtracted sub)) h

module _ {M : Type 0} (ty : TextType) (mem : Memory) (inst : Instruction (List ℕ))
    (f fd p : Slot (List ℕ)) (c : is_constant inst.operator ≡ false) where
  delta_absent :
      (m : M) (rest : List ℕ)
      → absent inst f ≡ true
      → decode_text_delta ty mem inst p fd m (encode_null ++ rest)
        ≡ done p (as_field inst f fd) m rest
  unfolding decode_text_delta
  delta_absent m rest a =
      rw (null_read (is_nullable inst) rest (nullable_of_absent inst f c a))
        (sym (ap (λ g. done p g m rest) (if-true _ _ a)))

  -- What becomes of a text, the delta of which is read: the kept part of the base value can be read or
  -- not.
  pub delta_read :
      (sub : ℕ) (delta base : List ℕ) (m : M) (rest : List ℕ)
      → delta_base_value_of [] inst p ≡ some base
      → IsText ty delta
      → Rebuilds f.content base (sub, delta)
      → decode_text_delta ty mem inst p fd m
          ((encode_int int32 sub false (is_nullable inst) ++ encode_text ty delta false) ++ rest)
        ≡ on_applied p
            (read_base mem (length base - subtracted sub) (applied f.content))
            λ str. done (text_save_to (assign str fd)) (assign str fd) m rest
  unfolding decode_text_delta
  delta_read sub delta base m rest b t h =
      let (raw, read, copied) = Reads-encode_text ty false delta rest t in
      rw
        (
          append_assoc (encode_int int32 sub false (is_nullable inst)) (encode_text ty delta false)
              rest,
          (decode_int-encode_int int32 sub (is_nullable inst) (encode_text ty delta false ++ rest)
              h.range tt).0,
        )
        (rw (on_read, b)
          (rw h.fits (
            rw (read, on_read)
              (rw (read_joined ty mem base sub raw f.content (h.apply ty raw copied)) refl))))

  delta_present :
      (sub : ℕ) (delta base : List ℕ) (m : M) (rest : List ℕ)
      → absent inst f ≡ false
      → delta_base_value_of [] inst p ≡ some base
      → IsText ty delta
      → Rebuilds f.content base (sub, delta)
      → outgrows mem (length f.content) ≡ false
      → decode_text_delta ty mem inst p fd m
          ((encode_int int32 sub false (is_nullable inst) ++ encode_text ty delta false) ++ rest)
        ≡ done (save_previous_value inst f p) (as_field inst f fd) m rest
  unfolding text_save_to
  delta_present sub delta base m rest a b t h room =
      delta_read sub delta base m rest b t h ∙ rw (room, a) refl

-- A text that the delta operator sends, or an absent field, is received; the base value and the text
-- are as the operator takes them for granted.
text_delta-Received :
    (M : Type 0) (ty : TextType) (mem : Memory) (inst : Instruction (List ℕ))
    (f fd p : Slot (List ℕ))
    → is_constant inst.operator ≡ false
    → IsText ty f.content
    → length p.content < 2 ^ 31
    → length inst.initial.content < 2 ^ 31
    → outgrows mem (length f.content) ≡ false
    → Received inst f fd
        (decode_text_delta {M = M} ty mem inst p fd)
        (encode_text_delta ty inst p f)
unfolding encode_text_delta
text_delta-Received M ty mem inst f fd p c t h i room =
    let D = Received inst f fd (decode_text_delta {M = M} ty mem inst p fd) in
    if-elim D (absent inst f) _ _
      (λ a. (refl, λ m rest. delta_absent ty mem inst f fd p c m rest a))
      (λ a.
        option-elim D (delta_base_value_of [] inst p) _ _ (λ _. tt)
          (λ base b.
            option-elim D (string_delta f.content base) _ _ (λ _. tt)
              (λ d e.
                let r =
                  subst (RebuildsIfAny f.content base) e
                    (Rebuilds-string_delta f.content base (base_bound inst p base h i b)) in
                (
                  refl,
                  λ m rest.
                      delta_present ty mem inst f fd p c d.0 d.1 base m rest a b
                        (piece-IsText ty f.content base d t r) r room,
                ))))

-- A text or an absent field that the delta operator sends, from the previous value that the decoder
-- has too, is received as it was sent: the decoder ends with the encoder's previous value, takes
-- exactly the bytes that were sent and no bit. The text, the previous and the initial value are shorter
-- than 2 ^ 31, and an ascii text has no NUL and no bit 0x80. The text does not outgrow the block of the
-- field where the base value stands in it.
pub decode_text_delta-encode_text_delta :
    {M : Type 0} (ty : TextType) (mem : Memory) (inst : Instruction (List ℕ))
    (f fd p p' : Slot (List ℕ)) (bits : List Bool) (bytes rest : List ℕ) (m : M)
    → is_constant inst.operator ≡ false
    → IsText ty f.content
    → length p.content < 2 ^ 31
    → length inst.initial.content < 2 ^ 31
    → outgrows mem (length f.content) ≡ false
    → encode_text_delta ty inst p f ≡ sent p' bits bytes
    → (bits ≡ [])
      × (decode_text_delta ty mem inst p fd m (bytes ++ rest) ≡ done p' (as_field inst f fd) m rest)
decode_text_delta-encode_text_delta {M = M} ty mem inst f fd p p' bits bytes rest m c t h i room e =
    let (none_used, received) =
      subst (Received inst f fd (decode_text_delta {M = M} ty mem inst p fd)) e
        (text_delta-Received M ty mem inst f fd p c t h i room) in
    (none_used, received m rest)
