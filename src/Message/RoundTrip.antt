-- ===== src/Message/RoundTrip.antt =====
-- A message that the encoder sends is received by the decoder, and the two stay in step.
use m_fast.Common.{
  ℕ, ◌+◌, ◌/◌, ◌≡◌, refl, sym, ap, ◌∙◌, subst, Bool, true, false, not, Option, none, some, List,
  ◌∷◌, ◌++◌, append_assoc, ==→eq, not-false, length, arith,
}
use mathlib.Core.Option.{some-injective}
use m_fast.Wire.Outcome.{ok, err, d9, fault, Result}
use m_fast.Wire.IntType.{uint32, InRange}
use m_fast.Wire.IntRoundTrip.{decode_int-encode_int}
use m_fast.Field.Storage.{Slot, Yields}
use m_fast.PresenceMap.Decoder.{DecoderMap, decode_pmap, map_source}
use m_fast.PresenceMap.Encoder.{commit}
use m_fast.PresenceMap.EncoderBits.{falses}
use m_fast.Message.Template.{
  Template, Dictionary, Repository, find_template, begin_dictionary, segment_pmap_size,
}
use m_fast.Message.Encoder.{
  Encoded, encoded, failed, EncoderState, MessageEncoder, same_id, encode_message, visit_template,
  and_then, put_template_id, visit_fields, finish_message,
}
use m_fast.Message.Decoder.{
  MessageDecoder, Message, decode_segment, find_active, finish_segment, decode_fields, on_result,
}
use m_fast.Message.Fields.{
  sending, send_fields, AllReady, SameDictionary, SameFields, Yields-append,
}
use m_fast.Message.FieldsRoundTrip.{FieldsDeliver, send_fields-FieldsDeliver}
use m_fast.Message.Codec.{InStep, begin-SameDictionary}
use m_fast.Message.BitCount.{SetsAll, send_fields-SetsAll}
use m_fast.Message.EncodeRun.{id_bytes, begun, run_message}

-- A message that decodes to the fields `fs` of `t`, and leaves the decoder in step with `e`.
abbrev pub Receives :
    Repository → MessageEncoder → Template → List (Slot ℕ) → Result Message → List ℕ → Type 0
Receives repo e t fs r rest =
    (d : MessageDecoder) × (fs' : List (Slot ℕ)) × (r ≡ ok (d, t, fs') rest)
    × SameFields t.fields fs fs'
    × InStep repo e d

-- The bit for the template id, and what it tells the decoder.
abbrev id_needed : MessageEncoder → Template → Bool
id_needed e t = not (same_id e.active_message_id t.id)

same_id_sound : (o : Option ℕ) (id : ℕ) → same_id o id ≡ true → o ≡ some id
same_id_sound none id h = cc
same_id_sound (some active) id h = ap some (==→eq active id h)

find_active_lem :
    (repo : Repository) (d : MessageDecoder) (t : Template) (needed : Bool) (s : List ℕ)
    → InRange uint32 t.id
    → find_template t.id repo.templates ≡ some t
    → (needed ≡ false → d.active_message ≡ some t)
    → find_active repo needed d (id_bytes needed t.id ++ s) ≡ ok (some t) s
unfolding find_active
find_active_lem repo d t true s r found kept =
    rw ((decode_int-encode_int uint32 t.id false s r tt).0, on_result) (ap (λ o. ok o s) found)
find_active_lem repo d t false s r found kept = ap (λ o. ok o s) (kept refl)

module _ (repo : Repository) (force_reset : Bool) (stored : ℕ → ℕ → Slot ℕ) (d : MessageDecoder)
    (t : Template) where
  abbrev on_active : Option DecoderMap → Option Template → List ℕ → Result Message
  on_active m active s = elim active [
    | none ↦ err d9
    | some u ↦ finish_segment u (
        decode_fields map_source (stored u.id) u.fields
          (begin_dictionary repo force_reset u d.dictionary) m s)
  ]

  -- The decoder behind the presence map.
  segment_read :
      (needed : Bool) (bits : List Bool) (written body s : List ℕ) (m : DecoderMap)
      (m' : Option DecoderMap)
      → decode_pmap (written ++ body) ≡ ok m body
      → Yields map_source (some m) (needed ∷ bits) m'
      → find_active repo needed d body ≡ ok (some t) s
      → decode_segment repo force_reset stored d (written ++ body)
        ≡ on_active (map_source.is_next_bit_set (some m)).1 (some t) s
  unfolding decode_segment
  segment_read needed bits written body s m m' loaded y active =
      let next = (map_source.is_next_bit_set (some m)).1 in
      ap
        (λ r. on_result r λ n rest.
          on_result (find_active repo (map_source.is_next_bit_set (some n)).0 d rest)
            (on_active (map_source.is_next_bit_set (some n)).1))
        loaded
      ∙ ap (λ b. on_result (find_active repo b d body) (on_active next)) y.0
      ∙ ap (λ r. on_result r (on_active next)) active

pub and_then_assoc :
    {A B C : Type 0} (r : Encoded A) (f : A → Encoded B) (g : B → Encoded C)
    → and_then r (λ a. and_then (f a) g) ≡ and_then (and_then r f) g
and_then_assoc (encoded a) f g = refl
and_then_assoc (failed e) f g = refl

module _ (repo : Repository) (force_reset : Bool) (t : Template) (fs : List (Slot ℕ))
    (e : MessageEncoder) (dict' : Dictionary) (bits : List Bool) (bytes room w : List ℕ) where
  abbrev dict : Dictionary
  dict = begin_dictionary repo force_reset t e.dictionary

  -- What `visit_template` makes of the state after the fields.
  encode_message_run :
      (end : EncoderState) (w' : List ℕ)
      → find_template t.id repo.templates ≡ some t
      → length (id_needed e t ∷ bits) ≡ segment_pmap_size t.fields + 1
      → and_then
          (put_template_id (id_needed e t) t.id (begun (length (id_needed e t ∷ bits)) dict room w))
          (visit_fields t.fields fs)
        ≡ encoded end
      → commit true end.map end.stream ≡ some w'
      → encode_message repo true force_reset room t.id fs e w
        ≡ encoded (record { active_message_id = some t.id; dictionary = end.dictionary }, w')
  unfolding encode_message visit_template
  encode_message_run end w' found n run put =
      let close =
        λ (st : EncoderState). finish_message true t.id st (commit true st.map st.stream) in
      ap
        (λ o. elim o [
          | none ↦ failed fault
          | some u ↦ visit_template repo true force_reset room u fs e w
        ])
        found
      ∙ ap
          (λ k.
            and_then (put_template_id (id_needed e t) t.id (begun k dict room w))
              λ st. and_then (visit_fields t.fields fs st) close)
          (sym n)
      ∙ and_then_assoc
          (put_template_id (id_needed e t) t.id (begun (length (id_needed e t ∷ bits)) dict room w))
          (visit_fields t.fields fs) close
      ∙ ap (λ r. and_then r close) run
      ∙ ap (finish_message true t.id end) put

-- A message of integer fields that the encoder writes, on a stream that allows overlong maps, into the
-- room that `init` keeps for its presence map, is decoded into the same fields with any bytes behind it,
-- and encoder and decoder, in step before, are in step again. The template is in the repository and its
-- id is a uint32; the fields fit it, each is present or has no operator, and is as its operator takes it
-- for granted; and no operator refuses its field. Then the encoder does write it.
pub decode_segment-encode_message :
    (repo : Repository) (force_reset : Bool) (stored : ℕ → ℕ → Slot ℕ) (t : Template)
    (fs : List (Slot ℕ)) (e : MessageEncoder) (d : MessageDecoder) (dict' : Dictionary)
    (bits : List Bool) (bytes room w rest : List ℕ)
    → InRange uint32 t.id
    → find_template t.id repo.templates ≡ some t
    → InStep repo e d
    → AllReady t.fields fs (begin_dictionary repo force_reset t e.dictionary)
    → send_fields t.fields fs (begin_dictionary repo force_reset t e.dictionary)
      ≡ sending dict' bits bytes
    → length room ≡ (segment_pmap_size t.fields + 1 + 6) / 7
    → (written : List ℕ) × (e' : MessageEncoder) × (encode_message repo true force_reset room t.id
          fs e w
        ≡ encoded (e', w ++ written))
      × Receives repo e' t fs (decode_segment repo force_reset stored d (written ++ rest)) rest
decode_segment-encode_message repo force stored t fs e d dict' bits bytes room w rest r found step
      ready sends fits =
    let needed = id_needed e t in
    let dict = begin_dictionary repo force t e.dictionary in
    let body = id_bytes needed t.id ++ bytes in
    let count =
      subst (SetsAll (segment_pmap_size t.fields)) sends
        (send_fields-SetsAll t.fields fs dict ready) in
    let n : length (needed ∷ bits) ≡ segment_pmap_size t.fields + 1 = omega (arith, count) in
    let (map_bytes, end, m, m', k, run, same, put, loaded, y) =
      run_message t.fields fs needed t.id dict dict' bits bytes room w sends
        (fits ∙ ap (λ l. (l + 6) / 7) (sym n)) rest in
    let (m2, first, zeros) =
      Yields-append map_source (some m) (some m') (needed ∷ bits) (falses k) y in
    let kept : needed ≡ false → d.active_message ≡ some t = λ h.
      sym (step.active t.id (same_id_sound e.active_message_id t.id (not-false _ h))) ∙ found in
    let (dd', fs', fields, dicts, same_fields) =
      subst
        (FieldsDeliver map_source (stored t.id) t.fields fs
          (begin_dictionary repo force t d.dictionary))
        sends
        (send_fields-FieldsDeliver map_source (stored t.id) t.fields fs dict
          (begin_dictionary repo force t d.dictionary)
          (begin-SameDictionary repo force t e.dictionary d.dictionary step.dictionaries) ready)
        (map_source.is_next_bit_set (some m)).1 m2 rest first.1 in
    let split = append_assoc (id_bytes needed t.id) bytes rest in
    let received =
      ap (decode_segment repo force stored d) (append_assoc map_bytes body rest)
      ∙ segment_read repo force stored d t needed bits map_bytes (body ++ rest) (bytes ++ rest) m m2
          loaded first
          (ap (find_active repo needed d) split
            ∙ find_active_lem repo d t needed (bytes ++ rest) r found kept)
      ∙ ap (finish_segment t) fields in
    (
      map_bytes ++ body,
      record { active_message_id = some t.id; dictionary = end.dictionary },
      encode_message_run repo force t fs e dict' bits bytes room w end _ found n run put,
      (
        record { active_message = some t; dictionary = dd' },
        fs',
        received,
        same_fields,
        record {
          dictionaries = subst (λ u. SameDictionary u dd') (sym same) dicts;
          active = λ id h.
              subst (λ i. find_template i repo.templates ≡ some t) (some-injective _ _ h) found;
        },
      ),
    )
