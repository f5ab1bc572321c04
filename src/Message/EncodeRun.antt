-- ===== src/Message/EncodeRun.antt =====
-- What `encode_message` writes: a presence map, the template id where it is needed, and the fields.
use m_fast.Common.{
  ℕ, ◌+◌, ◌/◌, ◌≡◌, refl, sym, ap, ◌∙◌, subst, Bool, true, false, Option, none, some, List, [], ◌∷◌,
  ◌++◌, append-nil, append_assoc, length, if◌then◌else◌,
}
use mathlib.Core.Option.{none-ne-some}
use m_fast.Wire.Outcome.{ok}
use m_fast.Wire.IntType.{uint32}
use m_fast.Wire.Ostream.{encode_int}
use m_fast.Field.Storage.{Slot, Yields}
use m_fast.PresenceMap.Decoder.{DecoderMap, decode_pmap, map_source}
use m_fast.PresenceMap.Encoder.{init, commit}
use m_fast.PresenceMap.EncoderBits.{falses}
use m_fast.PresenceMap.EncoderRun.{set_bits}
use m_fast.PresenceMap.RoundTrip.{then_commit, decode_pmap-encode_pmap}
use m_fast.Message.Template.{FieldInstruction, Dictionary}
use m_fast.Message.Encoder.{
  EncoderState, encoded, and_then, put_template_id, put_bytes, visit_fields, with_map,
}
use m_fast.Message.Fields.{sending, followed_by, send_fields}
use m_fast.Message.Interleaving.{MapAndStream, set_bits_behind}
use m_fast.Message.Performs.{Performs, and_then-Performs, visit_fields-Performs}

-- The bytes of the template id, which are left out for the template of the message before.
abbrev pub id_bytes : Bool → ℕ → List ℕ
id_bytes needed id = if needed then encode_int uint32 id false false else []

pub put_template_id-Performs :
    (needed : Bool) (id : ℕ) (st : EncoderState)
    → Performs st
        (sending st.dictionary (needed ∷ []) (id_bytes needed id))
        (put_template_id needed id st)
put_template_id-Performs true id st m w e =
    ap
      (λ o.
        and_then (with_map st o) λ st'. encoded (put_bytes (encode_int uint32 id false false) st'))
      e
put_template_id-Performs false id st m w e =
    ap (λ o. and_then (with_map st o) λ st'. encoded st') e
    ∙ ap (λ l. encoded (record { dictionary = st.dictionary; map = m; stream = l }))
        (sym (append-nil w))

committed_of :
    (overlong : Bool) (o : Option MapAndStream) (w : List ℕ)
    → then_commit overlong o ≡ some w
    → (r : MapAndStream) × (o ≡ some r)
committed_of overlong none w e = absurd (none-ne-some w e)
committed_of overlong (some r) w e = (r, refl)

-- The bits of a map fit into the room that `init` keeps for them.
pub bits_fit :
    (b : Bool) (bs : List Bool) (pre room : List ℕ)
    → length room ≡ (length (b ∷ bs) + 6) / 7
    → (r : MapAndStream) × (set_bits (b ∷ bs) (init (length (b ∷ bs)) pre, pre ++ room) ≡ some r)
bits_fit b bs pre room h =
    let (bytes, m, m', k, e, o, y) = decode_pmap-encode_pmap b bs pre room [] [] h in
    let (r, s) = committed_of true _ _ e in
    (
      r,
      subst (λ l. set_bits (b ∷ bs) (init (length (b ∷ bs)) pre, pre ++ l) ≡ some r)
          (append-nil room) s,
    )

-- The state with which `visit_template` begins.
abbrev pub begun : ℕ → Dictionary → List ℕ → List ℕ → EncoderState
begun n dict room w = record { dictionary = dict; map = init n w; stream = w ++ room }

module _ (is : List FieldInstruction) (fs : List (Slot ℕ)) (needed : Bool) (id : ℕ)
    (dict dict' : Dictionary) (bits : List Bool) (bytes room w : List ℕ)
    (sends : send_fields is fs dict ≡ sending dict' bits bytes)
    (fits : length room ≡ (length (needed ∷ bits) + 6) / 7) where
  abbrev st : EncoderState
  st = begun (length (needed ∷ bits)) dict room w

  abbrev body : List ℕ
  body = id_bytes needed id ++ bytes

  all-Performs :
      Performs st
        (sending dict' (needed ∷ bits) body)
        (and_then (put_template_id needed id st) (visit_fields is fs))
  all-Performs =
      subst
        (λ s.
          Performs st (followed_by (needed ∷ []) (id_bytes needed id) s)
            (and_then (put_template_id needed id st) (visit_fields is fs)))
        sends
        (and_then-Performs st (sending dict (needed ∷ []) (id_bytes needed id))
          (put_template_id needed id st) (send_fields is fs) (visit_fields is fs)
          (put_template_id-Performs needed id st) (visit_fields-Performs is fs))

  -- The message behind the stream: the bytes of the map, then the template id and the fields. The map
  -- is loaded from its bytes, and gives the bits in order.
  pub run_message :
      (rest : List ℕ)
      → (written : List ℕ) × (end : EncoderState) × (m : DecoderMap) × (m' : DecoderMap) × (k : ℕ)
        × (and_then (put_template_id needed id st) (visit_fields is fs) ≡ encoded end)
        × (end.dictionary ≡ dict')
        × (commit true end.map end.stream ≡ some (w ++ (written ++ body)))
        × (decode_pmap (written ++ (body ++ rest)) ≡ ok m (body ++ rest))
        × Yields map_source (some m) ((needed ∷ bits) ++ falses k) (some m')
  run_message rest =
      let ((m, v), s) = bits_fit needed bits w room fits in
      let (written, dm, dm', k, e, o, y) =
        decode_pmap-encode_pmap needed bits w room body (body ++ rest) fits in
      let set =
        ap (λ l. set_bits (needed ∷ bits) (init (length (needed ∷ bits)) w, l))
          (sym (append_assoc w room body))
        ∙ set_bits_behind (needed ∷ bits) _ m (w ++ room) v body s in
      (
        written,
        record { dictionary = dict'; map = m; stream = v ++ body },
        dm,
        dm',
        k,
        all-Performs m v s,
        refl,
        sym (ap (then_commit true) set) ∙ e,
        o,
        y,
      )
