-- ===== src/Message/Performs.antt =====
-- The fields set their bits and write their bytes in turn: that ends as if all bits had been set first
-- and all bytes written then.
use m_fast.Common.{
  ℕ, ◌≡◌, refl, sym, ap, ◌∙◌, Bool, true, false, not, ◌||◌, some, List, [], ◌∷◌, ◌++◌, append_assoc,
  append-nil, if◌then◌else◌, if-both,
}
use mathlib.Core.Option.{some-injective}
use m_fast.Field.Storage.{Slot, absent}
use m_fast.Field.Encode.{Sent, sent, refused}
use m_fast.Field.Ints.{encode_field}
use m_fast.PresenceMap.Encoder.{EncoderMap}
use m_fast.PresenceMap.EncoderRun.{set_bits}
use m_fast.Message.Template.{FieldInstruction, Dictionary, save_at, has_pmap_bit}
use m_fast.Message.Encoder.{
  EncoderState, Encoded, encoded, and_then, with_map, put_bits, put_bytes, perform,
  visit_in_message, visit_fields, is_none,
}
use m_fast.Message.Fields.{
  Sending, sending, stopped, from_sent, followed_by, then_send, send_field, send_fields,
}
use m_fast.Message.Interleaving.{set_bits_behind, set_bits_parts}

-- A step from `st` does what the sending says: if the bits fit into the map, it ends with the
-- dictionary, the map with the bits, and the bytes behind the stream.
abbrev pub Performs : EncoderState → Sending → Encoded EncoderState → Type 0
Performs st (sending dict bits bytes) r =
    (m : EncoderMap) (w : List ℕ)
    → set_bits bits (st.map, st.stream) ≡ some (m, w)
    → r ≡ encoded (record { dictionary = dict; map = m; stream = w ++ bytes })
Performs st (stopped e) r = Unit

pub perform-Performs :
    (key : ℕ) (x : Sent ℕ) (st : EncoderState)
    → Performs st (from_sent key st.dictionary x) (perform key x st)
unfolding perform
perform-Performs key (refused e) st = tt
perform-Performs key (sent prev bits bytes) st = λ m w e.
    let dict = save_at key prev st.dictionary in
    ap
      (λ o.
        and_then (with_map (record st { dictionary = dict }) o)
          λ st'. encoded (put_bytes bytes st'))
      e

skip-Performs :
    (bit : Bool) (st : EncoderState)
    → Performs st
        (sending st.dictionary (if bit then false ∷ [] else []) [])
        (if bit then put_bits (false ∷ []) st else encoded st)
skip-Performs true st m w e =
    ap (with_map st) e
    ∙ ap (λ l. encoded (record { dictionary = st.dictionary; map = m; stream = l }))
        (sym (append-nil w))
skip-Performs false st m w e =
    let same = some-injective _ _ e in
    λ i. encoded (record {
      dictionary = st.dictionary;
      map = (same i).0;
      stream = (ap (λ p. p.1) same ∙ sym (append-nil w)) i;
    })

visit_in_message-Performs :
    (i : FieldInstruction) (f : Slot ℕ) (st : EncoderState)
    → Performs st (send_field i f st.dictionary) (visit_in_message i f st)
unfolding send_field visit_in_message
visit_in_message-Performs i f st =
    let b = not (absent i.instruction f) || is_none i.instruction.operator in
    if-both (Performs st) b b _ _ _ _ refl
      (λ _. perform-Performs i.key (encode_field i.type i.instruction (st.dictionary i.key) f) st)
      (λ _. skip-Performs (has_pmap_bit i.instruction) st)

followed-Performs :
    (st : EncoderState) (dict : Dictionary) (bits : List Bool) (bytes : List ℕ)
    (r : Encoded EncoderState) (y : Sending) (k : EncoderState → Encoded EncoderState)
    → Performs st (sending dict bits bytes) r
    → ((m : EncoderMap) (w : List ℕ)
        → let st' : EncoderState = record { dictionary = dict; map = m; stream = w ++ bytes } in
          Performs st' y (k st'))
    → Performs st (followed_by bits bytes y) (and_then r k)
followed-Performs st dict bits bytes r (stopped e) k h step = tt
followed-Performs st dict bits bytes r (sending dict' bits' bytes') k h step = λ m w e.
    let ((n, v), first, second) = set_bits_parts bits bits' (st.map, st.stream) (m, w) e in
    ap (λ q. and_then q k) (h n v first)
    ∙ step n v m (w ++ bytes) (set_bits_behind bits' n m v w bytes second)
    ∙ ap (λ l. encoded (record { dictionary = dict'; map = m; stream = l }))
        (append_assoc w bytes bytes')

-- One step behind another.
pub and_then-Performs :
    (st : EncoderState) (x : Sending) (r : Encoded EncoderState) (go : Dictionary → Sending)
    (k : EncoderState → Encoded EncoderState)
    → Performs st x r
    → ((st' : EncoderState) → Performs st' (go st'.dictionary) (k st'))
    → Performs st (then_send x go) (and_then r k)
and_then-Performs st (stopped e) r go k h step = tt
and_then-Performs st (sending dict bits bytes) r go k h step =
    followed-Performs st dict bits bytes r (go dict) k h
      (λ m w. step (record { dictionary = dict; map = m; stream = w ++ bytes }))

-- The loop over the fields of a message does what the list of their bits and the list of their bytes say:
-- if the bits, set one after another, fit into the map, it ends with the previous values saved, the map
-- with all bits set, and all bytes behind the stream, although bits and bytes take turns.
pub visit_fields-Performs :
    (is : List FieldInstruction) (fs : List (Slot ℕ)) (st : EncoderState)
    → Performs st (send_fields is fs st.dictionary) (visit_fields is fs st)
unfolding send_fields visit_fields
visit_fields-Performs [] fs st = skip-Performs false st
visit_fields-Performs (i ∷ is) [] st = skip-Performs false st
visit_fields-Performs (i ∷ is) (f ∷ fs) st =
    and_then-Performs st (send_field i f st.dictionary) (visit_in_message i f st)
      (send_fields is fs) (visit_fields is fs) (visit_in_message-Performs i f st)
      (visit_fields-Performs is fs)
