-- ===== src/Message/Encoder.antt =====
-- `fast_encoder_impl` (src/mfast/coder/encoder/fast_encoder.cpp) at messages of integer fields.
use m_fast.Common.{
  ℕ, ◌+◌, Bool, true, false, not, ◌||◌, Option, none, some, List, [], ◌∷◌, ◌++◌, ◌==◌,
  if◌then◌else◌,
}
use m_fast.Wire.Outcome.{Error, fault}
use m_fast.Wire.IntType.{uint32}
use m_fast.Wire.Ostream.{encode_int}
use m_fast.Field.Storage.{Operator, operator_none, Slot, absent}
use m_fast.Field.Encode.{Sent, sent, refused}
use m_fast.Field.Ints.{encode_field}
use m_fast.PresenceMap.Encoder.{EncoderMap, init, commit}
use m_fast.PresenceMap.EncoderRun.{set_bits}
use m_fast.Message.Template.{
  FieldInstruction, Template, Dictionary, save_at, Repository, find_template, begin_dictionary,
  has_pmap_bit, segment_pmap_size,
}

-- What the calls work on: the dictionary, the presence map `*current_`, and the bytes of the stream.
pub record EncoderState : Type 0 where
  pub dictionary : Dictionary
  pub map : EncoderMap
  pub stream : List ℕ

-- How a step ends. `fault` is a failed assertion in `write_bytes_at`.
pub data Encoded (A : Type 0) : Type 0 where
  encoded : A → Encoded A
  failed : Error → Encoded A

abbrev pub and_then : {A B : Type 0} → Encoded A → (A → Encoded B) → Encoded B
and_then (encoded a) f = f a
and_then (failed e) f = failed e

-- `set_next_bit` on the current map, once for each bit
abbrev pub with_map : EncoderState → Option (EncoderMap × List ℕ) → Encoded EncoderState
with_map st none = failed fault
with_map st (some (m, w)) = encoded (record st { map = m; stream = w })

abbrev pub put_bits : List Bool → EncoderState → Encoded EncoderState
put_bits bits st = with_map st (set_bits bits (st.map, st.stream))

abbrev pub put_bytes : List ℕ → EncoderState → EncoderState
put_bytes bytes st = record st { stream = st.stream ++ bytes }

-- What an operator does to the state: each sets its bits before it writes.
unfoldable pub perform : ℕ → Sent ℕ → EncoderState → Encoded EncoderState
perform key (refused e) st = failed e
perform key (sent prev bits bytes) st =
    and_then (put_bits bits (record st { dictionary = save_at key prev st.dictionary }))
      λ st'. encoded (put_bytes bytes st')

-- `visit(SimpleCRef)`
abbrev pub visit : FieldInstruction → Slot ℕ → EncoderState → Encoded EncoderState
visit i f st = perform i.key (encode_field i.type i.instruction (st.dictionary i.key) f) st

abbrev pub is_none : Operator → Bool
is_none operator_none = true
is_none _ = false

-- The body of the loop over the fields in `visit(message_cref)`.
unfoldable pub visit_in_message : FieldInstruction → Slot ℕ → EncoderState → Encoded EncoderState
visit_in_message i f st =
    if not (absent i.instruction f) || is_none i.instruction.operator
    then visit i f st
    else (if has_pmap_bit i.instruction then put_bits (false ∷ []) st else encoded st)

unfoldable pub visit_fields :
    List FieldInstruction → List (Slot ℕ) → EncoderState → Encoded EncoderState
visit_fields (i ∷ is) (f ∷ fs) st = and_then (visit_in_message i f st) (visit_fields is fs)
visit_fields _ _ st = encoded st

-- `fast_encoder_impl` between two messages: `active_message_id_` (-1 is `none`) and the dictionary
pub record MessageEncoder : Type 0 where
  pub active_message_id : Option ℕ
  pub dictionary : Dictionary

abbrev pub same_id : Option ℕ → ℕ → Bool
same_id none id = false
same_id (some active) id = active == id

-- The bit and the bytes for the template id.
abbrev pub put_template_id : Bool → ℕ → EncoderState → Encoded EncoderState
put_template_id needed id st =
    and_then (put_bits (needed ∷ []) st)
      λ st'. encoded (if needed then put_bytes (encode_int uint32 id false false) st' else st')

abbrev pub finish_message :
    Bool → ℕ → EncoderState → Option (List ℕ) → Encoded (MessageEncoder × List ℕ)
finish_message overlong id st none = failed fault
finish_message overlong id st (some w) =
    encoded (record { active_message_id = some id; dictionary = st.dictionary }, w)

-- `visit(message_cref, force_reset)` from `current_pmap().init` on, behind the bytes `w`. `room` is what `skip` leaves for the map: any
-- `(segment_pmap_size() + 1 + 6) / 7` bytes.
unfoldable pub visit_template :
    Repository
    → Bool
    → Bool
    → List ℕ
    → Template
    → List (Slot ℕ)
    → MessageEncoder
    → List ℕ
    → Encoded (MessageEncoder × List ℕ)
visit_template repo overlong force_reset room t fs e w =
    let begun : EncoderState = record {
      dictionary = begin_dictionary repo force_reset t e.dictionary;
      map = init (segment_pmap_size t.fields + 1) w;
      stream = w ++ room;
    } in
    and_then (put_template_id (not (same_id e.active_message_id t.id)) t.id begun) λ st.
      and_then (visit_fields t.fields fs st)
        λ st'. finish_message overlong t.id st' (commit overlong st'.map st'.stream)

-- `visit(message_cref, force_reset)` from the start. `find` answers with a null pointer for an id that is
-- not there, and `*this->find(template_id)` goes through it before the test for D9.
unfoldable pub encode_message :
    Repository
    → Bool
    → Bool
    → List ℕ
    → ℕ
    → List (Slot ℕ)
    → MessageEncoder
    → List ℕ
    → Encoded (MessageEncoder × List ℕ)
encode_message repo overlong force_reset room id fs e w = elim (find_template id repo.templates) [
  | none ↦ failed fault
  | some t ↦ visit_template repo overlong force_reset room t fs e w
]
