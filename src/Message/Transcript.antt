-- ===== src/Message/Transcript.antt =====
-- Messages one after another, as an encoder writes them over its life and a decoder reads them.
use m_fast.Common.{ℕ, ◌+◌, ◌/◌, ◌≡◌, Bool, true, List, [], ◌∷◌, length, some}
use m_fast.Wire.Outcome.{ok, Result}
use m_fast.Wire.IntType.{uint32, InRange}
use m_fast.Field.Storage.{Slot}
use m_fast.Message.Template.{
  Template, Dictionary, Repository, find_template, begin_dictionary, segment_pmap_size,
}
use m_fast.Message.Encoder.{encoded, MessageEncoder, encode_message}
use m_fast.Message.Decoder.{MessageDecoder, decode_segment, on_result}
use m_fast.Message.Fields.{sending, send_fields, AllReady, SameFields}

-- What the encoder takes for granted about a message of the template `t`, in the state `e`.
pub record Accepted (repo : Repository) (force : Bool) (t : Template) (fs : List (Slot ℕ))
    (e : MessageEncoder) (room : List ℕ) : Type 0 where
  pub id_range : InRange uint32 t.id
  pub found : find_template t.id repo.templates ≡ some t
  pub ready : AllReady t.fields fs (begin_dictionary repo force t e.dictionary)
  pub dictionary : Dictionary
  pub bits : List Bool
  pub bytes : List ℕ
  pub sends :
      send_fields t.fields fs (begin_dictionary repo force t e.dictionary)
      ≡ sending dictionary bits bytes
  pub kept : length room ≡ (segment_pmap_size t.fields + 1 + 6) / 7

-- A message as it was handed to the encoder, with `force_reset`.
pub record Request : Type 0 where
  pub force_reset : Bool
  pub template : Template
  pub fields : List (Slot ℕ)

-- The encoder goes from one state to another by encoding messages, each behind the stream as it is, and
-- leaves the bytes of all of them on it.
pub data Encodes (repo : Repository)
    : MessageEncoder → List ℕ → List Request → MessageEncoder → List ℕ → Type 0 where
  nothing : {e : MessageEncoder} {w : List ℕ} → Encodes repo e w [] e w
  message :
      {q : Request} {qs : List Request} {room w w' w'' : List ℕ} {e e' e'' : MessageEncoder}
      → Accepted repo q.force_reset q.template q.fields e room
      → encode_message repo true q.force_reset room q.template.id q.fields e w ≡ encoded (e', w')
      → Encodes repo e' w' qs e'' w''
      → Encodes repo e w (q ∷ qs) e'' w''

-- What was decoded: the template and the fields of each message.
abbrev pub Received : Type 0
Received = List (Template × List (Slot ℕ))

abbrev pub SameMessages : List Request → Received → Type 0
SameMessages [] [] = Unit
SameMessages (q ∷ qs) ((t, fs) ∷ ms) =
    (q.template ≡ t) × SameFields q.template.fields q.fields fs × SameMessages qs ms
SameMessages _ _ = ⊥

-- `fast_decoder::decode` again and again, from where the call before ended.
unfoldable pub decode_all :
    Repository
    → (ℕ → ℕ → Slot ℕ)
    → List Request
    → MessageDecoder
    → List ℕ
    → Result (MessageDecoder × Received)
decode_all repo stored [] d s = ok (d, []) s
decode_all repo stored (q ∷ qs) d s =
    on_result (decode_segment repo q.force_reset stored d s) λ (d', t, fs) rest.
      on_result (decode_all repo stored qs d' rest) λ (d'', ms) end. ok (d'', (t, fs) ∷ ms) end
