-- ===== src/Message/Fields.antt =====
-- What the loop over the fields of a message sends, as one list of bits and one list of bytes, and that
-- the decoder's loop receives it.
use m_fast.Common.{
  ℕ, ◌≡◌, refl, Bool, true, false, not, ◌||◌, List, [], ◌∷◌, ◌++◌, ◌==◌, if◌then◌else◌, if-both,
}
use m_fast.Wire.Outcome.{Error}
use m_fast.Wire.IntType.{InRange}
use m_fast.Wire.IntRoundTrip.{Representable}
use m_fast.Field.Storage.{Slot, BitSource, Yields, absent, is_nullable}
use m_fast.Field.Encode.{Sent, sent, refused}
use m_fast.Field.Ints.{encode_field}
use m_fast.Field.Agreement.{SamePrevious, SameField}
use m_fast.Field.IntRoundTrip.{Encodable}
use m_fast.Message.Template.{FieldInstruction, Dictionary, save_at, has_pmap_bit}
use m_fast.Message.Encoder.{is_none}
use m_fast.Message.Decoder.{Decoded, decoded}

-- What fields send: the dictionary afterwards, the bits and the bytes.
pub data Sending : Type 0 where
  sending : Dictionary → List Bool → List ℕ → Sending
  stopped : Error → Sending

abbrev pub from_sent : ℕ → Dictionary → Sent ℕ → Sending
from_sent key dict (sent prev bits bytes) = sending (save_at key prev dict) bits bytes
from_sent key dict (refused e) = stopped e

abbrev pub followed_by : List Bool → List ℕ → Sending → Sending
followed_by bits bytes (sending dict bits' bytes') = sending dict (bits ++ bits') (bytes ++ bytes')
followed_by bits bytes (stopped e) = stopped e

abbrev pub then_send : Sending → (Dictionary → Sending) → Sending
then_send (sending dict bits bytes) go = followed_by bits bytes (go dict)
then_send (stopped e) go = stopped e

unfoldable pub send_field : FieldInstruction → Slot ℕ → Dictionary → Sending
send_field i f dict =
    if not (absent i.instruction f) || is_none i.instruction.operator
    then from_sent i.key dict (encode_field i.type i.instruction (dict i.key) f)
    else sending dict (if has_pmap_bit i.instruction then false ∷ [] else []) []

unfoldable pub send_fields : List FieldInstruction → List (Slot ℕ) → Dictionary → Sending
send_fields (i ∷ is) (f ∷ fs) dict = then_send (send_field i f dict) (send_fields is fs)
send_fields _ _ dict = sending dict [] []

-- Two dictionaries that agree at every key.
abbrev pub SameDictionary : Dictionary → Dictionary → Type 0
SameDictionary de dd = (key : ℕ) → SamePrevious (de key) (dd key)

pub save_at-SameDictionary :
    (key : ℕ) (pe pd : Slot ℕ) (de dd : Dictionary)
    → SamePrevious pe pd
    → SameDictionary de dd
    → SameDictionary (save_at key pe de) (save_at key pd dd)
save_at-SameDictionary key pe pd de dd h same j =
    if-both SamePrevious (j == key) (j == key) _ _ _ _ refl (λ _. h) (λ _. same j)

-- The fields that were encoded and those that were decoded.
abbrev pub SameFields : List FieldInstruction → List (Slot ℕ) → List (Slot ℕ) → Type 0
SameFields [] [] [] = Unit
SameFields (i ∷ is) (f ∷ fs) (f' ∷ fs') = SameField i.instruction f f' × SameFields is fs fs'
SameFields _ _ _ = ⊥

-- What the encoder takes for granted about a field, given its previous value: it is present or has no
-- operator, and what `encode_field` takes for granted.
pub record Ready (i : FieldInstruction) (pe f : Slot ℕ) : Type 0 where
  pub visited : (not (absent i.instruction f) || is_none i.instruction.operator) ≡ true
  pub range : InRange i.type f.content
  pub representable : Representable i.type f.content (is_nullable i.instruction)
  pub encodable : Encodable i.type i.instruction pe f i.instruction.operator

-- Whatever is sent first is followed by something that is taken for granted.
abbrev pub ReadyAfter : Sending → (Dictionary → Type 0) → Type 0
ReadyAfter (sending dict bits bytes) P = P dict
ReadyAfter (stopped e) P = Unit

-- The fields fit the template, and each is ready when its turn comes.
unfoldable pub AllReady : List FieldInstruction → List (Slot ℕ) → Dictionary → Type 0
AllReady [] [] dict = Unit
AllReady (i ∷ is) (f ∷ fs) dict =
    Ready i (dict i.key) f × ReadyAfter (send_field i f dict) (AllReady is fs)
AllReady _ _ dict = ⊥

-- The decoder's loop ends with the map `m'` and the rest, and agrees with the encoder's.
abbrev pub FieldsAgree :
    {M : Type 0}
    → List FieldInstruction
    → List (Slot ℕ)
    → Dictionary
    → Decoded M
    → M
    → List ℕ
    → Type 0
FieldsAgree is fs de' d m' rest =
    (dd' : Dictionary) × (fs' : List (Slot ℕ)) × (d ≡ decoded dd' fs' m' rest)
    × SameDictionary de' dd'
    × SameFields is fs fs'

-- Reading bits in two parts.
pub Yields-append :
    (src : BitSource) (m m' : src.Map) (bs cs : List Bool)
    → Yields src m (bs ++ cs) m'
    → (n : src.Map) × Yields src m bs n × Yields src n cs m'
Yields-append src m m' [] cs y = (m, refl, y)
Yields-append src m m' (b ∷ bs) cs y =
    let (n, first, second) = Yields-append src (src.is_next_bit_set m).1 m' bs cs y.1 in
    (n, (y.0, first), second)
