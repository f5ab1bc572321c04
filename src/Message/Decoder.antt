-- ===== src/Message/Decoder.antt =====
-- `fast_decoder_impl` (src/mfast/coder/decoder/fast_decoder.cpp) at messages of integer fields.
use m_fast.Common.{ℕ, suc, Bool, false, Option, none, some, List, [], ◌∷◌, if◌then◌else◌}
use m_fast.Wire.Outcome.{Error, d9, Result, ok, err}
use m_fast.Wire.IntType.{uint32}
use m_fast.Wire.Istream.{decode_int}
use m_fast.Field.Storage.{Slot, BitSource}
use m_fast.Field.Decode.{Step, done, thrown}
use m_fast.Field.Ints.{decode_field}
use m_fast.PresenceMap.Decoder.{DecoderMap, decode_pmap, map_source}
use m_fast.Message.Template.{
  FieldInstruction, Template, Dictionary, save_at, Repository, find_template, begin_dictionary,
}

-- How a run over fields ends: with the dictionary, the fields, the presence map and the rest of the
-- stream, or with an exception.
pub data Decoded (M : Type 0) : Type 0 where
  decoded : Dictionary → List (Slot ℕ) → M → List ℕ → Decoded M
  aborted : Error → Decoded M

abbrev pub with_field : {M : Type 0} → Slot ℕ → Decoded M → Decoded M
with_field f (decoded dict fs m s) = decoded dict (f ∷ fs) m s
with_field f (aborted e) = aborted e

-- The field is put before those that are decoded after it.
abbrev pub after_field :
    {M : Type 0} → ℕ → Dictionary → Step ℕ M → (Dictionary → M → List ℕ → Decoded M) → Decoded M
after_field key dict (done prev f m s) go = with_field f (go (save_at key prev dict) m s)
after_field key dict (thrown e prev) go = aborted e

-- The loop over the fields in `decode_segment`; `held i` is the storage of the field at `i` before.
module _ (src : BitSource) where
  unfoldable pub decode_fields :
      (ℕ → Slot ℕ) → List FieldInstruction → Dictionary → src.Map → List ℕ → Decoded src.Map
  decode_fields held [] dict m s = decoded dict [] m s
  decode_fields held (i ∷ is) dict m s =
      after_field i.key dict (decode_field i.type src i.instruction (dict i.key) (held 0) m s)
        (decode_fields (λ n. held (suc n)) is)

-- `fast_decoder_impl` between two segments: `active_message_` and the dictionary
pub record MessageDecoder : Type 0 where
  pub active_message : Option Template
  pub dictionary : Dictionary

-- A message that was decoded: what the decoder goes on with, its template and its fields.
abbrev pub Message : Type 0
Message = MessageDecoder × Template × List (Slot ℕ)

abbrev pub on_result {ℓ κ} :
    {A : Type ℓ} {B : Type κ} → Result A → (A → List ℕ → Result B) → Result B
on_result (ok a s) go = go a s
on_result (err e) go = err e

-- `active_message_` after the first `if`
unfoldable pub find_active : Repository → Bool → MessageDecoder → List ℕ → Result (Option Template)
find_active repo bit d s =
    if bit
    then (on_result (decode_int uint32 false s)
        λ id rest. ok (elim id [ none ↦ none | some n ↦ find_template n repo.templates ]) rest)
    else ok d.active_message s

abbrev pub finish_segment : Template → Decoded (Option DecoderMap) → Result Message
finish_segment t (decoded dict fs m s) =
    ok (record { active_message = some t; dictionary = dict }, t, fs) s
finish_segment t (aborted e) = err e

-- `decode_segment`; `stored id` is the message object of a template.
unfoldable pub decode_segment :
    Repository → Bool → (ℕ → ℕ → Slot ℕ) → MessageDecoder → List ℕ → Result Message
decode_segment repo force_reset stored d s = on_result (decode_pmap s) λ m rest.
    let (bit, m') = map_source.is_next_bit_set (some m) in
    on_result (find_active repo bit d rest) λ active rest'. elim active [
      | none ↦ err d9
      | some t ↦ finish_segment t (
          decode_fields map_source (stored t.id) t.fields
            (begin_dictionary repo force_reset t d.dictionary) m' rest')
    ]
