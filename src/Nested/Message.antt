-- ===== src/Nested/Message.antt =====
-- Messages with groups and sequences: `visit(message_cref)` of
-- src/mfast/coder/encoder/fast_encoder.cpp and `decode_segment` of
-- src/mfast/coder/decoder/fast_decoder.cpp.
use m_fast.Common.{
  ℕ, ◌+◌, ◌/◌, Bool, true, false, not, ◌||◌, Option, none, some, List, [], ◌∷◌, ◌++◌, ◌==◌,
  if◌then◌else◌,
}
use m_fast.Wire.Outcome.{d9, fault, ok, err}
use m_fast.Wire.IntType.{uint32}
use m_fast.Wire.Istream.{decode_int}
use m_fast.Field.Storage.{Slot}
use m_fast.PresenceMap.Decoder.{decode_pmap}
use m_fast.PresenceMap.Encoder.{init, commit}
use m_fast.Message.Template.{Dictionary, reset_dictionary}
use m_fast.Message.Encoder.{
  EncoderState, Encoded, encoded, failed, and_then, visit_in_message, put_template_id,
  MessageEncoder, same_id, finish_message,
}
use m_fast.Nested.Template.{
  Item, leaf, group, optional_group, sequence, optional_sequence, Items, no_items, item, Value,
  Values, items_pmap_size,
}
use m_fast.Nested.Encoder.{Run, visit_item}
use m_fast.Nested.Decoder.{Read, got, threw, Reader, bind, read_as, read_bit, read_items}

-- `template_instruction`
pub record MessageTemplate : Type 0 where
  pub id : ℕ
  pub reset : Bool
  pub items : Items

pub record MessageRepository : Type 0 where
  pub templates : List MessageTemplate
  pub reset_entries : List ℕ

unfoldable pub find_message_template : ℕ → List MessageTemplate → Option MessageTemplate
find_message_template id [] = none
find_message_template id (t ∷ ts) = if t.id == id then some t else find_message_template id ts

abbrev pub begin_message : MessageRepository → Bool → MessageTemplate → Dictionary → Dictionary
begin_message repo force_reset t dict =
    if force_reset || t.reset then reset_dictionary repo.reset_entries dict else dict

module _ (skipped : List ℕ → ℕ → List ℕ) (overlong : Bool) where
  -- The body of the loop over the fields: only a field with an operator is passed over when it is
  -- absent, since groups and sequences have no operator.
  unfoldable pub visit_message_item : (i : Item) → Value i → Run
  unfolding Value
  visit_message_item (leaf i) f st = visit_in_message i f st
  visit_message_item (group is) v st = visit_item skipped overlong (group is) v st
  visit_message_item (optional_group is) v st = visit_item skipped overlong (optional_group is) v st
  visit_message_item (sequence i is) v st = visit_item skipped overlong (sequence i is) v st
  visit_message_item (optional_sequence i is) v st =
      visit_item skipped overlong (optional_sequence i is) v st

  unfoldable pub visit_message_items : (is : Items) → Values is → Run
  unfolding Value
  visit_message_items no_items vs st = encoded st
  visit_message_items (item i is) (v, vs) st =
      and_then (visit_message_item i v st) (visit_message_items is vs)

  -- `visit(message_cref, force_reset)` behind the bytes `w`.
  unfoldable pub visit_nested :
      MessageRepository
      → Bool
      → (t : MessageTemplate) → Values t.items
      → MessageEncoder
      → List ℕ
      → Encoded (MessageEncoder × List ℕ)
  visit_nested repo force_reset t vs e w =
      let n = items_pmap_size t.items + 1 in
      let begun : EncoderState = record {
        dictionary = begin_message repo force_reset t e.dictionary;
        map = init n w;
        stream = w ++ skipped w ((n + 6) / 7);
      } in
      and_then (put_template_id (not (same_id e.active_message_id t.id)) t.id begun) λ st.
        and_then (visit_message_items t.items vs st)
          λ st'. finish_message overlong t.id st' (commit overlong st'.map st'.stream)

  -- `visit(message_cref, force_reset)` from the start; `message` is the message's storage as the fields
  -- of a template. `find` answers with a null pointer for an id that is not there, and
  -- `*this->find(template_id)` goes through it before the test for D9.
  unfoldable pub encode_nested :
      MessageRepository
      → Bool
      → ℕ
      → ((t : MessageTemplate) → Values t.items)
      → MessageEncoder
      → List ℕ
      → Encoded (MessageEncoder × List ℕ)
  encode_nested repo force_reset id message e w = elim (find_message_template id repo.templates) [
    | none ↦ failed fault
    | some t ↦ visit_nested repo force_reset t (message t) e w
  ]

-- A message that was decoded, with its template.
abbrev pub NestedMessage : Type 0
NestedMessage = (t : MessageTemplate) × Values t.items

-- `strm_.decode(template_id, false)` where the bit is set; `decode` of a field that is not nullable
-- never gives a null.
abbrev pub read_id : Bool → Reader (Option ℕ)
read_id true dict m s = elim (decode_int uint32 false s) [
  | ok id rest ↦ got dict id m rest
  | err e ↦ threw e
]
read_id false dict m s = got dict none m s

unfoldable pub read_template_id : Reader (Option ℕ)
read_template_id = bind read_bit read_id

-- `active_message_` after the first `if`
abbrev pub active_template :
    MessageRepository → Option MessageTemplate → Option ℕ → Option MessageTemplate
active_template repo active none = active
active_template repo active (some id) = find_message_template id repo.templates

module _ (held : List ℕ → Slot ℕ) (kept : (is : Items) → List (Values is)) where
  -- The fields of the template that was found, from the dictionary that it begins with.
  unfoldable pub read_message :
      MessageRepository → Bool → Option MessageTemplate → Reader NestedMessage
  read_message repo force_reset none dict m s = threw d9
  read_message repo force_reset (some t) dict m s =
      read_as (λ vs. (t, vs)) (read_items held kept [] t.items)
        (begin_message repo force_reset t dict) m s

  -- `decode_segment`; `active` is `active_message_`.
  unfoldable pub decode_nested :
      MessageRepository → Bool → Option MessageTemplate → Dictionary → List ℕ → Read NestedMessage
  decode_nested repo force_reset active dict s = elim (decode_pmap s) [
    | ok m rest ↦
        bind read_template_id (λ o. read_message repo force_reset (active_template repo active o))
          dict (some m) rest
    | err e ↦ threw e
  ]
