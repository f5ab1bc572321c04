-- ===== src/Nested/Decoder.antt =====
-- `fast_decoder_impl` (src/mfast/coder/decoder/fast_decoder.cpp) at groups and sequences.
use m_fast.Common.{ℕ, zero, suc, Bool, Option, none, some, List, [], ◌∷◌, if◌then◌else◌}
use m_fast.Wire.Outcome.{Error, ok, err}
use m_fast.Field.Storage.{Slot, absent}
use m_fast.Field.Decode.{Step, done, thrown}
use m_fast.Field.Ints.{decode_field}
use m_fast.PresenceMap.Decoder.{DecoderMap, decode_pmap, map_source}
use m_fast.Message.Template.{FieldInstruction, Dictionary, save_at}
use m_fast.Nested.Template.{
  Item, leaf, group, optional_group, sequence, optional_sequence, Items, no_items, item, Value,
  Values, length_instruction, items_pmap_size,
}
use m_fast.Nested.Encoder.{new_storage}

-- How reading ends: with the dictionary, what was read, the current map and the rest of the stream, or
-- with an exception.
pub data Read (A : Type 0) : Type 0 where
  got : Dictionary → A → Option DecoderMap → List ℕ → Read A
  threw : Error → Read A

abbrev pub Reader : Type 0 → Type 0
Reader A = Dictionary → Option DecoderMap → List ℕ → Read A

abbrev pub then_read : {A B : Type 0} → Read A → (A → Reader B) → Read B
then_read (got dict a m s) f = f a dict m s
then_read (threw e) f = threw e

abbrev pub bind : {A B : Type 0} → Reader A → (A → Reader B) → Reader B
bind r f dict m s = then_read (r dict m s) f

abbrev pub give : {A : Type 0} → A → Reader A
give a dict m s = got dict a m s

-- What was read, put into the value around it.
abbrev pub read_as : {A B : Type 0} → (A → B) → Reader A → Reader B
read_as f r = bind r λ a. give (f a)

-- `current_pmap().is_next_bit_set()`
abbrev pub read_bit : Reader Bool
read_bit dict m s = let (bit, m') = map_source.is_next_bit_set m in got dict bit m' s

abbrev pub from_step : ℕ → Dictionary → Step ℕ (Option DecoderMap) → Read (Slot ℕ)
from_step key dict (done prev f m s) = got (save_at key prev dict) f m s
from_step key dict (thrown e prev) = threw e

-- `visit(SimpleMRef)`; `held` is the field's storage before.
abbrev pub read_leaf : FieldInstruction → Slot ℕ → Reader (Slot ℕ)
read_leaf i held dict m s =
    from_step i.key dict (decode_field i.type map_source i.instruction (dict i.key) held m s)

-- `restore_pmap`
abbrev pub restore : {A : Type 0} → Option DecoderMap → Read A → Read A
restore outer (got dict a m s) = got dict a outer s
restore outer (threw e) = threw e

-- From `decode_pmap` to `restore_pmap` where the segment has a presence map.
unfoldable pub read_segment : {A : Type 0} → ℕ → Reader A → Reader A
read_segment zero body dict m s = body dict m s
read_segment (suc n) body dict m s = elim (decode_pmap s) [
  | ok inner rest ↦ restore m (body dict (some inner) rest)
  | err e ↦ threw e
]

-- The loop over the elements of a sequence.
unfoldable pub read_times : {A : Type 0} → ℕ → Reader A → Reader (List A)
read_times zero body = give []
read_times (suc n) body = bind body λ a. read_as (λ rows. a ∷ rows) (read_times n body)

-- `held` gives the storage of a field before, by its place, and `kept` the elements that a mandatory
-- sequence has before, which stay where the length is absent.
module _ (held : List ℕ → Slot ℕ) (kept : (is : Items) → List (Values is)) where
  unfoldable mutual
    unfolding Value

    pub read_item : List ℕ → (i : Item) → Reader (Value i)
    read_item place (leaf i) = read_leaf i (held place)
    read_item place (group is) = read_segment (items_pmap_size is) (read_items place is)
    read_item place (optional_group is) = bind read_bit λ bit.
        if bit
        then read_as some (read_segment (items_pmap_size is) (read_items place is))
        else give none
    read_item place (sequence i is) = bind (read_leaf (length_instruction i) new_storage) λ f.
        if absent i.instruction f
        then give (kept is)
        else read_times f.content (read_segment (items_pmap_size is) (read_items place is))
    read_item place (optional_sequence i is) =
        bind (read_leaf (length_instruction i) new_storage) λ f.
          if absent i.instruction f
          then give none
          else read_as some
              (read_times f.content (read_segment (items_pmap_size is) (read_items place is)))

    pub read_items : List ℕ → (is : Items) → Reader (Values is)
    read_items place no_items = give tt
    read_items place (item i is) =
        bind (read_item (0 ∷ place) i) λ v. read_as (λ vs. (v, vs)) (read_items (1 ∷ place) is)
