-- ===== src/Nested/Encoder.antt =====
-- `fast_encoder_impl` (src/mfast/coder/encoder/fast_encoder.cpp) at groups and sequences.
use m_fast.Common.{
  ℕ, zero, suc, ◌+◌, ◌/◌, ◌%◌, ◌^◌, Bool, true, false, Option, none, some, List, [], ◌∷◌, ◌++◌, ltb,
  length, if◌then◌else◌,
}
use m_fast.Wire.Outcome.{fault}
use m_fast.Wire.Ostream.{encode_null}
use m_fast.Field.Storage.{
  Operator, operator_constant, operator_default, operator_copy, Slot, assign,
}
use m_fast.PresenceMap.Encoder.{EncoderMap, init, commit}
use m_fast.Message.Template.{has_pmap_bit}
use m_fast.Message.Encoder.{
  EncoderState, Encoded, encoded, failed, and_then, put_bits, put_bytes, visit,
}
use m_fast.Nested.Template.{
  Item, leaf, group, optional_group, sequence, optional_sequence, Items, no_items, item, Value,
  Values, length_instruction, items_pmap_size,
}

abbrev pub Run : Type 0
Run = EncoderState → Encoded EncoderState

-- A `value_storage` on the stack
abbrev pub new_storage : Slot ℕ
new_storage = record { defined = false; present = false; content = 0 }

-- `length_mref.as(cref.size())`
abbrev pub length_slot : ℕ → Slot ℕ
length_slot n = assign (n % 2 ^ 32) new_storage

abbrev pub for_each : {A : Type 0} → (A → Run) → List A → Run
for_each f [] st = encoded st
for_each f (x ∷ xs) st = and_then (f x st) (for_each f xs)

-- `commit_pmap`: the map of the segment is written, and the one around it is the current map again.
abbrev pub close_segment : EncoderMap → EncoderState → Option (List ℕ) → Encoded EncoderState
close_segment outer st none = failed fault
close_segment outer st (some w) = encoded (record st { map = outer; stream = w })

-- The operators at which the length of an absent sequence is not sent.
abbrev pub sends_null : Operator → Bool
sends_null operator_constant = false
sends_null operator_default = false
sends_null operator_copy = false
sends_null _ = true

-- `skipped w k` is what `skip` leaves in the buffer behind the bytes `w` for a map of `k` bytes.
module _ (skipped : List ℕ → ℕ → List ℕ) (overlong : Bool) where
  -- From `setup_pmap` to `commit_pmap` where the segment has a presence map.
  unfoldable pub in_segment : ℕ → Run → Run
  in_segment zero body st = body st
  in_segment (suc n) body st =
      and_then
        (body (record st {
          map = init (suc n) st.stream;
          stream = st.stream ++ skipped st.stream ((suc n + 6) / 7);
        }))
        λ st'. close_segment st.map st' (commit overlong st'.map st'.stream)

  unfoldable mutual
    unfolding Value

    -- `visit` of a field, of a group and of a sequence
    pub visit_item : (i : Item) → Value i → Run
    visit_item (leaf i) f st = visit i f st
    visit_item (group is) vs st = in_segment (items_pmap_size is) (visit_items is vs) st
    visit_item (optional_group is) none st = put_bits (false ∷ []) st
    visit_item (optional_group is) (some vs) st =
        and_then (put_bits (true ∷ []) st) (in_segment (items_pmap_size is) (visit_items is vs))
    visit_item (sequence i is) rows st =
        and_then (visit (length_instruction i) (length_slot (length rows)) st) λ st'.
          if ltb 0 (length rows % 2 ^ 32)
          then for_each (λ vs. in_segment (items_pmap_size is) (visit_items is vs)) rows st'
          else encoded st'
    visit_item (optional_sequence i is) none st =
        and_then (if has_pmap_bit i.instruction then put_bits (false ∷ []) st else encoded st)
          λ st'.
            encoded (if sends_null i.instruction.operator then put_bytes encode_null st' else st')
    visit_item (optional_sequence i is) (some rows) st =
        and_then (visit (length_instruction i) (length_slot (length rows)) st) λ st'.
          if ltb 0 (length rows % 2 ^ 32)
          then for_each (λ vs. in_segment (items_pmap_size is) (visit_items is vs)) rows st'
          else encoded st'

    -- The loop over the fields of a group or of an element.
    pub visit_items : (is : Items) → Values is → Run
    visit_items no_items vs st = encoded st
    visit_items (item i is) (v, vs) st = and_then (visit_item i v st) (visit_items is vs)
