-- ===== src/Nested/MessageRun.antt =====
-- A message as the encoder writes it: a presence map, the template id where it is needed, and the
-- fields, groups and sequences (src/mfast/coder/encoder/fast_encoder.cpp).
use m_fast.Common.{
  ℕ, ◌+◌, ◌/◌, ◌≡◌, refl, sym, ap, ◌∙◌, subst, Bool, true, false, not, ◌||◌, Option, none, some,
  List, [], ◌∷◌, ◌++◌, append_assoc, length, if◌then◌else◌, if-true,
}
use m_fast.Wire.Outcome.{ok, err}
use m_fast.Wire.IntType.{uint32, InRange}
use m_fast.Wire.IntRoundTrip.{decode_int-encode_int}
use m_fast.Field.Storage.{Slot, Yields, absent}
use m_fast.PresenceMap.Decoder.{DecoderMap, decode_pmap, map_source}
use m_fast.PresenceMap.Encoder.{init, commit}
use m_fast.PresenceMap.EncoderBits.{falses}
use m_fast.PresenceMap.EncoderRun.{set_bits}
use m_fast.PresenceMap.RoundTrip.{then_commit, map_written}
use m_fast.Message.Template.{Dictionary}
use m_fast.Message.Encoder.{
  EncoderState, Encoded, encoded, failed, and_then, put_template_id, is_none, visit_in_message,
}
use m_fast.Message.EncodeRun.{id_bytes, bits_fit, put_template_id-Performs}
use m_fast.Message.Fields.{Yields-append}
use m_fast.Message.Interleaving.{set_bits_behind, set_bits_parts}
use m_fast.Nested.Template.{
  leaf, group, optional_group, sequence, optional_sequence, Items, no_items, item, Value, Values,
}
use m_fast.Nested.Encoder.{Run, visit_item, visit_items}
use m_fast.Nested.Decoder.{got, threw, then_read, read_items}
use m_fast.Nested.Plan.{planned, plan_items, SameShared, SameValues, ItemsReady}
use m_fast.Nested.Carries.{Carries, in_state}
use m_fast.Nested.RoundTrip.{items-Carries}
use m_fast.Nested.Message.{visit_message_item, visit_message_items, read_id, read_template_id}

-- The fields of the message itself, outside groups and sequences, are present or have no operator.
unfoldable pub AllVisited : (is : Items) → Values is → Type 0
unfolding Value
AllVisited no_items vs = Unit
AllVisited (item (leaf i) is) (v, vs) =
    ((not (absent i.instruction v) || is_none i.instruction.operator) ≡ true) × AllVisited is vs
AllVisited (item i is) (v, vs) = AllVisited is vs

-- Steps behind one result.
and_then_same :
    (r : Encoded EncoderState) (f g : Run)
    → ((st : EncoderState) → f st ≡ g st)
    → and_then r f ≡ and_then r g
and_then_same (encoded st) f g h = h st
and_then_same (failed e) f g h = refl

module _ (skipped : List ℕ → ℕ → List ℕ) (overlong : Bool) where
  visit_message_items-visit_items :
      (is : Items) (vs : Values is) (st : EncoderState)
      → AllVisited is vs
      → visit_message_items skipped overlong is vs st ≡ visit_items skipped overlong is vs st
  unfolding Value visit_message_items visit_message_item visit_item AllVisited visit_in_message
  visit_message_items-visit_items no_items vs st h = refl
  visit_message_items-visit_items (item (leaf i) is) (v, vs) st h =
      ap (λ r. and_then r (visit_message_items skipped overlong is vs)) (if-true _ _ h.0)
      ∙ and_then_same _ _ _ (λ st'. visit_message_items-visit_items is vs st' h.1)
  visit_message_items-visit_items (item (group j) is) (v, vs) st h =
      and_then_same _ _ _ (λ st'. visit_message_items-visit_items is vs st' h)
  visit_message_items-visit_items (item (optional_group j) is) (v, vs) st h =
      and_then_same _ _ _ (λ st'. visit_message_items-visit_items is vs st' h)
  visit_message_items-visit_items (item (sequence i j) is) (v, vs) st h =
      and_then_same _ _ _ (λ st'. visit_message_items-visit_items is vs st' h)
  visit_message_items-visit_items (item (optional_sequence i j) is) (v, vs) st h =
      and_then_same _ _ _ (λ st'. visit_message_items-visit_items is vs st' h)

-- The bit and the bytes of the template id are read back.
id_read :
    (needed : Bool) (id : ℕ) (dict : Dictionary) (dm dm' : Option DecoderMap) (rest : List ℕ)
    → InRange uint32 id
    → Yields map_source dm (needed ∷ []) dm'
    → read_template_id dict dm (id_bytes needed id ++ rest)
      ≡ got dict (if needed then some id else none) dm' rest
unfolding read_template_id
id_read true id dict dm dm' rest r y =
    (λ j. then_read (got dict (y.0 j) (y.1 j) (id_bytes true id ++ rest)) read_id)
    ∙ ap (λ q. elim q [ ok n s ↦ got dict n dm' s | err e ↦ threw e ])
        (decode_int-encode_int uint32 id false rest r tt).0
id_read false id dict dm dm' rest r y = λ j. then_read (got dict (y.0 j) (y.1 j) rest) read_id

-- `skipped` leaves as many bytes as it is asked for; `shared` tells the keys that fields share.
module _ (shared : ℕ → Bool) (skipped : List ℕ → ℕ → List ℕ)
    (skips : (w : List ℕ) (k : ℕ) → length (skipped w k) ≡ k) (held : List ℕ → Slot ℕ)
    (kept : (is : Items) → List (Values is)) where
  -- How the decoder takes a message apart: the map, the template id, the fields.
  abbrev pub Parts :
      (is : Items) → Values is → Dictionary → Dictionary → Option ℕ → List ℕ → List ℕ → Type 0
  Parts is vs dict' dd o s rest =
      (m : DecoderMap) × (m1 : Option DecoderMap) × (m2 : Option DecoderMap) × (rest1 : List ℕ)
      × (rest2 : List ℕ) × (dd' : Dictionary) × (vs' : Values is) × (decode_pmap s ≡ ok m rest1)
      × ((d : Dictionary) → read_template_id d (some m) rest1 ≡ got d o m1 rest2)
      × (read_items held kept [] is dd m1 rest2 ≡ got dd' vs' m2 rest)
      × SameShared shared dict' dd'
      × SameValues is vs vs'

  -- The message behind the stream `w`, which the decoder takes apart.
  pub message_run :
      (is : Items) (vs : Values is) (dict dict' dd : Dictionary) (needed : Bool) (id : ℕ)
      (bits : List Bool) (w rest : List ℕ)
      → ItemsReady shared is vs dict
      → AllVisited is vs
      → plan_items is vs dict ≡ planned dict' bits
      → InRange uint32 id
      → SameShared shared dict dd
      → (bytes : List ℕ) × (end : EncoderState) × (and_then
            (put_template_id needed id (
              in_state dict
                (init (length (needed ∷ bits)) w)
                (w ++ skipped w ((length (needed ∷ bits) + 6) / 7))))
            (visit_message_items skipped true is vs)
          ≡ encoded end)
        × (end.dictionary ≡ dict')
        × (commit true end.map end.stream ≡ some (w ++ bytes))
        × Parts is vs dict' dd (if needed then some id else none) (bytes ++ rest) rest
  message_run is vs dict dict' dd needed id bits w rest ready visited plan r same =
      let n = length (needed ∷ bits) in
      let room = skipped w ((n + 6) / 7) in
      let fits = skips w ((n + 6) / 7) in
      let ids = id_bytes needed id in
      let ((mi, wi), s) = bits_fit needed bits w room fits in
      let ((m0, w0), s1, s2) = set_bits_parts (needed ∷ []) bits (init n w, w ++ room) (mi, wi) s in
      let carries =
        subst
          (Carries shared dict (visit_items skipped true is vs) (read_items held kept [] is)
            (SameValues is vs))
          plan (items-Carries shared skipped skips held kept [] is vs dict ready) in
      let (bytes, ran, recv) =
        carries m0 mi (w0 ++ ids) (wi ++ ids) (set_bits_behind bits m0 mi w0 wi ids s2) in
      let body = ids ++ bytes in
      let (mb, put, load) = map_written needed bits w room body fits in
      let set =
        ap (λ l. set_bits (needed ∷ bits) (init n w, l)) (sym (append_assoc w room body))
        ∙ set_bits_behind (needed ∷ bits) _ mi (w ++ room) wi body s in
      let (m, m3, k, loaded, ys) = load (body ++ rest) in
      let (m2, first, zeros) =
        Yields-append map_source (some m) (some m3) (needed ∷ bits) (falses k) ys in
      let m1 = (map_source.is_next_bit_set (some m)).1 in
      let (dd', vs', eq, same', sv) = recv tt tt dd same m1 m2 rest first.1 in
      (
        mb ++ body,
        in_state dict' mi ((wi ++ ids) ++ bytes),
        ap (λ q. and_then q (visit_message_items skipped true is vs))
              (put_template_id-Performs needed id (in_state dict (init n w) (w ++ room)) m0 w0 s1)
            ∙ visit_message_items-visit_items skipped true is vs (in_state dict m0 (w0 ++ ids))
                visited
            ∙ ran,
        refl,
        ap (commit true mi) (append_assoc wi ids bytes) ∙ sym (ap (then_commit true) set) ∙ put,
        (
          m,
          m1,
          m2,
          body ++ rest,
          bytes ++ rest,
          dd',
          vs',
          ap decode_pmap (append_assoc mb body rest) ∙ loaded,
          λ d.
              ap (read_template_id d (some m)) (append_assoc ids bytes rest)
              ∙ id_read needed id d (some m) m1 (bytes ++ rest) r (first.0, refl),
          eq,
          same',
          sv,
        ),
      )
