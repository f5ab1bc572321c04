-- ===== src/Nested/Leaf.antt =====
-- A field of an integer, and the length of a sequence that is absent.
use m_fast.Common.{
  ℕ, ◌≡◌, refl, sym, ap, ◌∙◌, subst, inl, inr, Bool, Option, true, List, [], ◌++◌, ◌==◌, ==→eq,
  if-both,
}
use mathlib.Core.Bool.{true≢false}
use m_fast.Wire.IntType.{IntType}
use m_fast.Field.Storage.{operator_none, Slot, Instruction, Yields, save_previous_value}
use m_fast.Field.Encode.{Sent, sent, refused, encode_none}
use m_fast.Field.Decode.{done}
use m_fast.Field.Ints.{encode_field, encode_by, decode_field}
use m_fast.Field.Agreement.{SamePrevious, SameField}
use m_fast.Field.IntRoundTrip.{Encodable, decode_field-encode_field}
use m_fast.PresenceMap.Decoder.{DecoderMap, map_source}
use m_fast.Message.Template.{FieldInstruction, Dictionary, save_at}
use m_fast.Message.Encoder.{perform, visit}
use m_fast.Message.FieldsRoundTrip.{Sent-cases}
use m_fast.Message.Performs.{perform-Performs}
use m_fast.Nested.Decoder.{read_leaf, from_step}
use m_fast.Nested.Plan.{plan_sent, plan_leaf, SameShared, LeafReady}
use m_fast.Nested.Carries.{Carries, in_state}

-- Saving on both sides at one key.
pub save_at-SameShared :
    (shared : ℕ → Bool) (key : ℕ) (pe pd : Slot ℕ) (de dd : Dictionary)
    → (shared key ≡ true → SamePrevious pe pd)
    → SameShared shared de dd
    → SameShared shared (save_at key pe de) (save_at key pd dd)
save_at-SameShared shared key pe pd de dd h same j s =
    if-both SamePrevious (j == key) (j == key) _ _ _ _ refl
      (λ t. h (subst (λ k. shared k ≡ true) (==→eq j key t) s)) (λ _. same j s)

pub SamePrevious-refl : (p : Slot ℕ) → SamePrevious p p
SamePrevious-refl p = record { defined = refl; present = refl; content = λ _. refl }

abbrev bits_of : Sent ℕ → List Bool
bits_of (sent prev bits bytes) = bits
bits_of (refused e) = []

abbrev bytes_of : Sent ℕ → List ℕ
bytes_of (sent prev bits bytes) = bytes
bytes_of (refused e) = []

-- Without an operator what is sent hangs on the field alone.
none_sent :
    (ty : IntType) (inst : Instruction ℕ) (pe pd pe' f : Slot ℕ) (bits : List Bool) (bytes : List ℕ)
    → inst.operator ≡ operator_none
    → encode_field ty inst pe f ≡ sent pe' bits bytes
    → encode_field ty inst pd f ≡ sent (save_previous_value inst f pd) bits bytes
unfolding encode_by encode_none
none_sent ty inst pe pd pe' f bits bytes o e =
    let at = λ (p : Slot ℕ). ap (λ op. encode_by ty op inst p f) o in
    let same = sym (at pe) ∙ e in
    at pd ∙ (λ i. sent (save_previous_value inst f pd) (bits_of (same i)) (bytes_of (same i)))

none_Encodable :
    (ty : IntType) (inst : Instruction ℕ) (pe f : Slot ℕ)
    → inst.operator ≡ operator_none
    → Encodable ty inst pe f inst.operator
none_Encodable ty inst pe f o = subst (Encodable ty inst pe f) (sym o) tt

module _ (shared : ℕ → Bool) (i : FieldInstruction) (f held : Slot ℕ) (de : Dictionary)
    (ready : LeafReady shared i (de i.key) f) where
  -- The field is received, and the previous values agree where the key is shared.
  leaf_agrees :
      (pe : Slot ℕ) (bits : List Bool) (bytes : List ℕ) (dd : Dictionary)
      (dm dm' : Option DecoderMap) (rest : List ℕ)
      → encode_field i.type i.instruction (de i.key) f ≡ sent pe bits bytes
      → SameShared shared de dd
      → Yields map_source dm bits dm'
      → (pd : Slot ℕ) × (f' : Slot ℕ) × (decode_field i.type map_source i.instruction
            (dd i.key)
            held
            dm
            (bytes ++ rest)
          ≡ done pd f' dm' rest)
        × (shared i.key ≡ true → SamePrevious pe pd)
        × SameField i.instruction f f'
  leaf_agrees pe bits bytes dd dm dm' rest e same y = elim ready.known [
    | inl s ↦
        let (pd, f', eq, sp, sf) =
          decode_field-encode_field i.type map_source i.instruction f held (de i.key) (dd i.key) pe
            bits bytes rest dm dm' ready.range ready.representable (same i.key s) ready.encodable e
            y in
        (pd, f', eq, λ _. sp, sf)
    | inr (o, u) ↦
        let (pd, f', eq, sp, sf) =
          decode_field-encode_field i.type map_source i.instruction f held (dd i.key) (dd i.key) _
            bits bytes rest dm dm' ready.range ready.representable (SamePrevious-refl (dd i.key))
            (none_Encodable i.type i.instruction (dd i.key) f o)
            (none_sent i.type i.instruction (de i.key) (dd i.key) pe f bits bytes o e) y in
        (pd, f', eq, λ s. absurd (true≢false (sym s ∙ u)), sf)
  ]

  pub leaf-Carries :
      Carries shared de
        (visit i f)
        (read_leaf i held)
        (SameField i.instruction f)
        (plan_leaf i f de)
  leaf-Carries =
      let C = λ (x : Sent ℕ).
        Carries shared de (visit i f) (read_leaf i held) (SameField i.instruction f)
          (plan_sent i.key de x) in
      elim (Sent-cases (encode_field i.type i.instruction (de i.key) f)) [
        | inr (e, x) ↦ subst C (sym x) tt
        | inl (pe, bits, bytes, x) ↦ subst C (sym x) λ map m stream w fits. (
          bytes,
          ap (λ y. perform i.key y (in_state de map stream)) x
              ∙ perform-Performs i.key (sent pe bits bytes) (in_state de map stream) m w fits,
          λ a g dd same dm dm' rest y.
              let (pd, f', eq, sp, sf) = leaf_agrees pe bits bytes dd dm dm' rest x same y in
              (
                save_at i.key pd dd,
                f',
                ap (from_step i.key dd) eq,
                save_at-SameShared shared i.key pe pd de dd sp same,
                sf,
              ),
        )
      ]
