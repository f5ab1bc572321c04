-- ===== src/Field/CopyRoundTrip.antt =====
-- The copy, increment and default operators at integer fields: what the encoder sends, the decoder
-- receives.
use m_fast.Common.{
  ℕ, ◌≡◌, sym, ◌∙◌, ap, Bool, true, false, not, List, ◌++◌, arith, if-elim, not-true, not-false,
}
use m_fast.Wire.IntType.{IntType, InRange}
use m_fast.Wire.IntRoundTrip.{Representable}
use m_fast.Field.Storage.{
  Slot, Instruction, BitSource, Yields, absent, omit, assign, is_nullable, is_constant,
  save_previous_value, mandatory_without_initial_value,
}
use m_fast.Field.Decode.{Step, done, read_and_save, decode_previous, decode_copy}
use m_fast.Field.Encode.{
  Sent, sent, refused, insert_field, encode_copy, save_and_skip, save_and_write,
}
use m_fast.Field.Ints.{int_kind, int_save_to, int_is_initial_value, int_to_initial_value}
use m_fast.Field.Agreement.{
  SamePrevious, SameField, Agrees, saved-SamePrevious, received, received-SameField,
  extract_into-insert_field,
}

-- Whatever the encoder sends is received: `decode` turns the bits and the bytes, with any rest behind
-- them, into a field and a previous value that agree with the encoder's. An exception sends nothing.
abbrev pub Delivers :
    (src : BitSource) (inst : Instruction ℕ) (f : Slot ℕ)
    → (src.Map → List ℕ → Step ℕ src.Map)
    → Sent ℕ
    → Type 0
Delivers src inst f decode (sent pe bits bytes) =
    (m m' : src.Map) (rest : List ℕ)
    → Yields src m bits m'
    → Agrees inst f pe (decode m (bytes ++ rest)) m' rest
Delivers src inst f decode (refused e) = Unit

-- A decoder that saves a field which agrees.
pub saved_Agrees :
    {M : Type 0} (inst : Instruction ℕ) (f f' pe pd : Slot ℕ) (step : Step ℕ M) (m : M)
    (rest : List ℕ)
    → SameField inst f f'
    → step ≡ done (int_save_to inst f' pd) f' m rest
    → Agrees inst f (save_previous_value inst f pe) step m rest
saved_Agrees inst f f' pe pd step m rest same e =
    (int_save_to inst f' pd, f', e, saved-SamePrevious inst f f' pe pd same, same)

module _ (ty : IntType) (src : BitSource) (inst : Instruction ℕ) (f fd pe pd : Slot ℕ)
    (c : is_constant inst.operator ≡ false) (r : InRange ty f.content)
    (k : Representable ty f.content (is_nullable inst)) where
  open src use {Map, is_next_bit_set}

  -- Where the value was written.
  pub read_and_save-Agrees :
      (m : Map) (rest : List ℕ)
      → Agrees inst f
          (save_previous_value inst f pe)
          (read_and_save (int_kind ty) src inst pd fd m (insert_field (int_kind ty) inst f ++ rest))
          m
          rest
  read_and_save-Agrees m rest =
      saved_Agrees inst f (received inst f fd) pe pd _ m rest (received-SameField inst f fd)
        (rw (extract_into-insert_field ty src inst f fd rest c r k))

-- What the initial value does where `is_initial_value` answers true.
pub initial-SameField :
    (inst : Instruction ℕ) (f : Slot ℕ)
    → int_is_initial_value inst f ≡ true
    → SameField inst f inst.initial
unfolding int_is_initial_value
initial-SameField inst f i = ground arith

initial_given :
    (inst : Instruction ℕ) (f : Slot ℕ)
    → int_is_initial_value inst f ≡ true
    → mandatory_without_initial_value inst ≡ false
unfolding int_is_initial_value
initial_given inst f i = ground arith

pub optional_of_absent :
    (inst : Instruction ℕ) (f : Slot ℕ) → absent inst f ≡ true → inst.optional ≡ true
optional_of_absent inst f a = ground arith

-- The three states of the previous value where the bit is not set.
module _ (ty : IntType) (src : BitSource) (operation : ℕ → ℕ) (inst : Instruction ℕ)
    (pd fd : Slot ℕ) (m : src.Map) (s : List ℕ) where
  abbrev from_previous : Step ℕ src.Map
  from_previous = decode_previous (int_kind ty) src operation inst pd fd m s

  previous_undefined :
      pd.defined ≡ false
      → mandatory_without_initial_value inst ≡ false
      → from_previous ≡ done (int_save_to inst inst.initial pd) inst.initial m s
  unfolding decode_previous int_to_initial_value
  previous_undefined u g = rw (u, g)

  previous_empty :
      pd.defined ≡ true
      → pd.present ≡ false
      → inst.optional ≡ true
      → from_previous ≡ done pd (omit inst fd) m s
  unfolding decode_previous
  previous_empty d n o = rw (d, n, o)

  previous_assigned :
      pd.defined ≡ true
      → pd.present ≡ true
      → from_previous
        ≡ done (record pd { content = operation pd.content }) (assign (operation pd.content) fd) m s
  unfolding decode_previous
  previous_assigned d p = rw (d, p)

module _ (ty : IntType) (src : BitSource) (operation : ℕ → ℕ)
    (is_op : Instruction ℕ → Slot ℕ → Slot ℕ → Bool) (inst : Instruction ℕ) (f fd pe pd : Slot ℕ)
    (c : is_constant inst.operator ≡ false) (r : InRange ty f.content)
    (k : Representable ty f.content (is_nullable inst)) (same : SamePrevious pe pd)
    (sound : pe.defined ≡ true
      → pe.present ≡ true
      → is_op inst f pe ≡ true
      → (absent inst f ≡ false) × (f.content ≡ operation pe.content)) where
  open src use {Map, is_next_bit_set}

  abbrev decode : Map → List ℕ → Step ℕ Map
  decode m s = decode_copy (int_kind ty) src operation inst pd fd m s

  write_Delivers : Delivers src inst f decode (save_and_write (int_kind ty) inst pe f)
  unfolding decode_copy
  write_Delivers m m' rest (h, e) =
      rw (h, ← e) (read_and_save-Agrees ty src inst f fd pe pd c r k (is_next_bit_set m).1 rest)

  initial_Delivers :
      pe.defined ≡ false
      → int_is_initial_value inst f ≡ true
      → Delivers src inst f decode (save_and_skip (int_kind ty) inst pe f)
  unfolding decode_copy
  initial_Delivers u i m m' rest (h, e) =
      rw (h, e)
        (saved_Agrees inst f inst.initial pe pd _ m' rest (initial-SameField inst f i) (
          previous_undefined ty src operation inst pd fd m' rest (sym same.defined ∙ u)
            (initial_given inst f i)))

  empty_Delivers :
      pe.defined ≡ true
      → pe.present ≡ false
      → absent inst f ≡ true
      → Delivers src inst f decode (save_and_skip (int_kind ty) inst pe f)
  unfolding decode_copy
  empty_Delivers d n a m m' rest (h, e) =
      rw (h, e)
        (
          pd,
          omit inst fd,
          previous_empty ty src operation inst pd fd m' rest (sym same.defined ∙ d)
              (sym same.present ∙ n) (optional_of_absent inst f a),
          ground (arith, same.defined, same.present),
          ground arith,
        )

  same_Delivers :
      pe.defined ≡ true
      → pe.present ≡ true
      → is_op inst f pe ≡ true
      → Delivers src inst f decode (save_and_skip (int_kind ty) inst pe f)
  unfolding decode_copy
  same_Delivers d p o m m' rest (h, e) =
      let (present, value) = sound d p o in
      rw (h, e)
        (
          record pd { content = operation pd.content },
          assign (operation pd.content) fd,
          previous_assigned ty src operation inst pd fd m' rest (sym same.defined ∙ d)
              (sym same.present ∙ p),
          ground (arith, same.defined, same.present, ap operation (same.content p), value, present),
          ground (arith, ap operation (same.content p), value, present),
        )

  abbrev Delivered : Sent ℕ → Type 0
  Delivered = Delivers src inst f decode

  pub encode_copy-Delivers : Delivered (encode_copy (int_kind ty) is_op inst pe f)
  unfolding encode_copy
  encode_copy-Delivers =
      if-elim Delivered (not pe.defined) _ _
        (λ u.
          if-elim Delivered (int_is_initial_value inst f) _ _
            (initial_Delivers (not-true pe.defined u)) (λ _. write_Delivers))
        (λ d.
          if-elim Delivered (not pe.present) _ _
            (λ n.
              if-elim Delivered (absent inst f) _ _
                (empty_Delivers (not-false pe.defined d) (not-true pe.present n))
                (λ _. if-elim Delivered (not inst.optional) _ _ (λ _. tt) (λ _. write_Delivers)))
            (λ p.
              if-elim Delivered (is_op inst f pe) _ _
                (same_Delivers (not-false pe.defined d) (not-false pe.present p))
                (λ _. write_Delivers)))
