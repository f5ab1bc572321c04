-- ===== src/Field/Agreement.antt =====
-- What the two sides of the codec share for an integer field: the previous value, and the field itself
-- after decoding. Contents that are not present are stale and may differ.
use m_fast.Common.{ℕ, ◌≡◌, true, false, List, ◌++◌, if◌then◌else◌, Bool-cases, inl, inr, arith}
use m_fast.Wire.Outcome.{ok}
use m_fast.Wire.IntType.{IntType, InRange}
use m_fast.Wire.IntRoundTrip.{decode_int-encode_int, decode_null, Representable}
use m_fast.Field.Storage.{
  Slot, Instruction, BitSource, absent, omit, assign, is_nullable, is_constant, save_previous_value,
}
use m_fast.Field.Decode.{Step, done, extract_into}
use m_fast.Field.Encode.{insert_field}
use m_fast.Field.Ints.{int_kind, int_save_to}

-- The encoder's and the decoder's previous value.
pub record SamePrevious (pe pd : Slot ℕ) : Type 0 where
  pub defined : pe.defined ≡ pd.defined
  pub present : pe.present ≡ pd.present
  pub content : pe.present ≡ true → pe.content ≡ pd.content

-- The field that was encoded and the field that was decoded.
pub record SameField (inst : Instruction ℕ) (f f' : Slot ℕ) : Type 0 where
  pub absence : absent inst f ≡ absent inst f'
  pub content : absent inst f ≡ false → f.content ≡ f'.content

-- The decoder ends with the map `m'` and the rest, and its field and previous value agree with the
-- encoder's.
abbrev pub Agrees : {M : Type 0} → Instruction ℕ → Slot ℕ → Slot ℕ → Step ℕ M → M → List ℕ → Type 0
Agrees inst f pe' step m' rest =
    (pd' : Slot ℕ) × (f' : Slot ℕ) × (step ≡ done pd' f' m' rest)
    × SamePrevious pe' pd'
    × SameField inst f f'

-- Saving on both sides.
pub saved-SamePrevious :
    (inst : Instruction ℕ) (f f' pe pd : Slot ℕ)
    → SameField inst f f'
    → SamePrevious (save_previous_value inst f pe) (int_save_to inst f' pd)
unfolding int_save_to
saved-SamePrevious inst f f' pe pd h = ground (arith, h.content)

-- The field that is read where `f` was written.
abbrev pub received : Instruction ℕ → Slot ℕ → Slot ℕ → Slot ℕ
received inst f fd = if absent inst f then omit inst fd else assign f.content fd

pub received-SameField :
    (inst : Instruction ℕ) (f fd : Slot ℕ) → SameField inst f (received inst f fd)
received-SameField inst f fd = ground arith

pub nullable_of_absent :
    (inst : Instruction ℕ) (f : Slot ℕ)
    → is_constant inst.operator ≡ false
    → absent inst f ≡ true
    → is_nullable inst ≡ true
nullable_of_absent inst f c a = ground arith

pub extract_into-insert_field :
    (ty : IntType) (src : BitSource) (inst : Instruction ℕ) (f fd : Slot ℕ) (rest : List ℕ)
    → is_constant inst.operator ≡ false
    → InRange ty f.content
    → Representable ty f.content (is_nullable inst)
    → extract_into (int_kind ty) src inst fd (insert_field (int_kind ty) inst f ++ rest)
      ≡ ok (received inst f fd) rest
extract_into-insert_field ty src inst f fd rest c r k = elim (Bool-cases (absent inst f)) [
  | inl a ↦ rw (a, nullable_of_absent inst f c a, decode_null ty f.content rest)
  | inr p ↦ rw (p, (decode_int-encode_int ty f.content (is_nullable inst) rest r k).0)
]
