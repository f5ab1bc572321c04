-- ===== src/Message/Skipped.antt =====
-- The absent fields that the loop of `fast_encoder_impl::visit(message_cref)`
-- (src/mfast/coder/encoder/fast_encoder.cpp) does not hand to their operator, and what
-- src/mfast/coder/decoder/decoder_field_operator.cpp makes of them.
use m_fast.Common.{ℕ, ◌≡◌, Bool, true, false, not, List, if◌then◌else◌}
use m_fast.Wire.IntType.{IntType}
use m_fast.Field.Storage.{
  Slot, Instruction, BitSource, absent, Operator, operator_constant, operator_default,
  operator_copy, operator_increment,
}
use m_fast.Field.Decode.{Step, done}

-- The operators for which an absent field sets a bit.
abbrev pub sets_bit : Operator → Bool
sets_bit operator_constant = true
sets_bit operator_default = true
sets_bit operator_copy = true
sets_bit operator_increment = true
sets_bit _ = false

-- Whether an absent field comes back with a value, by the decoder's previous value.
abbrev pub comes_back : Operator → Instruction ℕ → Slot ℕ → Bool
comes_back operator_default inst prev = inst.initial.present
comes_back operator_copy inst prev = if prev.defined then prev.present else inst.initial.present
comes_back operator_increment inst prev =
    if prev.defined then prev.present else inst.initial.present
comes_back _ inst prev = false

module _ (ty : IntType) (src : BitSource) (inst : Instruction ℕ) (fd prev : Slot ℕ) (m m' : src.Map)
    (rest : List ℕ) where
  -- The decoder ends behind the bit, with a field that is there or not.
  Decodes : Bool → Step ℕ src.Map → Type 0
  Decodes there step =
      (p : Slot ℕ) × (f : Slot ℕ) × (step ≡ done p f m' rest) × (absent inst f ≡ not there)
