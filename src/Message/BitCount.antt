-- ===== src/Message/BitCount.antt =====
-- The number of bits that the fields of a message set.
use m_fast.Common.{
  ℕ, ◌+◌, ◌≡◌, refl, sym, subst, Bool, ltb, ◌&&◌, not, ◌||◌, List, [], ◌∷◌, length, length-append,
  if◌then◌else◌, if-elim, if-both, if-true, option-elim, arith,
}
use m_fast.Wire.IntType.{IntType}
use m_fast.Field.Storage.{
  Operator, operator_none, operator_constant, operator_delta, operator_default, operator_copy,
  operator_increment, operator_tail, Slot, Instruction, absent, is_constant,
}
use m_fast.V2.Ext.{operator_id}
use m_fast.Field.Decode.{delta_base_value_of}
use m_fast.Field.Encode.{
  Sent, sent, refused, encode_none, encode_constant, encode_copy, encode_default,
}
use m_fast.Field.Ints.{
  int_kind, int_is_same, is_increment, int_is_initial_value, encode_int_delta, encode_by,
}
use m_fast.Field.IntRoundTrip.{Encodable}
use m_fast.Message.Template.{FieldInstruction, Dictionary, pmap_size, segment_pmap_size}
use m_fast.Message.Fields.{
  Sending, sending, stopped, from_sent, followed_by, then_send, send_field, send_fields, Ready,
  ReadyAfter, AllReady,
}

-- An operator sets `n` bits, or refuses.
abbrev pub Sets : ℕ → Sent ℕ → Type 0
Sets n (sent pe bits bytes) = length bits ≡ n
Sets n (refused e) = Unit

copy-Sets :
    (ty : IntType) (operation : Instruction ℕ → Slot ℕ → Slot ℕ → Bool) (inst : Instruction ℕ)
    (pe f : Slot ℕ)
    → Sets 1 (encode_copy (int_kind ty) operation inst pe f)
unfolding encode_copy
copy-Sets ty operation inst pe f =
    if-elim (Sets 1) (not pe.defined) _ _
      (λ _. if-elim (Sets 1) (int_is_initial_value inst f) _ _ (λ _. refl) (λ _. refl))
      (λ _.
        if-elim (Sets 1) (not pe.present) _ _
          (λ _.
            if-elim (Sets 1) (absent inst f) _ _ (λ _. refl)
              (λ _. if-elim (Sets 1) (not inst.optional) _ _ (λ _. tt) (λ _. refl)))
          (λ _. if-elim (Sets 1) (operation inst f pe) _ _ (λ _. refl) (λ _. refl)))

default-Sets :
    (ty : IntType) (inst : Instruction ℕ) (pe f : Slot ℕ)
    → Sets 1 (encode_default (int_kind ty) inst pe f)
unfolding encode_default
default-Sets ty inst pe f =
    if-elim (Sets 1) (int_is_initial_value inst f) _ _ (λ _. refl)
      (λ _. if-elim (Sets 1) (absent inst f) _ _ (λ _. refl) (λ _. refl))

delta-Sets :
    (ty : IntType) (inst : Instruction ℕ) (pe f : Slot ℕ) → Sets 0 (encode_int_delta ty inst pe f)
unfolding encode_int_delta
delta-Sets ty inst pe f =
    if-elim (Sets 0) (absent inst f) _ _ (λ _. refl)
      (λ _. option-elim (Sets 0) (delta_base_value_of 0 inst pe) _ _ (λ _. tt) (λ base _. refl))

constant-Sets :
    (ty : IntType) (inst : Instruction ℕ) (pe f : Slot ℕ)
    → Sets (if inst.optional then 1 else 0) (encode_constant (int_kind ty) inst pe f)
unfolding encode_constant
constant-Sets ty inst pe f =
    if-both (λ (bits : List Bool) (n : ℕ). length bits ≡ n) inst.optional inst.optional _ _ _ _ refl
      (λ _. refl) (λ _. refl)

-- The bits that an operator sets are those that `pmap_size()` counts.
abbrev size_by : Bool → Operator → ℕ
size_by optional op = if ltb 2 (operator_id op) || (is_constant op && optional) then 1 else 0

pub by-Sets :
    (ty : IntType) (op : Operator) (inst : Instruction ℕ) (pe f : Slot ℕ)
    → Encodable ty inst pe f op
    → Sets (size_by inst.optional op) (encode_by ty op inst pe f)
unfolding encode_by encode_none
by-Sets ty operator_none inst pe f k = refl
by-Sets ty operator_constant inst pe f k = constant-Sets ty inst pe f
by-Sets ty operator_delta inst pe f k = delta-Sets ty inst pe f
by-Sets ty operator_default inst pe f k = default-Sets ty inst pe f
by-Sets ty operator_copy inst pe f k = copy-Sets ty int_is_same inst pe f
by-Sets ty operator_increment inst pe f k = copy-Sets ty (is_increment ty) inst pe f
by-Sets ty operator_tail inst pe f k = absurd k

-- What fields set, in all.
abbrev pub SetsAll : ℕ → Sending → Type 0
SetsAll n (sending dict bits bytes) = length bits ≡ n
SetsAll n (stopped e) = Unit

from_sent-SetsAll :
    (n key : ℕ) (dict : Dictionary) (x : Sent ℕ) → Sets n x → SetsAll n (from_sent key dict x)
from_sent-SetsAll n key dict (sent pe bits bytes) h = h
from_sent-SetsAll n key dict (refused e) h = tt

send_field-SetsAll :
    (i : FieldInstruction) (f : Slot ℕ) (dict : Dictionary)
    → Ready i (dict i.key) f
    → SetsAll (pmap_size i.instruction) (send_field i f dict)
unfolding send_field
send_field-SetsAll i f dict h =
    subst (SetsAll (pmap_size i.instruction)) (sym (if-true _ _ h.visited)) (
      from_sent-SetsAll (pmap_size i.instruction) i.key dict _
        (by-Sets i.type i.instruction.operator i.instruction (dict i.key) f h.encodable))

followed_by-SetsAll :
    (n k : ℕ) (bits : List Bool) (bytes : List ℕ) (y : Sending)
    → length bits ≡ n
    → SetsAll k y
    → SetsAll (n + k) (followed_by bits bytes y)
followed_by-SetsAll n k bits bytes (stopped e) h g = tt
followed_by-SetsAll n k bits bytes (sending dict bits' bytes') h g =
    omega (arith, h, g, length-append bits bits')

then_send-SetsAll :
    (n k : ℕ) (x : Sending) (go : Dictionary → Sending) (P : Dictionary → Type 0)
    → SetsAll n x
    → ReadyAfter x P
    → ((dict : Dictionary) → P dict → SetsAll k (go dict))
    → SetsAll (n + k) (then_send x go)
then_send-SetsAll n k (stopped e) go P h r step = tt
then_send-SetsAll n k (sending dict bits bytes) go P h r step =
    followed_by-SetsAll n k bits bytes (go dict) h (step dict r)

-- The fields of a message, which fit the template and are ready when their turn comes, set as many bits
-- as `segment_pmap_size` counts, unless an operator refuses one.
pub send_fields-SetsAll :
    (is : List FieldInstruction) (fs : List (Slot ℕ)) (dict : Dictionary)
    → AllReady is fs dict
    → SetsAll (segment_pmap_size is) (send_fields is fs dict)
unfolding send_fields segment_pmap_size AllReady
send_fields-SetsAll [] [] dict h = refl
send_fields-SetsAll [] (f ∷ fs) dict h = refl
send_fields-SetsAll (i ∷ is) [] dict h = absurd h
send_fields-SetsAll (i ∷ is) (f ∷ fs) dict h =
    then_send-SetsAll (pmap_size i.instruction) (segment_pmap_size is) (send_field i f dict)
      (send_fields is fs) (AllReady is fs) (send_field-SetsAll i f dict h.0) h.1
      (send_fields-SetsAll is fs)
