-- ===== src/Field/Ints.antt =====
-- Integer fields: `int_cref`, `int_mref` (src/mfast/int_ref.h) and the operators at them.
use m_fast.Common.{
  ℕ, ◌+◌, ◌-◌, ◌%◌, ◌^◌, Bool, true, false, not, ◌&&◌, ◌||◌, none, some, List, [], ◌==◌,
  if◌then◌else◌,
}
use m_fast.Wire.Outcome.{d6}
use m_fast.Wire.IntType.{IntType, int16, int64, modulus, is_positive}
use m_fast.Wire.Istream.{decode_int}
use m_fast.Wire.Ostream.{encode_int, encode_null}
use m_fast.Field.Storage.{
  Operator, operator_none, operator_constant, operator_delta, operator_default, operator_copy,
  operator_increment, operator_tail, Slot, Instruction, FieldKind, BitSource, absent, omit, assign,
  is_nullable, save_previous_value,
}
use m_fast.Field.Decode.{
  Step, done, thrown, on_read, delta_base_value_of, decode_none, decode_constant, decode_copy,
  decode_default,
}
use m_fast.Field.Encode.{
  Sent, sent, refused, encode_none, encode_constant, encode_copy, encode_default,
}

-- `value_storage::set<T>` into the 64-bit content, and `get<T>` out of it.
unfoldable pub set_content : IntType → ℕ → ℕ
set_content ty v = if is_positive ty v then v else v + 2 ^ 64 - modulus ty

unfoldable pub get_content : IntType → ℕ → ℕ
get_content ty content = content % modulus ty

abbrev pub same_bool : Bool → Bool → Bool
same_bool true b = b
same_bool false b = not b

-- `int_cref::is_initial_value`
unfoldable pub int_is_initial_value : Instruction ℕ → Slot ℕ → Bool
int_is_initial_value inst cref =
    same_bool (absent inst cref) (not inst.initial.present)
    && (absent inst cref || cref.content == inst.initial.content)

-- `is_same` at an `int_cref`
unfoldable pub int_is_same : Instruction ℕ → Slot ℕ → Slot ℕ → Bool
int_is_same inst cref prev =
    same_bool (absent inst cref) (not prev.present) && cref.content == prev.content

-- `int_mref::to_initial_value` copies the whole storage.
unfoldable pub int_to_initial_value : Instruction ℕ → Slot ℕ → Slot ℕ
int_to_initial_value inst field = inst.initial

-- `int_cref::save_to`
unfoldable pub int_save_to : Instruction ℕ → Slot ℕ → Slot ℕ → Slot ℕ
int_save_to inst field prev = record {
  defined = true;
  present = not (absent inst field);
  content = field.content;
}

-- The integer fields of one type.
abbrev pub int_kind : IntType → FieldKind
int_kind ty = record {
  Content = ℕ;
  insert = λ is_null v nullable. encode_int ty v is_null nullable;
  extract = decode_int ty;
  is_initial_value = int_is_initial_value;
  is_same = int_is_same;
  to_initial_value = int_to_initial_value;
  save_to = int_save_to;
  default_content = 0;
}

-- `v + 1` in the type of the field, the operation of the increment operator
abbrev pub next_value : IntType → ℕ → ℕ
next_value ty v = (v + 1) % modulus ty

-- `is_increment`, which does not look whether the field is absent
unfoldable pub is_increment : IntType → Instruction ℕ → Slot ℕ → Slot ℕ → Bool
is_increment ty inst cref prev = cref.content == next_value ty prev.content

-- `static_cast<int64_t>(cref.value() - base.value())`: the difference is taken in the type of the
-- field, for an int16 in `int`.
unfoldable pub int_delta : IntType → ℕ → ℕ → ℕ
int_delta int16 v base = (set_content int16 v + 2 ^ 64 - set_content int16 base) % 2 ^ 64
int_delta ty v base = set_content ty ((v + modulus ty - base) % modulus ty)

-- `delta_operator::encode_integer`
unfoldable pub encode_int_delta : IntType → Instruction ℕ → Slot ℕ → Slot ℕ → Sent ℕ
encode_int_delta ty inst prev cref =
    if absent inst cref then sent prev [] encode_null else elim (delta_base_value_of 0 inst prev) [
      | none ↦ refused d6
      | some base ↦
          sent (save_previous_value inst cref prev) []
            (encode_int int64 (int_delta ty cref.content base) false (is_nullable inst))
    ]

-- `static_cast<T>(base + d)`
abbrev pub add_delta : IntType → ℕ → ℕ → ℕ
add_delta ty base d = (set_content ty base + d) % modulus ty

module _ (ty : IntType) (src : BitSource) where
  open src use {Map}

  -- `delta_operator::decode_integer`
  unfoldable pub decode_int_delta : Instruction ℕ → Slot ℕ → Slot ℕ → Map → List ℕ → Step ℕ Map
  decode_int_delta inst prev field m s =
      on_read prev (decode_int int64 (is_nullable inst) s) λ d rest. elim d [
        | none ↦ done prev (omit inst field) m rest
        | some d ↦ elim (delta_base_value_of 0 inst prev) [
          | none ↦ thrown d6 prev
          | some base ↦
              let f = assign (add_delta ty base d) field in done (int_save_to inst f prev) f m rest
        ]
      ]

  -- `decoder_operators[op]->decode`. The tail operator leaves `decode` of an integer as the base class
  -- has it, which does nothing.
  unfoldable pub decode_by : Operator → Instruction ℕ → Slot ℕ → Slot ℕ → Map → List ℕ → Step ℕ Map
  decode_by operator_none inst prev field m s = decode_none (int_kind ty) src inst prev field m s
  decode_by operator_constant inst prev field m s =
      decode_constant (int_kind ty) src inst prev field m s
  decode_by operator_delta inst prev field m s = decode_int_delta inst prev field m s
  decode_by operator_default inst prev field m s =
      decode_default (int_kind ty) src inst prev field m s
  decode_by operator_copy inst prev field m s =
      decode_copy (int_kind ty) src (λ v. v) inst prev field m s
  decode_by operator_increment inst prev field m s =
      decode_copy (int_kind ty) src (next_value ty) inst prev field m s
  decode_by operator_tail inst prev field m s = done prev field m s

  abbrev pub decode_field : Instruction ℕ → Slot ℕ → Slot ℕ → Map → List ℕ → Step ℕ Map
  decode_field inst = decode_by inst.operator inst

-- `encoder_operators[op]->encode`
unfoldable pub encode_by : IntType → Operator → Instruction ℕ → Slot ℕ → Slot ℕ → Sent ℕ
encode_by ty operator_none inst prev cref = encode_none (int_kind ty) inst prev cref
encode_by ty operator_constant inst prev cref = encode_constant (int_kind ty) inst prev cref
encode_by ty operator_delta inst prev cref = encode_int_delta ty inst prev cref
encode_by ty operator_default inst prev cref = encode_default (int_kind ty) inst prev cref
encode_by ty operator_copy inst prev cref = encode_copy (int_kind ty) int_is_same inst prev cref
encode_by ty operator_increment inst prev cref =
    encode_copy (int_kind ty) (is_increment ty) inst prev cref
encode_by ty operator_tail inst prev cref = sent prev [] []

abbrev pub encode_field : IntType → Instruction ℕ → Slot ℕ → Slot ℕ → Sent ℕ
encode_field ty inst = encode_by ty inst.operator inst
