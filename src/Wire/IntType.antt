-- ===== src/Wire/IntType.antt =====
-- The integer types of the codec, and the words that hold them. A value of a w-bit type is its bit
-- pattern, a number below 2 ^ w.
use m_fast.Common.{ℕ, ◌^◌, ◌<◌, Bool, true, false}
use m_fast.Common.{ltb}

pub data IntType : Type 0 where
  int16 int32 uint32 int64 uint64 : IntType

-- 2 ^ w for a type of w bits.
abbrev pub modulus : IntType → ℕ
modulus int16 = 2 ^ 16
modulus int32 = 2 ^ 32
modulus uint32 = 2 ^ 32
modulus int64 = 2 ^ 64
modulus uint64 = 2 ^ 64

-- 2 ^ w for `int_trait<T>::temp_type`, in which `decode` accumulates.
abbrev pub temp_modulus : IntType → ℕ
temp_modulus int16 = 2 ^ 16
temp_modulus int32 = 2 ^ 32
temp_modulus uint32 = 2 ^ 64
temp_modulus int64 = 2 ^ 64
temp_modulus uint64 = 2 ^ 64

-- `std::is_signed<T>::value`
abbrev pub is_signed : IntType → Bool
is_signed int16 = true
is_signed int32 = true
is_signed uint32 = false
is_signed int64 = true
is_signed uint64 = false

abbrev pub InRange : IntType → ℕ → Type 0
InRange ty v = v < modulus ty

-- `detail::is_positive`: v ≥ 0 for a signed type, true for an unsigned one.
abbrev pub is_positive : IntType → ℕ → Bool
is_positive int16 v = ltb v (2 ^ 15)
is_positive int32 v = ltb v (2 ^ 31)
is_positive uint32 v = true
is_positive int64 v = ltb v (2 ^ 63)
is_positive uint64 v = true
