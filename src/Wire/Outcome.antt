-- ===== src/Wire/Outcome.antt =====
-- How a decoding step ends: the exceptions of src/mfast/exceptions.h and a monad of readers over the
-- bytes from `gptr_` to `egptr_` of src/mfast/coder/decoder/fast_istreambuf.h.
use m_fast.Common.{ℕ, List}

-- `fast_dynamic_error` with its text. `fault` is no exception of the program: a read or a pointer
-- move beyond the end of the buffer, which C++ leaves undefined.
pub data Error : Type 0 where
  buffer_underflow d5 d6 d7 d9 fault : Error

-- A value with the bytes that are left, or the exception that was thrown.
pub data Result {ℓ} (A : Type ℓ) : Type ℓ where
  ok : A → List ℕ → Result A
  err : Error → Result A

abbrev pub Reader {ℓ} : Type ℓ → Type ℓ
Reader A = List ℕ → Result A

abbrev pub bind_result {ℓ κ} : {A : Type ℓ} {B : Type κ} → Result A → (A → Reader B) → Result B
bind_result (ok a rest) f = f a rest
bind_result (err e) f = err e

infixl 5 ◌>>=◌ ◌>>◌
abbrev pub ◌>>=◌ {ℓ κ} : {A : Type ℓ} {B : Type κ} → Reader A → (A → Reader B) → Reader B
◌>>=◌ m f s = bind_result (m s) f

abbrev pub ◌>>◌ {ℓ} : {B : Type ℓ} → Reader (Unit {0}) → Reader B → Reader B
m >> k = m >>= λ _. k

abbrev pub return {ℓ} : {A : Type ℓ} → A → Reader A
return a s = ok a s

abbrev pub throw {ℓ} : {A : Type ℓ} → Error → Reader A
throw e s = err e
