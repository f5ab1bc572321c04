-- ===== src/Wire/Decimal.antt =====
-- Decimals without operators of their own: `operator<<` of
-- src/mfast/coder/encoder/fast_ostream_inserter.h and `operator>>` of
-- src/mfast/coder/decoder/fast_istream_extractor.h.
use m_fast.Common.{ℕ, ◌≡◌, refl, Bool, true, false, Option, none, some, List, ◌++◌, append_assoc}
use m_fast.Wire.Outcome.{Reader, ok, ◌>>=◌, return}
use m_fast.Wire.IntType.{int16, int64, InRange}
use m_fast.Wire.Istream.{decode_int}
use m_fast.Wire.Ostream.{encode_int}
use m_fast.Wire.IntRoundTrip.{Representable, decode_int-encode_int, decode_null}

-- `of_decimal`
pub record Decimal : Type 0 where
  pub mantissa : ℕ
  pub exponent : ℕ

-- `strm << cref`; `none` is an absent field, whose exponent `stale` is handed over and not written.
unfoldable pub insert_decimal : Bool → ℕ → Option Decimal → List ℕ
insert_decimal nullable stale none = encode_int int16 stale true nullable
insert_decimal nullable stale (some d) =
    encode_int int16 d.exponent false nullable ++ encode_int int64 d.mantissa false false

-- What a `decode` that is not nullable leaves in the variable; it never answers false.
abbrev pub read_value : Option ℕ → ℕ
read_value none = 0
read_value (some v) = v

-- `strm >> mref`; `none` is `omit()`.
unfoldable pub extract_decimal : Bool → Reader (Option Decimal)
extract_decimal nullable = do
  e ← decode_int int16 nullable
  elim e [
    | none ↦ return none
    | some exponent ↦ decode_int int64 false >>= λ m.
        return (some (record { mantissa = read_value m; exponent = exponent }))
  ]

-- A decimal is read back, nullable or not, and an absent one from the nullable form; the bytes that
-- follow are left. The nullable form does not hold the greatest exponent of an int16.
pub extract_decimal-insert_decimal :
    (nullable : Bool) (d : Decimal) (stale : ℕ) (rest : List ℕ)
    → InRange int64 d.mantissa
    → InRange int16 d.exponent
    → Representable int16 d.exponent nullable
    → (extract_decimal nullable (insert_decimal nullable stale (some d) ++ rest) ≡ ok (some d) rest)
      × (extract_decimal true (insert_decimal true stale none ++ rest) ≡ ok none rest)
unfolding extract_decimal insert_decimal
extract_decimal-insert_decimal nullable d stale rest m e k = (
  rw
      (
        append_assoc (encode_int int16 d.exponent false nullable)
            (encode_int int64 d.mantissa false false) rest,
        (decode_int-encode_int int16 d.exponent nullable
            (encode_int int64 d.mantissa false false ++ rest) e k).0,
        (decode_int-encode_int int64 d.mantissa false rest m tt).0,
      )
      refl,
  rw (decode_null int16 stale rest) refl,
)
