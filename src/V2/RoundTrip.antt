-- ===== src/V2/RoundTrip.antt =====
-- The second version with itself, at integer fields: what `fast_encoder_core::encode_field`
-- (src/mfast/coder/encoder_v2/fast_encoder_core.h) sends and `fast_decoder_base::decode_field`
-- (src/mfast/coder/decoder_v2/fast_decoder_core.h) makes of it.
use m_fast.Common.{
  ℕ, ◌≡◌, refl, sym, ap, subst, ◌∙◌, ◌⊎◌, inl, inr, Bool, Bool-cases, true, false, List, [], ◌∷◌,
  ◌++◌, arith,
}
use m_fast.Wire.Outcome.{Error}
use m_fast.Wire.IntType.{IntType, InRange}
use m_fast.Wire.IntRoundTrip.{Representable}
use m_fast.Field.Storage.{
  Slot, Instruction, BitSource, Yields, absent, is_nullable, Operator, operator_default,
}
use m_fast.Field.Decode.{Step, done, thrown}
use m_fast.Field.Encode.{Sent, sent, refused}
use m_fast.Field.Agreement.{SamePrevious, SameField, Agrees}
use m_fast.Field.CopyRoundTrip.{Delivers}
use m_fast.Field.IntRoundTrip.{Encodable, by_Delivers}
use m_fast.Field.Ints.{int_is_initial_value, int_to_initial_value, int_kind, decode_by, encode_by}
use m_fast.V2.Ext.{Ext}
use m_fast.V2.Encode.{ext_sent, ext_encode_by}
use m_fast.V2.EncodeSame.{SameSent, Dropped, ext_encode_by-encode_by}
use m_fast.V2.Decode.{ext_decode_by, ext_decode_default, save_if_shared}
use m_fast.V2.DecodeSame.{SameStep, both_save, ext_decode_by-decode_by}

-- The field as it was sent; and the previous values agree, or the operator does not save them.
abbrev pub IsReceived : Bool → Instruction ℕ → Slot ℕ → Slot ℕ → Slot ℕ → Slot ℕ → Type 0
IsReceived saves inst f f' pe pd = SameField inst f f' × ((saves ≡ false) ⊎ SamePrevious pe pd)

-- An absent field that has become the initial value.
abbrev pub IsInitial : Instruction ℕ → Slot ℕ → Slot ℕ → Type 0
IsInitial inst f f' =
    (inst.operator ≡ operator_default)
    × (absent inst f ≡ true)
    × (inst.initial.present ≡ true)
    × (f' ≡ inst.initial)

module _ {M : Type 0} (saves : Bool) (inst : Instruction ℕ) (f pe p : Slot ℕ) (m' : M)
    (rest : List ℕ) where
  Arrives : Step ℕ M → Type 0
  Arrives step =
      (pd' : Slot ℕ) × (f' : Slot ℕ) × (step ≡ done pd' f' m' rest)
      × IsReceived saves inst f f' pe pd'

  previous_kept :
      (pd pd' : Slot ℕ)
      → SamePrevious p pd
      → (saves ≡ true → p ≡ pe)
      → (saves ≡ true → pd ≡ pd')
      → (saves ≡ false) ⊎ SamePrevious pe pd'
  previous_kept pd pd' same e d = elim (Bool-cases saves) [
    | inr off ↦ inl off
    | inl on ↦ inr (subst (λ x. SamePrevious x pd') (e on) (subst (SamePrevious p) (d on) same))
  ]

  done-Arrives :
      (pd f' : Slot ℕ) (step : Step ℕ M)
      → SamePrevious p pd
      → SameField inst f f'
      → (saves ≡ true → p ≡ pe)
      → SameStep saves (done pd f' m' rest) step
      → Arrives step
  unfolding Arrives
  done-Arrives pd f' (done pd' g n r) same field e h =
      (pd', g, cc, (subst (SameField inst f) h.0 field, previous_kept pd pd' same e h.3))
  done-Arrives pd f' (thrown x q) same field e h = absurd h

  step-Arrives :
      (first second : Step ℕ M)
      → Agrees inst f p first m' rest
      → (saves ≡ true → p ≡ pe)
      → SameStep saves first second
      → Arrives second
  step-Arrives first second h e same =
      done-Arrives h.0 h.1 second h.3 h.4 e (subst (λ x. SameStep saves x second) h.2 same)

not_both :
    {M : Type 0} (step : Step ℕ M) (p f q : Slot ℕ) (m : M) (rest : List ℕ) {x : Error}
    → step ≡ done p f m rest
    → step ≡ thrown x q
    → ⊥
not_both step p f q m rest d t = cc

same_output :
    (p p' : Slot ℕ) (bits bits' : List Bool) (bytes bytes' : List ℕ)
    → ext_sent p bits bytes ≡ ext_sent p' bits' bytes'
    → (bits ≡ bits') × (bytes ≡ bytes')
same_output p p' bits bits' bytes bytes' h = (cc, cc)

-- What the first version sends where the second sends the same.
sent_as_first :
    (src : BitSource) (saves : Bool) (inst : Instruction ℕ) (f pe' : Slot ℕ) (bits : List Bool)
    (bytes rest : List ℕ) (m m' : src.Map) (decode : src.Map → List ℕ → Step ℕ src.Map)
    (first : Sent ℕ)
    → Delivers src inst f decode first
    → Yields src m bits m'
    → SameSent saves first (ext_sent pe' bits bytes)
    → (p : Slot ℕ) × Agrees inst f p (decode m (bytes ++ rest)) m' rest × (saves ≡ true → p ≡ pe')
sent_as_first src saves inst f pe' bits bytes rest m m' decode (sent p b w) h y same = (
  p,
  subst (λ z. Agrees inst f p (decode m (z ++ rest)) m' rest) same.1
      (h m m' rest (subst (λ z. Yields src m z m') (sym same.0) y)),
  same.2,
)
sent_as_first src saves inst f pe' bits bytes rest m m' decode (refused x) h y same = absurd same

module _ (ty : IntType) (src : BitSource) (e : Ext ℕ) (f fd pe pd pe' : Slot ℕ) (bits : List Bool)
    (bytes rest : List ℕ) (m m' : src.Map) where
  abbrev inst : Instruction ℕ
  inst = e.instruction

  initial_there :
      absent inst f ≡ true → int_is_initial_value inst f ≡ false → inst.initial.present ≡ true
  unfolding int_is_initial_value
  initial_there a i = ground arith

  default_at_clear :
      Yields src m (false ∷ []) m'
      → ext_decode_by ty src operator_default e pd fd m rest
        ≡ done (save_if_shared (int_kind ty) src e inst.initial pd) inst.initial m' rest
  unfolding ext_decode_by ext_decode_default int_to_initial_value
  default_at_clear (b, n) = rw (b, n) refl

  Outcome : Operator → Step ℕ src.Map → Type 0
  Outcome op step =
      (pd' : Slot ℕ) × (f' : Slot ℕ) × (step ≡ done pd' f' m' rest)
      × (IsReceived (both_save op e) inst f f' pe' pd' ⊎ IsInitial inst f f')

  like_first :
      (op : Operator)
      → inst.operator ≡ op
      → (p : Slot ℕ) × Agrees inst f p (decode_by ty src op inst pd fd m (bytes ++ rest)) m' rest
        × (both_save op e ≡ true → p ≡ pe')
      → Outcome op (ext_decode_by ty src op e pd fd m (bytes ++ rest))
  unfolding Arrives Outcome
  like_first op o h = elim (ext_decode_by-decode_by ty src e pd fd m (bytes ++ rest) op o) [
    | inl same ↦
        let g = step-Arrives (both_save op e) inst f pe' h.0 m' rest _ _ h.1 h.2 same in
        (g.0, g.1, g.2, inl g.3)
    | inr accepts ↦ absurd (not_both _ _ _ _ _ _ h.1.2 accepts.1.3.1)
  ]

  ext_decode_by-Dropped :
      (op : Operator) (first : Sent ℕ)
      → inst.operator ≡ op
      → Dropped ty e pe f op first (ext_sent pe' bits bytes)
      → Yields src m bits m'
      → Outcome op (ext_decode_by ty src op e pd fd m (bytes ++ rest))
  unfolding Outcome
  ext_decode_by-Dropped op first o d y =
      let (bits_are, bytes_are) = same_output pe' pe bits (false ∷ []) bytes [] d.4 in
      (
        save_if_shared (int_kind ty) src e inst.initial pd,
        inst.initial,
        ap (λ z. ext_decode_by ty src op e pd fd m (z ++ rest)) bytes_are
            ∙ ap (λ z. ext_decode_by ty src z e pd fd m rest) d.0
            ∙ default_at_clear (subst (λ z. Yields src m z m') bits_are y),
        inr (o ∙ d.0, d.1, initial_there d.1 d.2, refl),
      )

  -- An integer field with any operator but tail, sent by the second version and read by the second
  -- version from the same previous value, is decoded without an error, and the decoder has taken
  -- exactly the bits and the bytes that were sent. The field comes out as it went in, absent or with its
  -- value, and the two previous values agree again where the operator saves them; or the operator is
  -- default, the field was absent, and it comes out as the initial value that it has. The value is of
  -- the type and, as for the first version, is one that can be sent: a constant is absent or has the
  -- initial value, an absent field with increment does not hold the number behind the previous value,
  -- with delta the previous and the initial value are of the type, and the greatest int16 is not sent
  -- in the nullable form.
  pub ext_decode_by-ext_encode_by :
      InRange ty f.content
      → Representable ty f.content (is_nullable inst)
      → SamePrevious pe pd
      → Encodable ty inst pe f inst.operator
      → ext_encode_by ty inst.operator e pe f ≡ ext_sent pe' bits bytes
      → Yields src m bits m'
      → (pd' : Slot ℕ) × (f' : Slot ℕ) × (ext_decode_by ty src inst.operator e pd fd m
            (bytes ++ rest)
          ≡ done pd' f' m' rest)
        × (IsReceived (both_save inst.operator e) inst f f' pe' pd' ⊎ IsInitial inst f f')
  unfolding Outcome
  ext_decode_by-ext_encode_by r k same h sent_is y =
      let op = inst.operator in
      let delivers = by_Delivers ty src inst f fd pe pd r k same op refl h in
      elim (ext_encode_by-encode_by ty op e pe f refl) [
        | inl alike ↦ like_first op refl (
            sent_as_first src (both_save op e) inst f pe' bits bytes rest m m'
              (decode_by ty src op inst pd fd) _ delivers y
              (subst (SameSent (both_save op e) (encode_by ty op inst pe f)) sent_is alike))
        | inr dropped ↦
            ext_decode_by-Dropped op _ refl
              (subst (Dropped ty e pe f op (encode_by ty op inst pe f)) sent_is dropped) y
      ]
