-- ===== src/Message/FieldsRoundTrip.antt =====
-- What the encoder's loop over the fields sends, the decoder's loop receives.
use m_fast.Common.{
  ℕ, suc, ◌≡◌, refl, sym, ap, ◌∙◌, subst, ◌⊎◌, inl, inr, Bool, List, [], ◌∷◌, ◌++◌, append_assoc,
  if-true,
}
use m_fast.Wire.Outcome.{Error}
use m_fast.Field.Storage.{Slot, BitSource, Yields}
use m_fast.Field.Encode.{Sent, sent, refused}
use m_fast.Field.Ints.{encode_field, decode_field}
use m_fast.Field.IntRoundTrip.{decode_field-encode_field}
use m_fast.Message.Template.{FieldInstruction, Dictionary, save_at}
use m_fast.Message.Decoder.{decoded, after_field, with_field, decode_fields}
use m_fast.Message.Fields.{
  Sending, sending, stopped, from_sent, followed_by, then_send, send_field, send_fields,
  SameDictionary, save_at-SameDictionary, Ready, ReadyAfter, AllReady, FieldsAgree, Yields-append,
}

-- Whatever the fields send is received, with any rest behind it.
abbrev pub FieldsDeliver :
    (src : BitSource)
    → (ℕ → Slot ℕ)
    → List FieldInstruction
    → List (Slot ℕ)
    → Dictionary
    → Sending
    → Type 0
FieldsDeliver src held is fs dd (sending de' bits bytes) =
    (m m' : src.Map) (rest : List ℕ)
    → Yields src m bits m'
    → FieldsAgree is fs de' (decode_fields src held is dd m (bytes ++ rest)) m' rest
FieldsDeliver src held is fs dd (stopped e) = Unit

pub Sent-cases :
    (x : Sent ℕ)
    → ((pe : Slot ℕ) × (bits : List Bool) × (bytes : List ℕ) × (x ≡ sent pe bits bytes))
      ⊎ ((e : Error) × (x ≡ refused e))
Sent-cases (sent pe bits bytes) = inl (pe, bits, bytes, refl)
Sent-cases (refused e) = inr (e, refl)

module _ (src : BitSource) (held : ℕ → Slot ℕ) (i : FieldInstruction) (is : List FieldInstruction)
    (f : Slot ℕ) (fs : List (Slot ℕ)) (de dd : Dictionary) (same : SameDictionary de dd)
    (ready : Ready i (de i.key) f) where
  abbrev after : ℕ → Slot ℕ
  after n = held (suc n)

  -- A field in front of fields that are received.
  front-FieldsDeliver :
      (pe : Slot ℕ) (bits : List Bool) (bytes : List ℕ) (x : Sending)
      → encode_field i.type i.instruction (de i.key) f ≡ sent pe bits bytes
      → ((d : Dictionary)
          → SameDictionary (save_at i.key pe de) d
          → FieldsDeliver src after is fs d x)
      → FieldsDeliver src held (i ∷ is) (f ∷ fs) dd (followed_by bits bytes x)
  unfolding decode_fields
  front-FieldsDeliver pe bits bytes (stopped e) sends receive = tt
  front-FieldsDeliver pe bits bytes (sending de' bits' bytes') sends receive = λ m m' rest y.
      let (n, first, second) = Yields-append src m m' bits bits' y in
      let (pd, f', e, sp, sf) =
        decode_field-encode_field i.type src i.instruction f (held 0) (de i.key) (dd i.key) pe bits
          bytes (bytes' ++ rest) m n ready.range ready.representable (same i.key) ready.encodable
          sends first in
      let (dd', fs', e', sd, sfs) =
        receive (save_at i.key pd dd) (save_at-SameDictionary i.key pe pd de dd sp same) n m' rest
          second in
      let go = decode_fields src after is in
      (
        dd',
        f' ∷ fs',
        ap
              (λ s.
                after_field i.key dd (decode_field i.type src i.instruction (dd i.key) (held 0) m s)
                  go)
              (append_assoc bytes bytes' rest)
            ∙ ap (λ s. after_field i.key dd s go) e
            ∙ ap (with_field f') e',
        sd,
        (sf, sfs),
      )

  send_ready :
      (x : Sent ℕ)
      → encode_field i.type i.instruction (de i.key) f ≡ x
      → send_field i f de ≡ from_sent i.key de x
  unfolding send_field
  send_ready x e = if-true _ _ ready.visited ∙ ap (from_sent i.key de) e

pub send_fields-FieldsDeliver :
    (src : BitSource) (held : ℕ → Slot ℕ) (is : List FieldInstruction) (fs : List (Slot ℕ))
    (de dd : Dictionary)
    → SameDictionary de dd
    → AllReady is fs de
    → FieldsDeliver src held is fs dd (send_fields is fs de)
unfolding send_fields AllReady decode_fields
send_fields-FieldsDeliver src held [] [] de dd same ready =
    λ m m' rest y. (dd, [], ap (λ n. decoded dd [] n rest) y, same, tt)
send_fields-FieldsDeliver src held [] (f ∷ fs) de dd same ready = absurd ready
send_fields-FieldsDeliver src held (i ∷ is) [] de dd same ready = absurd ready
send_fields-FieldsDeliver src held (i ∷ is) (f ∷ fs) de dd same ready =
    let D = FieldsDeliver src held (i ∷ is) (f ∷ fs) dd in
    let go = send_fields is fs in
    elim (Sent-cases (encode_field i.type i.instruction (de i.key) f)) [
      | inr (e, x) ↦
          subst (λ s. D (then_send s go))
            (sym (send_ready src held i is f fs de dd same ready.0 (refused e) x)) tt
      | inl (pe, bits, bytes, x) ↦
          let sends = send_ready src held i is f fs de dd same ready.0 (sent pe bits bytes) x in
          subst (λ s. D (then_send s go)) (sym sends)
            (front-FieldsDeliver src held i is f fs de dd same ready.0 pe bits bytes
              (go (save_at i.key pe de)) x
              (λ d same'.
                send_fields-FieldsDeliver src (λ n. held (suc n)) is fs (save_at i.key pe de) d
                  same' (subst (λ s. ReadyAfter s (AllReady is fs)) sends ready.1)))
    ]
