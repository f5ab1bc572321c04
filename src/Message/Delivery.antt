-- ===== src/Message/Delivery.antt =====
-- A decoder receives what an encoder sends over its life.
use m_fast.Common.{
  ℕ, ◌≡◌, refl, sym, ap, ◌∙◌, subst, true, List, [], ◌∷◌, ◌++◌, append_assoc, some, none,
  append-nil,
}
use mathlib.Core.List.{append_cancel_left}
use m_fast.Wire.Outcome.{ok, Result}
use m_fast.Field.Storage.{Slot}
use m_fast.Message.Template.{Repository, find_template}
use m_fast.Message.Encoder.{Encoded, encoded, failed, MessageEncoder, encode_message}
use m_fast.Message.Decoder.{MessageDecoder, Message, decode_segment, on_result}
use m_fast.Message.Codec.{InStep}
use m_fast.Message.RoundTrip.{decode_segment-encode_message, Receives}
use m_fast.Message.Transcript.{
  Accepted, Request, Encodes, nothing, message, Received, SameMessages, decode_all,
}

result_or : {A : Type 0} → A → Encoded A → A
result_or a (encoded b) = b
result_or a (failed e) = a

encoded-injective : {A : Type 0} (a b : A) → encoded a ≡ encoded b → a ≡ b
unfolding result_or
encoded-injective a b e = ap (result_or a) e

module _ (repo : Repository) (stored : ℕ → ℕ → Slot ℕ) (d : MessageDecoder) (e e' : MessageEncoder)
    (q : Request) (room w w' : List ℕ) (h : Accepted repo q.force_reset q.template q.fields e room)
    (sent : encode_message repo true q.force_reset room q.template.id q.fields e w
      ≡ encoded (e', w'))
    (step : InStep repo e d) where
  abbrev Received1 : List ℕ → List ℕ → Type 0
  Received1 written rest =
      Receives repo e' q.template q.fields
        (decode_segment repo q.force_reset stored d (written ++ rest)) rest

  one_message : (rest : List ℕ) → (written : List ℕ) × (w' ≡ w ++ written) × Received1 written rest
  one_message rest =
      let (written, e1, run, received) =
        decode_segment-encode_message repo q.force_reset stored q.template q.fields e d h.dictionary
          h.bits h.bytes room w rest h.id_range h.found step h.ready h.sends h.kept in
      let same = encoded-injective (e1, w ++ written) (e', w') (sym run ∙ sent) in
      (
        written,
        sym (ap (λ p. p.1) same),
        subst
            (λ u.
              Receives repo u q.template q.fields
                (decode_segment repo q.force_reset stored d (written ++ rest)) rest)
            (ap (λ p. p.0) same) received,
      )

  -- The bytes do not depend on what follows them.
  one-Receives :
      (written : List ℕ) × (w' ≡ w ++ written) × ((rest : List ℕ) → Received1 written rest)
  one-Receives =
      let (written, e0, _) = one_message [] in
      (
        written,
        e0,
        λ rest.
            let (written', e1, r) = one_message rest in
            subst (λ u. Received1 u rest) (append_cancel_left w written' written (sym e1 ∙ e0)) r,
      )

-- A decoder that is in step with an encoder.
decoder_of : Repository → MessageEncoder → MessageDecoder
decoder_of repo e = record {
  active_message = elim e.active_message_id [
    | none ↦ none
    | some id ↦ find_template id repo.templates
  ];
  dictionary = e.dictionary;
}

decoder_of-InStep : (repo : Repository) (e : MessageEncoder) → InStep repo e (decoder_of repo e)
unfolding decoder_of
decoder_of-InStep repo e = record {
  dictionaries = λ key. record { defined = refl; present = refl; content = λ _. refl };
  active =
      λ id h. sym (ap (λ o. elim o [ none ↦ none | some n ↦ find_template n repo.templates ]) h);
}

-- The messages stand behind the stream.
appended :
    (repo : Repository) (stored : ℕ → ℕ → Slot ℕ) {e e' : MessageEncoder} {w w' : List ℕ}
    {qs : List Request}
    → Encodes repo e w qs e' w'
    → (written : List ℕ) × (w' ≡ w ++ written)
appended repo stored (nothing {w = w}) = ([], sym (append-nil w))
appended repo stored
      (message {q = q} {room = room} {w = w} {w' = w'} {e = e} {e' = e'} h sent more) =
    let (one, e1, _) =
      one_message repo stored (decoder_of repo e) e e' q room w w' h sent (decoder_of-InStep repo e)
        [] in
    let (rest, e2) = appended repo stored more in
    (one ++ rest, e2 ∙ ap (λ l. l ++ rest) e1 ∙ append_assoc w one rest)

-- The bytes `written` of the messages are received, with any rest behind them.
abbrev pub Delivered :
    Repository → (ℕ → ℕ → Slot ℕ) → List Request → List ℕ → MessageEncoder → MessageDecoder → Type 0
Delivered repo stored qs written e' d =
    (rest : List ℕ)
    → (d' : MessageDecoder) × (ms : Received) × (decode_all repo stored qs d (written ++ rest)
        ≡ ok (d', ms) rest)
      × SameMessages qs ms
      × InStep repo e' d'

message-Delivered :
    (repo : Repository) (stored : ℕ → ℕ → Slot ℕ) (q : Request) (qs : List Request)
    (e' e'' : MessageEncoder) (d : MessageDecoder) (one more : List ℕ)
    → ((rest : List ℕ)
        → Receives repo e' q.template q.fields
            (decode_segment repo q.force_reset stored d (one ++ rest))
            rest)
    → ((d' : MessageDecoder) → InStep repo e' d' → Delivered repo stored qs more e'' d')
    → Delivered repo stored (q ∷ qs) (one ++ more) e'' d
unfolding decode_all
message-Delivered repo stored q qs e' e'' d one more receives next rest =
    let (d', fs, run, same, step) = receives (more ++ rest) in
    let (d'', ms, run', sames, step') = next d' step rest in
    let then_all : Message → List ℕ → Result (MessageDecoder × Received) =
      λ m s. on_result (decode_all repo stored qs m.0 s) λ r end. ok (r.0, (m.1, m.2) ∷ r.1) end in
    (
      d'',
      (q.template, fs) ∷ ms,
      ap (λ s. on_result (decode_segment repo q.force_reset stored d s) then_all)
            (append_assoc one more rest)
          ∙ ap (λ r. on_result r then_all) run
          ∙ ap (λ r. on_result r λ r' end. ok (r'.0, (q.template, fs) ∷ r'.1) end) run',
      (refl, same, sames),
      step',
    )

Encodes-Delivered :
    (repo : Repository) (stored : ℕ → ℕ → Slot ℕ) {e e' : MessageEncoder} {w w' : List ℕ}
    {qs : List Request}
    → Encodes repo e w qs e' w'
    → (d : MessageDecoder) → InStep repo e d
    → (written : List ℕ) → w' ≡ w ++ written
    → Delivered repo stored qs written e' d
unfolding decode_all
Encodes-Delivered repo stored (nothing {e = e} {w = w}) d step written h =
    subst (λ u. Delivered repo stored [] u e d) (append_cancel_left w [] written (append-nil w ∙ h))
      (λ rest. (d, [], refl, tt, step))
Encodes-Delivered repo stored
      (message {q = q} {qs = qs} {room = room} {w = w} {w' = w'} {e = e} {e' = e'} {e'' = e''} h
        sent more)
      d step written same =
    let (one, e1, receives) = one-Receives repo stored d e e' q room w w' h sent step in
    let (others, e2) = appended repo stored more in
    let parts = sym same ∙ e2 ∙ ap (λ l. l ++ others) e1 ∙ append_assoc w one others in
    subst (λ u. Delivered repo stored (q ∷ qs) u e'' d)
      (sym (append_cancel_left w written (one ++ others) parts))
      (message-Delivered repo stored q qs e' e'' d one others receives
        (λ d' step'. Encodes-Delivered repo stored more d' step' others e2))

-- The messages that an encoder writes, each behind the one before, are received one after the other: a
-- decoder that was in step with the encoder decodes from the bytes of all of them the same messages in
-- order, leaves what follows, and is in step with the encoder again. Each message is accepted as the
-- encoder stands when its turn comes.
pub decode_all-Encodes :
    (repo : Repository) (stored : ℕ → ℕ → Slot ℕ) (qs : List Request) (e e' : MessageEncoder)
    (d : MessageDecoder) (w w' : List ℕ)
    → Encodes repo e w qs e' w'
    → InStep repo e d
    → (written : List ℕ) × (w' ≡ w ++ written) × Delivered repo stored qs written e' d
decode_all-Encodes repo stored qs e e' d w w' run step =
    let (written, same) = appended repo stored run in
    (written, same, Encodes-Delivered repo stored run d step written same)
