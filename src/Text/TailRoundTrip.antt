-- ===== src/Text/TailRoundTrip.antt =====
-- The tail operator at a string or byte vector that is present: what the encoder sends, and what the
-- decoder makes of it.
use m_fast.Common.{
  ℕ, ◌-◌, ◌^◌, ◌≤◌, ◌<◌, ◌≡◌, refl, sym, ap, ◌∙◌, subst, ◌⊎◌, inl, inr, Bool, not, ◌&&◌, true,
  false, List, [], ◌∷◌, ◌++◌, length, take, if-elim, if-true, if-false, arith,
}
use m_fast.Field.Storage.{
  Slot, Instruction, BitSource, Yields, absent, assign, as_field, is_nullable, save_previous_value,
}
use m_fast.Field.Decode.{Step, done}
use m_fast.Field.Encode.{Sent, sent, refused}
use m_fast.Text.Delta.{TextType, encode_text}
use m_fast.Text.Operators.{text_save_to}
use m_fast.Text.Tail.{
  tail_base_value_of, same_text, text_of, tail_of, encode_text_tail, saved_step, decode_text_tail,
}
use m_fast.Text.DeltaRoundTrip.{IsText}
use m_fast.Text.TailJoin.{
  joined, tail_joined, tail_kept, tail_initial, tail_clear, tail_set, same_text_sound,
  tail_restores, tail_of_shorter, min_left, tail_of-IsText,
}

-- The decoder has the text that the encoder leaves out: the previous value, or the initial value.
abbrev pub Held : Instruction (List ℕ) → Slot (List ℕ) → Type 0
Held inst p =
    ((p.defined ≡ true) × (p.present ≡ true))
    ⊎ ((p.defined ≡ false) × (inst.initial.present ≡ true))

-- What was sent is received, with any rest behind it, as `field`.
abbrev pub ReceivedAs :
    (src : BitSource)
    → Slot (List ℕ)
    → Slot (List ℕ)
    → (src.Map → List ℕ → Step (List ℕ) src.Map)
    → Sent (List ℕ)
    → Type 0
ReceivedAs src prev field decode (sent pe bits bytes) =
    (m m' : src.Map) (rest : List ℕ)
    → Yields src m bits m'
    → decode m (bytes ++ rest) ≡ done prev field m' rest
ReceivedAs src prev field decode (refused e) = Unit

present-absent :
    (inst : Instruction (List ℕ)) (f : Slot (List ℕ)) → f.present ≡ true → absent inst f ≡ false
present-absent inst f h = ground (arith, h)

-- The encoder saves the field on every branch.
abbrev pub Saves : Slot (List ℕ) → Sent (List ℕ) → Type 0
Saves prev (sent pe bits bytes) = prev ≡ pe
Saves prev (refused e) = Unit

Saves-encode_text_tail :
    (ty : TextType) (inst : Instruction (List ℕ)) (f p : Slot (List ℕ))
    → Saves (save_previous_value inst f p) (encode_text_tail ty inst p f)
unfolding encode_text_tail
Saves-encode_text_tail ty inst f p =
    let S = Saves (save_previous_value inst f p) in
    if-elim S (same_text (text_of f) (tail_base_value_of inst p)) _ _ (λ _. refl)
      (λ _.
        if-elim S (absent inst f) _ _
          (λ _. if-elim S (p.defined && not p.present) _ _ (λ _. refl) (λ _. refl)) (λ _. refl))

saved_by_tail :
    (ty : TextType) (inst : Instruction (List ℕ)) (f p p' : Slot (List ℕ)) (bits : List Bool)
    (bytes : List ℕ)
    → encode_text_tail ty inst p f ≡ sent p' bits bytes
    → save_previous_value inst f p ≡ p'
saved_by_tail ty inst f p p' bits bytes e =
    subst (Saves (save_previous_value inst f p)) e (Saves-encode_text_tail ty inst f p)

module _ (ty : TextType) (src : BitSource) (inst : Instruction (List ℕ)) (f fd p : Slot (List ℕ))
    (present : f.present ≡ true) (t : IsText ty f.content)
    (b : length (tail_base_value_of inst p) < 2 ^ 31) where
  abbrev decode : src.Map → List ℕ → Step (List ℕ) src.Map
  decode = decode_text_tail ty src inst p fd

  left_out :
      Held inst p
      → same_text (text_of f) (tail_base_value_of inst p) ≡ true
      → (m m' : src.Map) (rest : List ℕ) → Yields src m (false ∷ []) m'
      → decode m rest ≡ done (save_previous_value inst f p) (as_field inst f fd) m' rest
  left_out held e m m' rest y =
      let same = sym (if-true f.content [] present) ∙ same_text_sound _ _ e in
      tail_clear ty src inst f fd p m m' rest y ∙ elim held [
        | inl h ↦ tail_kept ty src inst f fd p h present same m' rest
        | inr h ↦ tail_initial ty src inst f fd p h present same m' rest
      ]

  written :
      (str : List ℕ) (m m' : src.Map) (rest : List ℕ)
      → joined ty src inst f fd p (tail_of f.content (tail_base_value_of inst p)) ≡ str
      → Yields src m (true ∷ []) m'
      → decode m (
          encode_text ty (tail_of f.content (tail_base_value_of inst p)) (is_nullable inst) ++ rest)
        ≡ saved_step ty src (assign str fd) m' rest
  written str m m' rest e y =
      tail_set ty src inst f fd p m m' _ y
      ∙ tail_joined ty src inst f fd p _ m' rest (tail_of-IsText ty f.content _ t) b
      ∙ ap (λ l. saved_step ty src (assign l fd) m' rest) e

  saved_as :
      (m : src.Map) (rest : List ℕ)
      → saved_step ty src (assign f.content fd) m rest
        ≡ done (save_previous_value inst f p) (as_field inst f fd) m rest
  unfolding text_save_to
  saved_as m rest = rw (present-absent inst f present) refl

  tail-ReceivedAs :
      length (tail_base_value_of inst p) ≤ length f.content
      → (same_text (text_of f) (tail_base_value_of inst p) ≡ true → Held inst p)
      → ReceivedAs src
          (save_previous_value inst f p)
          (as_field inst f fd)
          decode
          (encode_text_tail ty inst p f)
  unfolding encode_text_tail
  tail-ReceivedAs h held =
      let D = ReceivedAs src (save_previous_value inst f p) (as_field inst f fd) decode in
      if-elim D (same_text (text_of f) (tail_base_value_of inst p)) _ _
        (λ e m m' rest y. left_out (held e) e m m' rest y)
        (λ _. subst D (sym (if-false _ _ (present-absent inst f present))) λ m m' rest y.
          written f.content m m' rest (tail_restores f.content _ h) y ∙ saved_as m' rest)

  shortened :
      length f.content < length (tail_base_value_of inst p)
      → joined ty src inst f fd p (tail_of f.content (tail_base_value_of inst p))
        ≡ take (length (tail_base_value_of inst p) - length f.content) (tail_base_value_of inst p)
          ++ f.content
  shortened h =
      let base = tail_base_value_of inst p in
      ap (joined ty src inst f fd p) (tail_of_shorter f.content base h)
      ∙ ap (λ n. take (length base - n) base ++ f.content)
          (min_left (length f.content) (length base) (omega (arith, h)))

  shorter-ReceivedAs :
      length f.content < length (tail_base_value_of inst p)
      → let g =
          assign
            (take
                (length (tail_base_value_of inst p) - length f.content)
                (tail_base_value_of inst p)
              ++ f.content)
            fd in
        ReceivedAs src (text_save_to g) g decode (encode_text_tail ty inst p f)
  unfolding encode_text_tail
  shorter-ReceivedAs h =
      let base = tail_base_value_of inst p in
      let g = assign (take (length base - length f.content) base ++ f.content) fd in
      let D = ReceivedAs src (text_save_to g) g decode in
      if-elim D (same_text (text_of f) base) _ _
        (λ e.
          let same = ap length (sym (if-true f.content [] present) ∙ same_text_sound _ _ e) in
          absurd (omega (arith, h, same)))
        (λ _.
          subst D (sym (if-false _ _ (present-absent inst f present)))
            λ m m' rest y. written _ m m' rest (shortened h) y)

-- A present text that the tail operator sends, from the previous value that the decoder has too, is
-- received as it was sent: the decoder ends with the encoder's previous value and takes exactly the bit
-- and the bytes that were sent. The text is not shorter than the base value; where it equals the base
-- value, that is the previous or the initial value; the base value is shorter than 2 ^ 31.
pub decode_text_tail-encode_text_tail :
    (ty : TextType) (src : BitSource) (inst : Instruction (List ℕ)) (f fd p p' : Slot (List ℕ))
    (bits : List Bool) (bytes rest : List ℕ) (m m' : src.Map)
    → f.present ≡ true
    → IsText ty f.content
    → length (tail_base_value_of inst p) < 2 ^ 31
    → length (tail_base_value_of inst p) ≤ length f.content
    → (same_text (text_of f) (tail_base_value_of inst p) ≡ true → Held inst p)
    → encode_text_tail ty inst p f ≡ sent p' bits bytes
    → Yields src m bits m'
    → decode_text_tail ty src inst p fd m (bytes ++ rest) ≡ done p' (as_field inst f fd) m' rest
decode_text_tail-encode_text_tail ty src inst f fd p p' bits bytes rest m m' present t b h held e
      y =
    subst
      (λ q.
        decode_text_tail ty src inst p fd m (bytes ++ rest) ≡ done q (as_field inst f fd) m' rest)
      (saved_by_tail ty inst f p p' bits bytes e)
      (subst
        (ReceivedAs src (save_previous_value inst f p) (as_field inst f fd)
          (decode_text_tail ty src inst p fd))
        e (tail-ReceivedAs ty src inst f fd p present t b h held) m m' rest y)

-- A present text that is shorter than the base value comes back with the front of the base value
-- before it, as long as the base value; the base value is shorter than 2 ^ 31.
pub tail_shorter :
    (ty : TextType) (src : BitSource) (inst : Instruction (List ℕ)) (f fd p p' : Slot (List ℕ))
    (bits : List Bool) (bytes rest : List ℕ) (m m' : src.Map)
    → f.present ≡ true
    → IsText ty f.content
    → length (tail_base_value_of inst p) < 2 ^ 31
    → length f.content < length (tail_base_value_of inst p)
    → encode_text_tail ty inst p f ≡ sent p' bits bytes
    → Yields src m bits m'
    → let g =
        assign
          (take (length (tail_base_value_of inst p) - length f.content) (tail_base_value_of inst p)
            ++ f.content)
          fd in
      decode_text_tail ty src inst p fd m (bytes ++ rest) ≡ done (text_save_to g) g m' rest
tail_shorter ty src inst f fd p p' bits bytes rest m m' present t b h e y =
    subst (ReceivedAs src _ _ (decode_text_tail ty src inst p fd)) e
      (shorter-ReceivedAs ty src inst f fd p present t b h) m m' rest y
