-- ===== src/Text/TailJoin.antt =====
-- The tail that the encoder sends and the text that the decoder joins from it, and the decoder at a
-- bit that is not set.
use m_fast.Common.{
  ℕ, suc, ◌-◌, ◌^◌, ◌≤◌, ◌<◌, ◌≡◌, refl, sym, ap, ◌∙◌, subst, inl, inr, Bool-cases, ◌&&◌, true,
  false, List, [], ◌∷◌, ◌++◌, length, take, drop, if-elim, if-true, if-false, option-elim, ltb,
  ◌==◌, arith, ==→eq,
}
use m_fast.Wire.Istream.{clear_stop}
use m_fast.Field.Storage.{
  Slot, Instruction, BitSource, Yields, assign, as_field, is_nullable, save_previous_value,
}
use m_fast.Field.Decode.{done, on_read}
use m_fast.Text.Delta.{
  TextType, ascii, unicode, byte_vector, encode_text, copy_string_raw, applied, mismatch,
  join_delta,
}
use m_fast.Text.Operators.{text_save_to}
use m_fast.Text.Tail.{
  tail_base_value_of, same_text, tail_of, text_to_initial_value, min, saved_step, decode_tail_value,
  decode_tail_previous, decode_text_tail,
}
use m_fast.Text.Mismatch.{
  IsLetter, Shares, Answers, Answers-mismatch, take-drop, All-drop, length-drop,
}
use m_fast.Text.DeltaRoundTrip.{IsText, Reads-encode_text}

length-clear_stop : (raw : List ℕ) → length (clear_stop raw) ≡ length raw
unfolding clear_stop
length-clear_stop [] = refl
length-clear_stop (b ∷ []) = refl
length-clear_stop (b ∷ c ∷ bs) = ap suc (length-clear_stop (c ∷ bs))

length-copy_string_raw :
    (ty : TextType) (raw : List ℕ) → length (copy_string_raw ty raw) ≡ length raw
unfolding copy_string_raw
length-copy_string_raw ascii raw = length-clear_stop raw
length-copy_string_raw unicode raw = refl
length-copy_string_raw byte_vector raw = refl

-- `join_delta` with a subtraction length that is not negative
pub apply_front :
    (ty : TextType) (base raw : List ℕ) (n : ℕ)
    → n ≤ length base
    → n < 2 ^ 31
    → join_delta ty base n raw ≡ applied (take (length base - n) base ++ copy_string_raw ty raw)
unfolding join_delta
apply_front ty base raw n h k =
    if-true {b = ltb n (2 ^ 31)} _ _ (ground arith)
    ∙ if-false {b = ltb (length base) n} _ _ (ground arith)

min_le : (a b : ℕ) → min a b ≤ b
min_le a b = ground arith

min_right : (a b : ℕ) → b ≤ a → min a b ≡ b
min_right a b h = ground arith

pub min_left : (a b : ℕ) → a ≤ b → min a b ≡ a
min_left a b h = ground arith

pub same_text_sound : (xs ys : List ℕ) → same_text xs ys ≡ true → xs ≡ ys
unfolding same_text
same_text_sound [] [] h = refl
same_text_sound [] (y ∷ ys) h = cc
same_text_sound (x ∷ xs) [] h = cc
same_text_sound (x ∷ xs) (y ∷ ys) h = elim (Bool-cases (x == y)) [
  | inl e ↦
      rw (==→eq x y e)
        (ap (◌∷◌ y) (same_text_sound xs ys (sym (ap (λ b. b && same_text xs ys) e) ∙ h)))
  | inr e ↦ cc
]

-- What the decoder puts in front of the tail, the base value shortened by the length of the tail.
abbrev pub in_front : List ℕ → List ℕ → List ℕ
in_front tail base = take (length base - min (length tail) (length base)) base

whole_text : (str base : List ℕ) → length base ≤ length str → in_front str base ++ str ≡ str
whole_text str base h =
    let none_kept : length base - min (length str) (length base) ≡ 0 =
      omega (arith, min_right (length str) (length base) h) in
    ap (λ n. take n base ++ str) none_kept

rest_of_text :
    (k : ℕ) (str base : List ℕ)
    → length str ≡ length base
    → Shares k str base
    → in_front (drop k str) base ++ drop k str ≡ str
rest_of_text k str base e h =
    ap (λ n. take n base ++ drop k str)
      (ap (λ n. length base - n)
          (min_left (length (drop k str)) (length base) (omega (arith, e, length-drop k str)))
        ∙ omega (arith, e, h.left, length-drop k str))
    ∙ ap (λ l. l ++ drop k str) (sym h.same)
    ∙ take-drop k str

-- The tail of a text behind what is in front of it, for a text that is not shorter.
pub tail_restores :
    (str base : List ℕ)
    → length base ≤ length str
    → in_front (tail_of str base) base ++ tail_of str base ≡ str
unfolding tail_of
tail_restores str base h =
    let P = λ (t : List ℕ). in_front t base ++ t ≡ str in
    if-elim P (length str == length base) _ _
      (λ e.
        option-elim P (mismatch str base) _ _ (λ _. whole_text str base h)
          (λ k m.
            rest_of_text k str base (==→eq _ _ e)
              (subst (Answers str base) m (Answers-mismatch str base))))
      (λ _. whole_text str base h)

-- A text that is shorter is sent whole.
pub tail_of_shorter : (str base : List ℕ) → length str < length base → tail_of str base ≡ str
unfolding tail_of
tail_of_shorter str base h = if-false {b = length str == length base} _ _ (ground arith)

drop-IsText : (ty : TextType) (k : ℕ) (str : List ℕ) → IsText ty str → IsText ty (drop k str)
drop-IsText ascii k str h = (omega (arith, h.0, length-drop k str), All-drop IsLetter k str h.1)
drop-IsText unicode k str h = omega (arith, h, length-drop k str)
drop-IsText byte_vector k str h = omega (arith, h, length-drop k str)

pub tail_of-IsText :
    (ty : TextType) (str base : List ℕ) → IsText ty str → IsText ty (tail_of str base)
unfolding tail_of
tail_of-IsText ty str base h =
    if-elim (IsText ty) (length str == length base) _ _
      (λ _.
        option-elim (IsText ty) (mismatch str base) _ _ (λ _. h) (λ k _. drop-IsText ty k str h))
      (λ _. h)

module _ (ty : TextType) (src : BitSource) (inst : Instruction (List ℕ))
    (f fd p : Slot (List ℕ)) where
  -- The text that the decoder puts together from a tail.
  abbrev pub joined : List ℕ → List ℕ
  joined t = in_front t (tail_base_value_of inst p) ++ t

  pub tail_joined :
      (t : List ℕ) (m : src.Map) (rest : List ℕ)
      → IsText ty t
      → length (tail_base_value_of inst p) < 2 ^ 31
      → decode_tail_value ty src inst p fd m (encode_text ty t (is_nullable inst) ++ rest)
        ≡ saved_step ty src (assign (joined t) fd) m rest
  unfolding decode_tail_value
  tail_joined t m rest h b =
      let base = tail_base_value_of inst p in
      let (raw, read, copied) = Reads-encode_text ty (is_nullable inst) t rest h in
      let len : length raw ≡ length t = sym (length-copy_string_raw ty raw) ∙ ap length copied in
      let put =
        apply_front ty base raw (min (length raw) (length base)) (min_le (length raw) (length base))
          (omega (arith, b, min_le (length raw) (length base)))
        ∙ ap applied (
            ap (λ l. take (length base - min (length raw) (length base)) base ++ l) copied
            ∙ ap (λ n. take (length base - min n (length base)) base ++ t) len) in
      rw (read, on_read) (rw put refl)

  pub tail_kept :
      (p.defined ≡ true) × (p.present ≡ true)
      → f.present ≡ true
      → f.content ≡ tail_base_value_of inst p
      → (m : src.Map) (rest : List ℕ)
      → decode_tail_previous ty src inst p fd m rest
        ≡ done (save_previous_value inst f p) (as_field inst f fd) m rest
  unfolding decode_tail_previous tail_base_value_of
  tail_kept (d, q) present e m rest = ground (arith, d, q, present, e)

  pub tail_initial :
      (p.defined ≡ false) × (inst.initial.present ≡ true)
      → f.present ≡ true
      → f.content ≡ tail_base_value_of inst p
      → (m : src.Map) (rest : List ℕ)
      → decode_tail_previous ty src inst p fd m rest
        ≡ done (save_previous_value inst f p) (as_field inst f fd) m rest
  unfolding decode_tail_previous tail_base_value_of text_to_initial_value text_save_to
  tail_initial (d, i) present e m rest = ground (arith, d, i, present, e)

  pub tail_clear :
      (m m' : src.Map) (rest : List ℕ)
      → Yields src m (false ∷ []) m'
      → decode_text_tail ty src inst p fd m rest ≡ decode_tail_previous ty src inst p fd m' rest
  unfolding decode_text_tail
  tail_clear m m' rest (h, e) = rw (h, e)

  pub tail_set :
      (m m' : src.Map) (s : List ℕ)
      → Yields src m (true ∷ []) m'
      → decode_text_tail ty src inst p fd m s ≡ decode_tail_value ty src inst p fd m' s
  unfolding decode_text_tail
  tail_set m m' s (h, e) = rw (h, e)
