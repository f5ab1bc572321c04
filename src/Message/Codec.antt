-- ===== src/Message/Codec.antt =====
-- What the encoder and the decoder of messages share between two messages.
use m_fast.Common.{
  ℕ, ◌≡◌, refl, sym, ap, ◌∙◌, inl, inr, Bool, false, ◌||◌, some, List, [], ◌∷◌, ◌==◌, ==→eq,
  if-both, if-true, if-false, Bool-cases,
}
use mathlib.Core.Option.{some-injective, none-ne-some}
use m_fast.Field.Storage.{Slot}
use m_fast.Field.Agreement.{SamePrevious}
use m_fast.Message.Template.{
  Template, Dictionary, Repository, find_template, reset_dictionary, begin_dictionary,
}
use m_fast.Message.Encoder.{MessageEncoder}
use m_fast.Message.Decoder.{MessageDecoder}
use m_fast.Message.Fields.{SameDictionary, save_at-SameDictionary}

-- The two sides between two messages: the dictionaries agree, and the encoder's active template is the
-- decoder's active message.
pub record InStep (repo : Repository) (e : MessageEncoder) (d : MessageDecoder) : Type 0 where
  pub dictionaries : SameDictionary e.dictionary d.dictionary
  pub active :
      (id : ℕ) → e.active_message_id ≡ some id → find_template id repo.templates ≡ d.active_message

undefined-SamePrevious :
    (pe pd : Slot ℕ)
    → SamePrevious pe pd
    → SamePrevious (record pe { defined = false }) (record pd { defined = false })
undefined-SamePrevious pe pd h = record { defined = refl; present = h.present; content = h.content }

reset-SameDictionary :
    (keys : List ℕ) (de dd : Dictionary)
    → SameDictionary de dd
    → SameDictionary (reset_dictionary keys de) (reset_dictionary keys dd)
unfolding reset_dictionary
reset-SameDictionary [] de dd h = h
reset-SameDictionary (key ∷ keys) de dd h =
    reset-SameDictionary keys _ _
      (save_at-SameDictionary key _ _ de dd (undefined-SamePrevious _ _ (h key)) h)

pub begin-SameDictionary :
    (repo : Repository) (force : Bool) (t : Template) (de dd : Dictionary)
    → SameDictionary de dd
    → SameDictionary (begin_dictionary repo force t de) (begin_dictionary repo force t dd)
begin-SameDictionary repo force t de dd h =
    if-both SameDictionary (force || t.reset) (force || t.reset) _ _ _ _ refl
      (λ _. reset-SameDictionary repo.reset_entries de dd h) (λ _. h)

-- A template that is found has the id that was looked for.
pub find_template_id :
    (id : ℕ) (ts : List Template) (t : Template) → find_template id ts ≡ some t → t.id ≡ id
unfolding find_template
find_template_id id [] t e = absurd (none-ne-some t e)
find_template_id id (u ∷ ts) t e = elim (Bool-cases (u.id == id)) [
  | inl h ↦ sym (ap (λ q. q.id) (some-injective u t (sym (if-true _ _ h) ∙ e))) ∙ ==→eq u.id id h
  | inr h ↦ find_template_id id ts t (sym (if-false _ _ h) ∙ e)
]
