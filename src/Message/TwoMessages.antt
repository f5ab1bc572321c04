-- ===== src/Message/TwoMessages.antt =====
-- Two messages, one after the other.
use m_fast.Common.{ℕ, ◌≡◌, refl, true, false, some, List, [], ◌∷◌, ◌++◌, arith}
use m_fast.Wire.Ostream.{encode_int}
use m_fast.Field.Storage.{Slot}
use m_fast.Field.Decode.{delta_base_value_of}
use m_fast.Field.Encode.{encode_copy}
use m_fast.Field.Ints.{
  encode_by, int_is_same, int_is_initial_value, encode_int_delta, int_delta, set_content,
}
use m_fast.Buffer.Ostreambuf.{write_bytes_at, shrink_at}
use m_fast.PresenceMap.Encoder.{set_next_bit, next_mask, flush_full, commit}
use m_fast.Message.Template.{Dictionary, find_template, save_at, segment_pmap_size}
use m_fast.Message.Encoder.{
  encoded, MessageEncoder, encode_message, visit_template, visit_fields, visit_in_message, perform,
}
use m_fast.Message.Fields.{sending, send_field, send_fields, AllReady}
use m_fast.Message.Transcript.{Accepted, Request, nothing, message}
use m_fast.Message.Delivery.{Delivered, decode_all-Encodes}
use m_fast.Message.Runs.{
  unset, held, price, number, quote_template, quotes, quote, saved_quote, new_encoder, new_decoder,
  new-InStep, quote_sends, quote-AllReady,
}

-- A second quote at the same price, with the next number.
abbrev next_quote : List (Slot ℕ)
next_quote = held 5 ∷ held 8 ∷ []

abbrev saved_next : Dictionary
saved_next = save_at 1 (held 8) (save_at 0 (held 5) saved_quote)

abbrev first_request : Request
first_request = record { force_reset = false; template = quote_template; fields = quote }

abbrev second_request : Request
second_request = record { force_reset = false; template = quote_template; fields = next_quote }

abbrev encoder_after : Dictionary → MessageEncoder
encoder_after dict = record { active_message_id = some 3; dictionary = dict }

abbrev first_bytes : List ℕ
first_bytes = 9 ∷ 0xE0 ∷ 0x83 ∷ 0x85 ∷ 0x87 ∷ []

first_Accepted : Accepted quotes false quote_template quote new_encoder (0 ∷ [])
unfolding find_template segment_pmap_size
first_Accepted = record {
  id_range = omega arith;
  found = refl;
  ready = quote-AllReady;
  dictionary = saved_quote;
  bits = true ∷ [];
  bytes = 0x85 ∷ 0x87 ∷ [];
  sends = quote_sends;
  kept = refl;
}

first_sent :
    encode_message quotes true false (0 ∷ []) 3 quote new_encoder (9 ∷ [])
    ≡ encoded (encoder_after saved_quote, first_bytes)
unfolding encode_message visit_template find_template segment_pmap_size visit_fields
    visit_in_message perform set_next_bit next_mask flush_full commit write_bytes_at shrink_at
    encode_by encode_copy int_is_initial_value int_is_same encode_int encode_int_delta
    delta_base_value_of int_delta set_content
first_sent = refl

second_sent :
    encode_message quotes true false (0 ∷ []) 3 next_quote (encoder_after saved_quote) first_bytes
    ≡ encoded (encoder_after saved_next, first_bytes ++ (0x80 ∷ 0x81 ∷ []))
unfolding encode_message visit_template find_template segment_pmap_size visit_fields
    visit_in_message perform set_next_bit next_mask flush_full commit write_bytes_at shrink_at
    encode_by encode_copy int_is_initial_value int_is_same encode_int encode_int_delta
    delta_base_value_of int_delta set_content
second_sent = refl

next_sends :
    send_fields (price ∷ number ∷ []) next_quote saved_quote
    ≡ sending saved_next (false ∷ []) (0x81 ∷ [])
unfolding send_fields send_field encode_by encode_copy int_is_initial_value int_is_same encode_int
    encode_int_delta delta_base_value_of int_delta set_content
next_sends = refl

next-AllReady : AllReady (price ∷ number ∷ []) next_quote saved_quote
unfolding AllReady send_field encode_by encode_copy int_is_initial_value int_is_same encode_int
    encode_int_delta delta_base_value_of int_delta set_content
next-AllReady = (
  record { visited = refl; range = omega arith; representable = tt; encodable = tt },
  (
    record {
      visited = refl;
      range = omega arith;
      representable = tt;
      encodable = (omega arith, omega arith);
    },
    tt,
  ),
)

second_Accepted :
    Accepted quotes false quote_template next_quote (encoder_after saved_quote) (0 ∷ [])
unfolding find_template segment_pmap_size
second_Accepted = record {
  id_range = omega arith;
  found = refl;
  ready = next-AllReady;
  dictionary = saved_next;
  bits = false ∷ [];
  bytes = 0x81 ∷ [];
  sends = next_sends;
  kept = refl;
}

decode_all-Encodes_example :
    (written : List ℕ) × (first_bytes ++ (0x80 ∷ 0x81 ∷ []) ≡ (9 ∷ []) ++ written)
    × Delivered quotes
        (λ _ _. unset)
        (first_request ∷ second_request ∷ [])
        written
        (encoder_after saved_next)
        new_decoder
decode_all-Encodes_example =
    decode_all-Encodes quotes (λ _ _. unset) (first_request ∷ second_request ∷ []) new_encoder
      (encoder_after saved_next) new_decoder (9 ∷ []) (first_bytes ++ (0x80 ∷ 0x81 ∷ []))
      (message {q = first_request} {room = 0 ∷ []} {e' = encoder_after saved_quote} first_Accepted
        first_sent
        (message {q = second_request} {room = 0 ∷ []} {e'' = encoder_after saved_next}
          second_Accepted second_sent nothing))
      new-InStep
