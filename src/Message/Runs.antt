-- ===== src/Message/Runs.antt =====
-- Concrete runs of the message coders, and their theorems at concrete inputs.
use m_fast.Common.{ℕ, ◌≡◌, refl, Bool, true, false, none, some, List, [], ◌∷◌, ◌++◌, arith}
use mathlib.Core.Option.{none-ne-some}
use m_fast.Wire.IntType.{uint32, int64}
use m_fast.Wire.Outcome.{ok}
use m_fast.Wire.Ostream.{encode_int}
use m_fast.PresenceMap.Encoder.{init}
use m_fast.Field.Storage.{operator_copy, operator_delta, Slot, BitSource}
use m_fast.Field.Decode.{delta_base_value_of}
use m_fast.Field.Encode.{encode_copy}
use m_fast.Field.Ints.{encode_by, int_is_initial_value, encode_int_delta, int_delta, set_content}
use m_fast.Message.Template.{
  FieldInstruction, Template, Dictionary, Repository, find_template, save_at, segment_pmap_size,
}
use m_fast.Message.Encoder.{encoded, MessageEncoder, encode_message, EncoderState, visit_fields}
use m_fast.Message.Decoder.{MessageDecoder, decode_segment}
use m_fast.Message.Fields.{sending, send_field, send_fields, AllReady}
use m_fast.Message.Codec.{InStep}
use m_fast.Message.Performs.{Performs, visit_fields-Performs}
use m_fast.Message.BitCount.{SetsAll, send_fields-SetsAll}
use m_fast.Message.IntVector.{
  encode_int_vector, decode_int_vector, decode_int_vector-encode_int_vector,
}
use m_fast.Message.RoundTrip.{Receives, decode_segment-encode_message}

abbrev next_bit : List Bool → Bool × List Bool
next_bit [] = (false, [])
next_bit (b ∷ bs) = (b, bs)

abbrev bit_list : BitSource
bit_list = record { Map = List Bool; is_next_bit_set = next_bit }

abbrev pub unset : Slot ℕ
unset = record { defined = false; present = false; content = 0 }

abbrev pub held : ℕ → Slot ℕ
held v = record { defined = true; present = true; content = v }

-- A copied price and a sequence number as a difference.
abbrev pub price : FieldInstruction
price = record {
  type = uint32;
  instruction = record { operator = operator_copy; optional = false; initial = unset };
  key = 0;
}

abbrev pub number : FieldInstruction
number = record {
  type = int64;
  instruction = record { operator = operator_delta; optional = false; initial = unset };
  key = 1;
}

abbrev pub quote_template : Template
quote_template = record { id = 3; reset = false; fields = price ∷ number ∷ [] }

abbrev pub quotes : Repository
quotes = record { templates = quote_template ∷ []; reset_entries = 0 ∷ 1 ∷ [] }

abbrev pub quote : List (Slot ℕ)
quote = held 5 ∷ held 7 ∷ []

abbrev pub empty_dictionary : Dictionary
empty_dictionary key = unset

abbrev pub saved_quote : Dictionary
saved_quote = save_at 1 (held 7) (save_at 0 (held 5) empty_dictionary)

abbrev pub new_encoder : MessageEncoder
new_encoder = record { active_message_id = none; dictionary = empty_dictionary }

abbrev pub new_decoder : MessageDecoder
new_decoder = record { active_message = none; dictionary = empty_dictionary }

pub new-InStep : InStep quotes new_encoder new_decoder
new-InStep = record {
  dictionaries = λ key. record { defined = refl; present = refl; content = λ _. refl };
  active = λ id h. absurd (none-ne-some id h);
}

pub quote_sends :
    send_fields (price ∷ number ∷ []) quote empty_dictionary
    ≡ sending saved_quote (true ∷ []) (0x85 ∷ 0x87 ∷ [])
unfolding send_fields send_field encode_by encode_copy int_is_initial_value encode_int
    encode_int_delta delta_base_value_of int_delta set_content
quote_sends = refl

pub quote-AllReady : AllReady (price ∷ number ∷ []) quote empty_dictionary
unfolding AllReady send_field encode_by encode_copy int_is_initial_value encode_int encode_int_delta
    delta_base_value_of int_delta set_content
quote-AllReady = (
  record { visited = refl; range = omega arith; representable = tt; encodable = tt },
  (
    record {
      visited = refl;
      range = omega arith;
      representable = tt;
      encodable = (omega arith, omega arith);
    },
    tt,
  ),
)

decode_segment-encode_message_example :
    (written : List ℕ) × (e : MessageEncoder) × (encode_message quotes true false
        (0 ∷ [])
        3
        quote
        new_encoder
        (9 ∷ [])
      ≡ encoded (e, (9 ∷ []) ++ written))
    × Receives quotes e quote_template quote
        (decode_segment quotes false (λ _ _. unset) new_decoder (written ++ (8 ∷ [])))
        (8 ∷ [])
unfolding find_template segment_pmap_size
decode_segment-encode_message_example =
    decode_segment-encode_message quotes false (λ _ _. unset) quote_template quote new_encoder
      new_decoder saved_quote (true ∷ []) (0x85 ∷ 0x87 ∷ []) (0 ∷ []) (9 ∷ []) (8 ∷ [])
      (omega arith) refl new-InStep quote-AllReady quote_sends refl

-- The price, now optional, as an absent field behind the price 5.
abbrev some_state : EncoderState
some_state = record { dictionary = saved_quote; map = init 2 []; stream = 0 ∷ [] }

abbrev optional_price : FieldInstruction
optional_price = record price {
  instruction = record { operator = operator_copy; optional = true; initial = unset };
}

visit_fields-Performs_example :
    Performs some_state
      (send_fields (price ∷ number ∷ []) quote saved_quote)
      (visit_fields (price ∷ number ∷ []) quote some_state)
visit_fields-Performs_example = visit_fields-Performs (price ∷ number ∷ []) quote some_state

send_fields-SetsAll_example :
    SetsAll
      (segment_pmap_size (price ∷ number ∷ []))
      (send_fields (price ∷ number ∷ []) quote empty_dictionary)
send_fields-SetsAll_example =
    send_fields-SetsAll (price ∷ number ∷ []) quote empty_dictionary quote-AllReady

decode_int_vector-encode_int_vector_example :
    (decode_int_vector int64 true
        (encode_int_vector int64 true (some (5 ∷ 0 ∷ 300 ∷ [])) ++ (9 ∷ []))
      ≡ ok (some (5 ∷ 0 ∷ 300 ∷ [])) (9 ∷ []))
    × (decode_int_vector int64 true (encode_int_vector int64 true none ++ (9 ∷ []))
        ≡ ok none (9 ∷ []))
    × (decode_int_vector int64 false (encode_int_vector int64 false none ++ (9 ∷ []))
        ≡ ok (some []) (9 ∷ []))
decode_int_vector-encode_int_vector_example =
    decode_int_vector-encode_int_vector int64 true (5 ∷ 0 ∷ 300 ∷ []) (9 ∷ []) (omega arith)
      (omega arith)
