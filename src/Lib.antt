-- ===== src/Lib.antt =====
-- mFAST encodes and decodes messages of the FAST protocol. This library models the core of its codec and
-- proves that what the encoder writes the decoder reads back.
--
-- Common holds what the modules share: tests on numbers, lists measured by native numbers, case lemmas.
--
-- Wire is the transfer encoding. A stream is the list of the bytes that are left, a C++ integer of w bits
-- is its bit pattern, a number below 2 ^ w, and a read beyond the buffer, which C++ leaves undefined, is
-- the error `fault`.
-- - Wire/Outcome: exceptions (mfast/exceptions.h) and the monad of readers.
-- - Wire/IntType: the integer types; int16 is the exponent of a decimal.
-- - Wire/Istream: fast_istream::decode (mfast/coder/decoder/fast_istream.h) for integers, ascii strings,
--   unicode strings and byte vectors, with fast_istreambuf and operator>>.
-- - Wire/Ostream: fast_ostream::encode (mfast/coder/encoder/fast_ostream.h) as the bytes that it hands to
--   the buffer.
-- - Wire/Decimal: decimals that have no operators of their own.
-- - Wire/Safety: decode on any bytes. Wire/Room and Bounds: the buffer of encode.
-- The loops are recursions on the bytes that are left and on the rounds that `buffer` allows, which is
-- enough for every value.
--
-- Field is the operators of a template's fields (mfast/coder/decoder/decoder_field_operator.cpp and
-- mfast/coder/encoder/encoder_field_operator.cpp).
-- - Field/Storage: value_storage, the flags of an instruction, references to fields. A type of field is a
--   FieldKind, the presence map of the decoder a BitSource; the operators are sections over these as the
--   C++ is templates. The encoder's calls of set_next_bit are listed in order.
-- - Field/Decode and Field/Encode: the operators that serve every kind of field.
-- - Field/Ints: integer fields, the delta operator at them, and the tables of operators.
-- - The other modules below Field prove the round trip.
--
-- Buffer is the output buffer (mfast/coder/encoder/fast_ostreambuf.h and .cpp): the list
-- of the bytes from pbase_ to pptr_.
-- - Buffer/Ostreambuf: write_bytes_at and its loop.
-- - Buffer/Put and Growth: sputc, sputn and skip, for the fixed buffer and for the resizable one
--   (mfast/coder/encoder/resizable_fast_ostreambuf.h). The loops have fuel for two rounds, and Growth shows
--   that they need no more.
-- - The other modules below Buffer: what shrinking a presence map leaves.
--
-- PresenceMap is the presence maps.
-- - PresenceMap/Decoder: decoder_presence_map (mfast/coder/decoder/decoder_presence_map.h) and its loading
--   by fast_istream; `none` for the bytes is a read beyond the buffer. The nine rounds of `load` are those
--   of the source.
-- - PresenceMap/Encoder: encoder_presence_map (mfast/coder/encoder/encoder_presence_map.h) with its 64-bit
--   words, which lie in memory with the least byte first. What `skip` leaves in the buffer is any bytes.
-- - PresenceMap/EncoderSteps, SetNextBit, EncoderRun, EncoderFlush and EncoderCommit: what the calls do to
--   the groups in the word and in the stream.
-- - PresenceMap/RoundTrip: both sides together.
-- - PresenceMap/Bits, Loading and DecoderBits: the bits of the groups, and that the map gives them.
--
-- V2 is the coders of the second version, in which the compiler chooses the operator
-- (mfast/coder/decoder_v2/fast_decoder_core.h and mfast/coder/encoder_v2/fast_encoder_core.h), at integer
-- fields.
-- - V2/Ext: what the compiler knows of a field (mfast/ext_ref.h).
-- - V2/Decode and V2/Encode: decode_field and encode_field.
-- - V2/DecodeSame and V2/EncodeSame: the second version against the first; V2/RoundTrip: its two sides.
--
-- Text is the delta and tail operators at strings and byte vectors, in the same files as Field, with
-- mfast/coder/common/codec_helper.h. A previous value is its characters. Whether they stand
-- in the block of the field, as save_to leaves them, and how large that block is, is given to each delta as
-- a `Memory`; where reallocate gives a block back, its characters count as gone.
-- - Text/Delta: the difference of two texts and apply_string_delta.
-- - Text/Operators and Text/Tail: the operators.
-- - Text/Mismatch, DeltaRoundTrip, Outgrown and Bounds: what std::mismatch finds, and the delta operator.
-- - Text/TailJoin and TailRoundTrip: the tail operator.
--
-- Message is messages whose fields are integers (mfast/coder/encoder/fast_encoder.cpp and
-- mfast/coder/decoder/fast_decoder.cpp). Where an exception leaves a coder is not modelled.
-- - Message/Template: templates, their repository (mfast/coder/common/template_repo.h) and the dictionary,
--   in which a field's key stands for the storage that prev_value_ points to.
-- - Message/Encoder: visit(message_cref) on a stream and an encoder_presence_map.
-- - Message/Decoder: decode_segment.
-- - Message/Fields and FieldsRoundTrip: what the fields send, as a list of bits and a list of bytes, and
--   that the decoder receives it.
-- - Message/Interleaving, Performs and EncodeRun: that the encoder sends just that, although it sets bits
--   and writes bytes in turn; Message/BitCount: the number of bits.
-- - Message/Codec and RoundTrip: what the two sides share between messages, and whole messages.
-- - Message/Transcript and Delivery: messages one after another, as a step relation on the encoder.
-- - Message/IntVector: vectors of integers; Message/Skipped: absent fields that the encoder skips.
--
-- Nested is messages with groups and sequences, in the same files as Message.
-- - Nested/Template: the tree of instructions, with an absent group or sequence as `none`.
-- - Nested/Encoder and Decoder: visit of a group, of a sequence and of its elements. What skip leaves in
--   the buffer for a presence map is a parameter, as is what storage held before.
-- - Nested/Plan: the bits that the parts of a message set in the map around them, what encoder and decoder
--   share, and what the encoder takes for granted.
-- - Nested/Carries: a step of the encoder and the reading that receives it, and how they compose.
-- - Nested/Leaf, AbsentLength, Segment, BitCount and RoundTrip: that every part is received.
-- - Nested/Message, MessageRun and Delivery: visit(message_cref) and decode_segment with such parts.
--
-- Container is the storage of strings and byte vectors (mfast/vector_ref.h), for elements of one byte.
-- - Container/Array: value_storage::of_array with the bytes of the block that content_ points to, and what
--   the containers rely on of an allocator (mfast/allocator.h). `none` is an access outside the block.
-- - Container/Allocators: malloc_allocator and reallocate of arena_allocator against that interface; what
--   realloc and allocate leave in a new block are parameters, and memory does not run out.
-- - Container/Vector: the operations.
-- - Container/Blocks, Reserve, Gap, Assign, Insert, Replace and ReplaceShorter: what they do to the text;
--   Container/Overruns: where they leave the block.
-- - Container/Calls: six kinds of calls in any order, against a list of bytes.
-- The length of a text is bounded so that len_ and the 31 bits of capacity_in_bytes_ do not wrap.
--
-- Builder is the dictionary of previous values (mfast/coder/common/dictionary_builder.cpp).
-- - Builder/Dictionary: get_dictionary_storage. A storage and an instruction are numbers; a null name is
--   the empty one.
-- - Builder/Groups: the visits of fields, groups and sequences, and clone_instruction.
-- - Builder/Index: what holds of each field holds of a template; Builder/Find: the index as it grows.
-- - Builder/Invariant, Sharing and Agreement: what the index and the list of resets hold, which fields
--   share a storage, and when nothing is thrown.
-- References to templates within a template and the list of storages that own memory are left out.
--
-- Signed overflow, which C++ leaves undefined, is taken to wrap.
--
-- Not modelled: logging, vectors of wider elements as storage, the XML of templates, JSON, SQLite, the code generator; string fields under the other operators, decimal fields under operators; nested messages (templateRef without a name).
pub mod Common
pub mod Wire
pub mod Field
pub mod Buffer
pub mod PresenceMap
pub mod V2
pub mod Text
pub mod Message
pub mod Container
pub mod Nested
pub mod Builder
