-- ===== src/Text/Outgrown.antt =====
-- The delta operator at a field whose block holds the base value and is too small for the text:
-- `apply_string_delta` of src/mfast/coder/common/codec_helper.h behind `save_to` of
-- src/mfast/vector_ref.h.
