-- ===== src/Tests/CodecSuite.antt =====
-- The unit tests of src/document/codec.rs, on the model with concrete values.
use cndb.Prelude.{◌≡◌, refl, true, [], ◌∷◌}
use cndb.Document.{to_bson_bytes, from_bson_bytes}
use cndb.Suite.{all_pass}
use cndb.Suite.Codecs
use cndb.Tests.Values.{value_crates, json}

value_tests :
    all_pass (
      Codecs.flat_objects_roundtrip value_crates json
      ∷ Codecs.nested_objects_and_arrays_roundtrip value_crates json
      ∷ Codecs.scalar_types_keep_their_identity value_crates json
      ∷ Codecs.integers_do_not_silently_become_floats value_crates json
      ∷ Codecs.deep_nesting_roundtrips value_crates json
      ∷ Codecs.garbage_bytes_do_not_decode value_crates json
      ∷ Codecs.a_truncated_document_does_not_decode value_crates json
      ∷ [])
    ≡ true
unfolding to_bson_bytes from_bson_bytes
value_tests = refl
