-- ===== src/Tests/FormatSuite.antt =====
-- The unit tests of src/storage/header.rs, record.rs and index.rs, on the model with the concrete
-- crates.
use cndb.Prelude.{◌≡◌, refl, true, [], ◌∷◌}
use cndb.Record.{encode_frame, decode_frame, total_len, verify_payload, is_document}
use cndb.Header
use cndb.Header.{select_live, victim_slot}
use cndb.Collections.{contains, get, insert, keys, contains_key, add, without}
use cndb.Index
use cndb.Index.{
  allocate_id, insert_offset, mark_dead, offset_of, is_live, live_count, dead_count, dead_ratio,
}
use cndb.Float.{bounded, of_usize, div, rounded, nearest, pick, exponent}
use cndb.Suite.{all_pass}
use cndb.Suite.Slots
use cndb.Suite.Frames
use cndb.Suite.Indexes
use cndb.Tests.Bincode.{crates}

header_tests :
    all_pass (
      Slots.layout_is_exactly_one_slot crates.hash
      ∷ Slots.roundtrips crates.hash
      ∷ Slots.initial_header_points_past_the_header_region crates.hash
      ∷ Slots.rejects_bad_magic crates.hash
      ∷ Slots.rejects_wrong_version crates.hash
      ∷ Slots.detects_corruption_in_every_field crates.hash
      ∷ Slots.live_slot_is_the_highest_generation
      ∷ Slots.live_slot_ignores_a_damaged_partner
      ∷ Slots.victim_is_never_the_live_slot
      ∷ [])
    ≡ true
unfolding Header.encode Header.decode select_live victim_slot
header_tests = refl

record_tests :
    all_pass (
      Frames.frame_roundtrips crates.hash
      ∷ Frames.empty_payload_is_legal crates.hash
      ∷ Frames.detects_a_single_flipped_bit_in_the_payload crates.hash
      ∷ Frames.every_kind_survives_its_tag crates.hash
      ∷ Frames.rejects_unknown_kinds crates.hash
      ∷ Frames.rejects_absurd_lengths_before_allocating crates.hash
      ∷ Frames.only_user_data_counts_as_a_document
      ∷ [])
    ≡ true
unfolding encode_frame decode_frame total_len verify_payload is_document
record_tests = refl

index_tests :
    all_pass (
      Indexes.ids_start_at_one_and_never_repeat
      ∷ Indexes.tombstones_hide_documents_without_losing_the_offset
      ∷ Indexes.counts_and_ratio_track_tombstones
      ∷ Indexes.roundtrips_through_bincode crates
      ∷ Indexes.rejects_a_truncated_blob crates
      ∷ [])
    ≡ true
unfolding Index.encode Index.decode allocate_id insert_offset mark_dead offset_of is_live contains
    get insert keys contains_key add live_count dead_count dead_ratio Index.live_ids without
    of_usize div bounded rounded nearest pick exponent
index_tests = refl
