-- ===== src/Tests/EngineSuite.antt =====
-- The unit tests of src/storage/engine.rs, on the model with the concrete crates.
use cndb.Prelude.{◌≡◌, refl, true, [], ◌∷◌}
use cndb.Record.{encode_frame, decode_frame, total_len, verify_payload}
use cndb.Header
use cndb.Header.{select_live, victim_slot, set_slot, slot_offset}
use cndb.Collections.{contains, get, insert, keys, contains_key, add, without}
use cndb.Index
use cndb.Index.{allocate_id, insert_offset, mark_dead, offset_of, live_count, dead_count}
use cndb.File.{write_all_at, sync, write_bytes, advance, read_exact_at, bytes, overwrite}
use cndb.Log.{scan_loop, scan_record, read_record_at, read_frame_at}
use cndb.Engine.{
  append, append_raw, assign_id, read, read_record, tombstone, delete_record, verify, len, is_empty,
  live_ids, stats,
}
use cndb.Engine.Accessors.{generation, live_slot, is_dirty, index}
use cndb.Engine.Open.{open_db, load}
use cndb.Engine.Commit.{commit, commit_dirty, prepare, write_master, write_header}
use cndb.Suite.{all_pass}
use cndb.Suite.Engines
use cndb.Suite.Engines.Recoveries
use cndb.Suite.Engines.Documents
use cndb.Tests.Bincode.{crates}

appending_tests :
    all_pass (
      Engines.a_new_database_starts_empty_and_valid crates
      ∷ Engines.appends_are_readable_before_they_are_committed crates
      ∷ Engines.data_survives_a_reopen crates
      ∷ Engines.uncommitted_appends_are_lost_on_reopen crates
      ∷ Engines.an_uncommitted_append_is_overwritten_not_orphaned crates
      ∷ Engines.ids_do_not_restart_after_a_reopen crates
      ∷ Engines.commits_alternate_header_slots crates
      ∷ Engines.committing_nothing_does_nothing crates
      ∷ [])
    ≡ true
unfolding open_db load write_all_at sync write_bytes advance read_exact_at bytes overwrite
    Header.encode Header.decode select_live victim_slot set_slot slot_offset generation live_slot
    is_dirty index is_empty len live_count dead_count live_ids without verify scan_loop scan_record
    read_record_at read_frame_at decode_frame encode_frame verify_payload total_len append
    append_raw assign_id allocate_id insert_offset mark_dead offset_of insert get keys contains
    contains_key add commit commit_dirty prepare write_master write_header Index.encode Index.decode
    read read_record tombstone delete_record stats
appending_tests = refl

recovery_tests :
    all_pass (
      Recoveries.a_torn_header_falls_back_to_the_previous_generation crates
      ∷ Recoveries.recovery_still_works_after_writing_over_the_torn_slot crates
      ∷ Recoveries.both_headers_destroyed_is_reported_clearly crates
      ∷ Recoveries.a_foreign_file_is_rejected_as_not_a_database crates
      ∷ Recoveries.a_file_too_short_to_hold_headers_is_rejected crates
      ∷ Recoveries.a_truncated_file_is_rejected_rather_than_half_read crates
      ∷ Recoveries.corruption_in_the_payload_is_caught_on_read crates
      ∷ [])
    ≡ true
unfolding open_db load write_all_at sync write_bytes advance read_exact_at bytes overwrite
    Header.encode Header.decode select_live victim_slot set_slot slot_offset generation live_slot
    is_dirty index is_empty len live_count dead_count live_ids without verify scan_loop scan_record
    read_record_at read_frame_at decode_frame encode_frame verify_payload total_len append
    append_raw assign_id allocate_id insert_offset mark_dead offset_of insert get keys contains
    contains_key add commit commit_dirty prepare write_master write_header Index.encode Index.decode
    read read_record tombstone delete_record stats
recovery_tests = refl

document_tests :
    all_pass (
      Documents.tombstones_hide_documents_and_survive_a_reopen crates
      ∷ Documents.deleting_twice_or_deleting_nothing_is_an_error crates
      ∷ Documents.the_master_index_does_not_disturb_the_record_stream crates
      ∷ Documents.every_record_kind_roundtrips crates
      ∷ Documents.large_payload crates 600
      ∷ [])
    ≡ true
unfolding open_db load write_all_at sync write_bytes advance read_exact_at bytes overwrite
    Header.encode Header.decode select_live victim_slot set_slot slot_offset generation live_slot
    is_dirty index is_empty len live_count dead_count live_ids without verify scan_loop scan_record
    read_record_at read_frame_at decode_frame encode_frame verify_payload total_len append
    append_raw assign_id allocate_id insert_offset mark_dead offset_of insert get keys contains
    contains_key add commit commit_dirty prepare write_master write_header Index.encode Index.decode
    read read_record tombstone delete_record stats
document_tests = refl
