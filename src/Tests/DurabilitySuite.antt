-- ===== src/Tests/DurabilitySuite.antt =====
-- The tests of tests/durability.rs, on the model with concrete values, the crash at any byte
-- with fewer documents.
use cndb.Prelude.{◌≡◌, refl, true, [], ◌∷◌}
use cndb.Record.{encode_frame, decode_frame, verify_payload, total_len}
use cndb.Header
use cndb.Header.{select_live, victim_slot, set_slot, slot_offset}
use cndb.Collections.{contains, get, insert, keys, contains_key, add, without}
use cndb.Index
use cndb.Index.{allocate_id, insert_offset, mark_dead, live_count, dead_count}
use cndb.File.{write_all_at, sync, write_bytes, advance, read_exact_at, bytes, overwrite}
use cndb.Log.{scan_loop, scan_record, read_record_at, read_frame_at}
use cndb.Engine
use cndb.Engine.{append, append_raw, assign_id, read, read_record, tombstone, delete_record}
use cndb.Engine.Open.{open_db, load}
use cndb.Engine.Commit.{commit, commit_dirty, prepare, write_master, write_header}
use cndb.Document.{to_bson_bytes, from_bson_bytes}
use cndb.Api
use cndb.Api.{open_handle, on_store, ids}
use cndb.Suite.{all_pass}
use cndb.Suite.Durability
use cndb.Suite.Durability.Sizes
use cndb.Tests.Bincode.{crates}
use cndb.Tests.Values.{value_crates, json}

durability_tests :
    all_pass (
      Durability.a_zero_length_prefix_is_treated_as_a_new_database_not_a_corrupt_one crates
      ∷ Durability.the_on_disk_layout_is_stable crates value_crates json
      ∷ Durability.a_database_written_by_a_future_version_is_refused crates value_crates json
      ∷ Durability.c9_the_file_is_self_contained_and_portable crates value_crates json
      ∷ Sizes.reopening_repeatedly_does_not_grow_the_file crates value_crates json
      ∷ [])
    ≡ true
unfolding open_db load write_all_at sync write_bytes advance read_exact_at bytes overwrite
    Header.encode Header.decode select_live victim_slot set_slot slot_offset Engine.is_empty
    Engine.len live_count Engine.live_ids Index.live_ids without Engine.verify scan_loop scan_record
    read_record_at read_frame_at decode_frame encode_frame verify_payload total_len append
    append_raw assign_id allocate_id insert_offset mark_dead insert get keys contains contains_key
    add commit commit_dirty prepare write_master write_header Index.encode Index.decode read
    read_record tombstone delete_record open_handle on_store ids Api.insert Api.get Api.delete
    Api.commit Api.verify Api.len Api.is_empty Api.stats Engine.stats dead_count to_bson_bytes
    from_bson_bytes
durability_tests = refl

crash_tests : all_pass (Durability.crash_at_any_byte crates value_crates json 3 2 ∷ []) ≡ true
unfolding open_db load write_all_at sync write_bytes advance read_exact_at bytes overwrite
    Header.encode Header.decode select_live victim_slot set_slot slot_offset Engine.is_empty
    Engine.len live_count Engine.live_ids Index.live_ids without Engine.verify scan_loop scan_record
    read_record_at read_frame_at decode_frame encode_frame verify_payload total_len append
    append_raw assign_id allocate_id insert_offset mark_dead insert get keys contains contains_key
    add commit commit_dirty prepare write_master write_header Index.encode Index.decode read
    read_record tombstone delete_record open_handle on_store ids Api.insert Api.get Api.delete
    Api.commit Api.verify Api.len Api.is_empty Api.stats Engine.stats dead_count to_bson_bytes
    from_bson_bytes
crash_tests = refl

leak_tests :
    all_pass
      (Sizes.abandoned_writes_are_overwritten_rather_than_leaked crates value_crates json ∷ [])
    ≡ true
unfolding open_db load write_all_at sync write_bytes advance read_exact_at bytes overwrite
    Header.encode Header.decode select_live victim_slot set_slot slot_offset Engine.is_empty
    Engine.len live_count Engine.live_ids Index.live_ids without Engine.verify scan_loop scan_record
    read_record_at read_frame_at decode_frame encode_frame verify_payload total_len append
    append_raw assign_id allocate_id insert_offset mark_dead insert get keys contains contains_key
    add commit commit_dirty prepare write_master write_header Index.encode Index.decode read
    read_record tombstone delete_record open_handle on_store ids Api.insert Api.get Api.delete
    Api.commit Api.verify Api.len Api.is_empty Api.stats Engine.stats dead_count to_bson_bytes
    from_bson_bytes
leak_tests = refl
