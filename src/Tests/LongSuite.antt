-- ===== src/Tests/LongSuite.antt =====
-- The unit tests of src/storage/engine.rs that make many documents or large ones, on the model.
use cndb.Record.{max_record_len}
use cndb.Crates.{Crates}
use cndb.Engine.{StorageEngine}
use cndb.Error.{RecordKind}
use cndb.Suite.{fails, is_record_too_large}
use cndb.Prelude.{◌<◌, ◌^◌, ◌+◌, Bytes, length, arith, ◌≡◌, refl, true, [], ◌∷◌}
use cndb.Record.{encode_frame, decode_frame, total_len, verify_payload}
use cndb.Header
use cndb.Header.{select_live, victim_slot, set_slot, slot_offset}
use cndb.Collections.{contains, get, insert, keys, contains_key, add, without}
use cndb.Index
use cndb.Index.{allocate_id, insert_offset, mark_dead, offset_of, live_count, dead_count}
use cndb.File.{write_all_at, sync, write_bytes, advance, read_exact_at, bytes, overwrite}
use cndb.Log.{scan_loop, scan_record, read_record_at, read_frame_at}
use cndb.Engine.{
  append, append_raw, assign_id, read, read_record, tombstone, delete_record, verify, len, is_empty,
  live_ids, stats,
}
use cndb.Engine.Accessors.{generation, live_slot, is_dirty, index}
use cndb.Engine.Open.{open_db, load}
use cndb.Engine.Commit.{commit, commit_dirty, prepare, write_master, write_header}
use cndb.Suite.{all_pass}
use cndb.Suite.Engines
use cndb.Suite.Engines.Documents
use cndb.Tests.Bincode.{crates}

ids_tests : all_pass (Engines.ids_are_unique_and_documents_do_not_collide crates ∷ []) ≡ true
unfolding open_db load write_all_at sync write_bytes advance read_exact_at bytes overwrite
    Header.encode Header.decode select_live victim_slot set_slot slot_offset generation live_slot
    is_dirty index is_empty len live_count dead_count live_ids without verify scan_loop scan_record
    read_record_at read_frame_at decode_frame encode_frame verify_payload total_len append
    append_raw assign_id allocate_id insert_offset mark_dead offset_of insert get keys contains
    contains_key add commit commit_dirty prepare write_master write_header Index.encode Index.decode
    read read_record tombstone delete_record stats Index.live_ids
ids_tests = refl

many_commits_tests : all_pass (Documents.many_commits crates 6 ∷ []) ≡ true
unfolding open_db load write_all_at sync write_bytes advance read_exact_at bytes overwrite
    Header.encode Header.decode select_live victim_slot set_slot slot_offset generation live_slot
    is_dirty index is_empty len live_count dead_count live_ids without verify scan_loop scan_record
    read_record_at read_frame_at decode_frame encode_frame verify_payload total_len append
    append_raw assign_id allocate_id insert_offset mark_dead offset_of insert get keys contains
    contains_key add commit commit_dirty prepare write_master write_header Index.encode Index.decode
    read read_record tombstone delete_record stats Index.live_ids
many_commits_tests = refl

oversized_refused :
    (c : Crates) (payload : Bytes) (e : StorageEngine)
    → max_record_len < length payload
    → length payload < 2 ^ 64
    → fails is_record_too_large (append c RecordKind.blob payload e).0 ≡ true
unfolding append append_raw
oversized_refused c payload e long word = ground arith

oversized_tests :
    (too_big : Bytes)
    → length too_big ≡ max_record_len + 1
    → Documents.oversized_payloads_are_refused crates too_big ≡ true
unfolding open_db write_all_at sync write_bytes advance Header.encode
oversized_tests too_big long =
    oversized_refused crates too_big _ (omega (arith, long)) (omega (arith, long))
