-- ===== src/Suite/Engines/Recoveries.antt =====
-- The tests of src/storage/engine.rs on damaged files.
use cndb.Prelude.{
  ℕ, ◌+◌, ◌-◌, ◌*◌, Bool, true, ◌&&◌, Option, none, some, [], Bytes, length, get_or, replicate,
  ◌==◌,
}
use cndb.Record.{record_header_size}
use cndb.Header.{header_size, header_slots, slot_offset}
use cndb.Index.{offset_of}
use cndb.File.{File}
use cndb.Crates.{Crates}
use cndb.Exec.{pure, gets, modify, ◌>>=◌, ◌>>◌}
use cndb.Engine.{StorageEngine, read, verify}
use cndb.Engine.Accessors.{generation, live_slot, index}
use cndb.Engine.Open.{open_db}
use cndb.Engine.Commit.{commit}
use cndb.Suite.{
  as_bytes, fails, is_not_found, is_bad_magic, is_unexpected_eof_at, is_record_checksum,
}
use cndb.Suite.Engines.{on_scratch, reopen, blob, damage, verify_fails, verified, reads}

-- `std::fs::write(&path, contents)`
abbrev pub written : Bytes → File
written contents = record {
  len = length contents;
  byte = λ i. get_or contents i 0;
  synced_len = length contents;
  unsynced = [];
  schedule = [];
}

-- `file.set_len(len)`, of a length that is not greater.
abbrev set_len : ℕ → StorageEngine → StorageEngine
set_len len e = record e { file = record e.file { len = len } }

-- `engine.index().offset_of(id).unwrap()`
abbrev the_offset : Option ℕ → ℕ
the_offset none = 0
the_offset (some offset) = offset

module _ (c : Crates) where
  abbrev pub a_torn_header_falls_back_to_the_previous_generation : Bool
  a_torn_header_falls_back_to_the_previous_generation = on_scratch c (do
    first ← blob c "generation one"
    commit c
    second ← blob c "generation two"
    commit c
    latest ← gets generation
    reopen c
    live ← gets live_slot
    damage c (slot_offset live) (replicate header_size 0xAB)
    reopen c
    engine ← gets (λ e. e)
    pure (
        latest == 2
        && (generation engine == 1
            && (reads (read c engine first) "generation one"
                && (fails is_not_found (read c engine second)
                    && verified (verify c engine) (λ n. true))))))

  abbrev pub recovery_still_works_after_writing_over_the_torn_slot : Bool
  recovery_still_works_after_writing_over_the_torn_slot = on_scratch c (do
    _ ← blob c "one"
    commit c
    _ ← blob c "two"
    commit c
    reopen c
    live ← gets live_slot
    damage c (slot_offset live) (replicate header_size 0)
    reopen c
    recovered ← gets generation
    id ← blob c "three"
    commit c
    engine ← gets (λ e. e)
    reopen c
    again ← gets (λ e. e)
    pure (
        recovered == 1
        && (generation engine == 2
            && (live_slot engine == live && reads (read c again id) "three"))))

  abbrev pub both_headers_destroyed_is_reported_clearly : Bool
  both_headers_destroyed_is_reported_clearly = on_scratch c (do
    _ ← blob c "x"
    commit c
    damage c 0 (replicate (header_size * header_slots) 0x7F)
    gets (λ e. fails is_bad_magic (open_db c e.file e.path).0))

  abbrev pub a_foreign_file_is_rejected_as_not_a_database : Bool
  a_foreign_file_is_rejected_as_not_a_database =
      fails is_bad_magic (open_db c (written (replicate 4096 b'z')) "test.cndb").0

  abbrev pub a_file_too_short_to_hold_headers_is_rejected : Bool
  a_file_too_short_to_hold_headers_is_rejected =
      fails is_unexpected_eof_at (open_db c (written (as_bytes "CNDB")) "test.cndb").0

  abbrev pub a_truncated_file_is_rejected_rather_than_half_read : Bool
  a_truncated_file_is_rejected_rather_than_half_read = on_scratch c (do
    _ ← blob c "a document long enough to matter"
    commit c
    len ← gets (λ e. e.file.len)
    modify (set_len (len - 16))
    gets (λ e. fails is_unexpected_eof_at (open_db c e.file e.path).0))

  abbrev pub corruption_in_the_payload_is_caught_on_read : Bool
  corruption_in_the_payload_is_caught_on_read = on_scratch c (do
    id ← blob c "the payload we will damage"
    commit c
    offset ← gets (λ e. the_offset (offset_of (index e) id))
    damage c (offset + record_header_size + 4) (as_bytes "X")
    reopen c
    engine ← gets (λ e. e)
    pure (
        fails is_record_checksum (read c engine id)
        && verify_fails is_record_checksum (verify c engine)))
