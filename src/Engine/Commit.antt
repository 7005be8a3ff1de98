-- ===== src/Engine/Commit.antt =====
-- `commit` of src/storage/engine.rs. The two `sync_data` of the source are `sync`.
use cndb.Prelude.{◌+◌, false, length, not, if◌then◌else◌}
use cndb.Prelude.Words.{u64}
use cndb.Result.{ok}
use cndb.Error.{master_index}
use cndb.Header.{
  Header, Slots, header_size, header_slots, log_start, initial, slot_offset, select_live,
  victim_slot, set_slot,
}
use cndb.Header
use cndb.Index
use cndb.Index.{
  MasterIndex, allocate_id, insert_offset, mark_dead, live_count, dead_count, live_ids,
}
use cndb.File.{write_all_at, sync}
use cndb.Crates.{Crates}
use cndb.Exec.{Exec, gets, modify, ◌>>=◌, ◌>>◌}
use cndb.Engine.{StorageEngine, on_file, append_raw}

module _ (c : Crates) where
  -- Step 3 of a commit: the header of the new generation goes over the victim slot.
  unfoldable pub write_header : Header → Exec StorageEngine (Unit {0})
  write_header next = do
    slot ← gets (λ e. victim_slot e.slots)
    on_file (write_all_at (Header.encode c.hash next) (slot_offset slot))
    on_file sync
    modify (λ e. record e {
      header = next;
      slots = set_slot e.slots slot next;
      live_slot = slot;
      dirty = false;
    })

  -- Step 2: the master index goes into the log like any other record.
  unfoldable pub write_master : Exec StorageEngine Header
  write_master = do
    payload ← (λ e. (Index.encode c.serialize e.index, e))
    master_ptr ← append_raw c master_index payload
    on_file sync
    gets (λ e. record {
      generation = u64 (e.header.generation + 1);
      master_ptr = master_ptr;
      master_len = u64 (length payload);
      log_end = e.end;
    })

  -- The first sync, so that the records reach the disk before anything points at them, and step 2.
  unfoldable pub prepare : Exec StorageEngine Header
  prepare = do on_file sync; write_master

  unfoldable pub commit_dirty : Exec StorageEngine (Unit {0})
  commit_dirty = do next ← prepare; write_header next

  unfoldable pub commit : Exec StorageEngine (Unit {0})
  commit e = if not e.dirty then (ok tt, e) else commit_dirty e
