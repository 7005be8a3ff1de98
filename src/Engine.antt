-- ===== src/Engine.antt =====
-- src/storage/engine.rs: the storage engine, its state, and the operations that read and append
-- records.
pub mod Accessors
pub mod Open
pub mod Commit
pub mod Appending
pub mod Layout
pub mod Invariant
pub mod Kept
pub mod Operations
pub mod Reading
pub mod Turning
pub mod Committing
pub mod Recovery
pub mod Crashing
pub mod Opening
pub mod Verifying
pub mod Progress
pub mod Runs
pub mod Growing
pub mod Lives
pub mod Contract
pub mod Damage
pub mod Bounds
pub mod Alternating
pub mod Copying
pub mod Truncating
pub mod Sound
use cndb.Prelude.{
  ℕ, zero, suc, ◌+◌, ◌*◌, Option, none, some, Bool, true, false, List, String, Bytes, length, slice,
  copy_at, replicate, ltb, ◌==◌, not, if◌then◌else◌,
}
use cndb.Prelude.Words.{u64, to_le_bytes}
use cndb.Result.{StdResult, ok, err, map_err}
use cndb.Result
use cndb.Error.{
  CndbError, DocId, IoError, RecordKind, Result, io, master_index, record_too_large, not_found,
  deleted, unexpected_eof_at, corrupt_index, not_a_master_index,
}
use cndb.Record.{Record, record_header_size, max_record_len, encode_frame}
use cndb.Header.{
  Header, Slots, header_size, header_slots, log_start, initial, slot_offset, select_live,
  victim_slot, set_slot,
}
use cndb.Header
use cndb.Collections.{contains, get, contains_key}
use cndb.Index
use cndb.Index.{MasterIndex, allocate_id, insert_offset, mark_dead, live_count, dead_count}
use cndb.File.{File, file_len, read_exact_at, write_all_at, sync}
use cndb.Crates.{Crates}
use cndb.Exec.{Exec, pure, raise, lift, gets, modify, ◌>>=◌, ◌>>◌}
use cndb.Log.{read_record_at, scan_loop}

pub record StorageEngine : Type 0 where
  pub file : File
  pub path : String
  pub header : Header
  pub slots : Slots
  pub live_slot : ℕ
  pub index : MasterIndex
  pub end : ℕ
  pub dirty : Bool

pub record Stats : Type 0 where
  pub generation : ℕ
  pub live_docs : ℕ
  pub dead_docs : ℕ
  pub committed_len : ℕ
  pub pending_len : ℕ

-- A call of the operating system on `self.file`, with `?`.
unfoldable pub on_file : {A : Type 0} → (File → StdResult IoError A × File) → Exec StorageEngine A
on_file call e = let (r, file) = call e.file in (map_err io r, record e { file = file })

module _ (c : Crates) where
  unfoldable pub append_raw : RecordKind → Bytes → Exec StorageEngine ℕ
  unfolding on_file
  append_raw kind payload = do
    offset ← gets (λ e. e.end)
    let len = u64 (length payload)
    if ltb max_record_len len then raise (record_too_large offset len max_record_len) else do
      on_file (write_all_at (encode_frame c.hash kind payload) offset)
      on_file (write_all_at payload (u64 (offset + record_header_size)))
      modify (λ e. record e { end = u64 (offset + record_header_size + len); dirty = true })
      pure offset

  -- `let id = index.allocate_id(); index.insert(id, offset)`
  unfoldable pub assign_id : ℕ → Exec StorageEngine DocId
  assign_id offset e =
      let (id, index) = allocate_id e.index in
      (ok id, record e { index = insert_offset index id offset })

  unfoldable pub append : RecordKind → Bytes → Exec StorageEngine DocId
  append kind payload = do offset ← append_raw kind payload; assign_id offset

  unfoldable pub read_record : StorageEngine → DocId → Result Record
  read_record e id =
      if contains e.index.dead id then err (deleted id) else elim (get e.index.offsets id) [
        | none ↦ err (not_found id)
        | some offset ↦ read_record_at c.hash e.file offset
      ]

  unfoldable pub read : StorageEngine → DocId → Result Bytes
  unfolding read_record
  read e id = Result.◌>>=◌ (read_record e id) (λ r. ok r.payload)

  unfoldable pub delete_record : DocId → Exec StorageEngine (Unit {0})
  delete_record id = do
    append_raw RecordKind.tombstone (to_le_bytes 8 id)
    modify (λ e. record e { index = mark_dead e.index id })

  unfoldable pub tombstone : DocId → Exec StorageEngine (Unit {0})
  tombstone id e =
      if contains e.index.dead id
      then (err (deleted id), e)
      else if not (contains_key e.index.offsets id)
      then (err (not_found id), e)
      else delete_record id e

  -- Each record takes nine bytes at least, so `log_end` rounds are enough.
  unfoldable pub verify : StorageEngine → Option (Result ℕ)
  verify e = scan_loop c.hash (suc e.header.log_end) e.file e.header.log_end log_start 0

unfoldable pub len : StorageEngine → ℕ
len e = live_count e.index

unfoldable pub is_empty : StorageEngine → Bool
unfolding len
is_empty e = len e == 0

unfoldable pub live_ids : StorageEngine → List DocId
live_ids e = Index.live_ids e.index

unfoldable pub stats : StorageEngine → Stats
stats e = record {
  generation = e.header.generation;
  live_docs = live_count e.index;
  dead_docs = dead_count e.index;
  committed_len = e.header.log_end;
  pending_len = e.end;
}
