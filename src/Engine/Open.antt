-- ===== src/Engine/Open.antt =====
-- `open`, `initialize` and `load` of src/storage/engine.rs. The `sync_all` of the source is `sync`.
use cndb.Prelude.{
  ℕ, ◌+◌, ◌*◌, Option, none, some, Bool, true, false, String, Bytes, slice, copy_at, replicate, ltb,
  ◌==◌, not, if◌then◌else◌,
}
use cndb.Result.{StdResult, ok, err, map_err}
use cndb.Result
use cndb.Error.{
  CndbError, RecordKind, Result, io, master_index, unexpected_eof_at, corrupt_index,
  not_a_master_index,
}
use cndb.Header.{
  Header, Slots, header_size, header_slots, log_start, initial, slot_offset, select_live,
  victim_slot, set_slot,
}
use cndb.Header
use cndb.Index
use cndb.Index.{
  MasterIndex, allocate_id, insert_offset, mark_dead, live_count, dead_count, live_ids,
}
use cndb.File.{File, file_len, read_exact_at, write_all_at, sync}
use cndb.Crates.{Crates}
use cndb.Exec.{Exec, gets, modify, ◌>>=◌, ◌>>◌}
use cndb.Log.{read_record_at}
use cndb.Engine.{StorageEngine, on_file}

-- `match Header::decode(..) { Ok(h) => *out = Some(h), .. }`
abbrev pub decoded : Result Header → Option Header
decoded (ok h) = some h
decoded (err e) = none

-- `first_error.get_or_insert(e)`
abbrev pub first_error : Option CndbError → Result Header → Option CndbError
first_error (some e) r = some e
first_error none (ok h) = none
first_error none (err e) = some e

abbrev pub unwrap_or : Option CndbError → CndbError → CndbError
unwrap_or (some e) fallback = e
unwrap_or none fallback = fallback

unfoldable pub is_master_index : RecordKind → Bool
is_master_index master_index = true
is_master_index _ = false

-- The engine of a file that is empty, before `initialize`.
abbrev pub fresh : File → String → StorageEngine
fresh file path = record {
  file = file;
  path = path;
  header = initial;
  slots = (none, none);
  live_slot = 0;
  index = Index.empty;
  end = log_start;
  dirty = false;
}

module _ (c : Crates) where
  unfoldable pub initialize : Exec StorageEngine (Unit {0})
  unfolding on_file
  initialize = do
    header ← gets (λ e. e.header)
    let region = copy_at (replicate log_start 0) 0 (Header.encode c.hash header)
    on_file (write_all_at region 0)
    on_file sync
    modify (λ e. record e { slots = (some e.header, none); live_slot = 0 })

  -- The decoding of one slot of the header region.
  unfoldable pub decode_slot : Bytes → ℕ → Result Header
  decode_slot region slot =
      Header.decode c.hash (slice (slot * header_size) ((slot + 1) * header_size) region) slot

  unfoldable pub load_index : File → Header → Result MasterIndex
  unfolding is_master_index
  load_index file header =
      if header.master_len == 0
      then ok Index.empty
      else Result.◌>>=◌ (read_record_at c.hash file header.master_ptr) (λ r.
        if not (is_master_index r.kind)
        then err (corrupt_index (not_a_master_index header.master_ptr r.kind))
        else Index.decode c.deserialize r.payload)

  -- `load` from the point where the header is known.
  unfoldable pub load_from : File → String → Slots → Header × ℕ → Result StorageEngine
  unfolding load_index
  load_from file path slots (header, live_slot) =
      if ltb file.len header.log_end
      then err (unexpected_eof_at file.len header.log_end)
      else Result.◌>>=◌ (load_index file header) (λ index. ok (record {
        file = file;
        path = path;
        header = header;
        slots = slots;
        live_slot = live_slot;
        index = index;
        end = header.log_end;
        dirty = false;
      }))

  unfoldable pub load : File → String → Result StorageEngine
  unfolding decode_slot load_from
  load file path =
      if ltb (file_len file) log_start
      then err (unexpected_eof_at 0 log_start)
      else Result.◌>>=◌ (map_err io (read_exact_at file log_start 0)) (λ region.
        let a = decode_slot region 0 in
        let b = decode_slot region 1 in
        let slots : Slots = (decoded a, decoded b) in
        let error = first_error (first_error none a) b in
        Result.◌>>=◌ (map_err (unwrap_or error) (select_live slots)) (load_from file path slots))

  -- The result, and the file, which `initialize` may have written to where it fails.
  unfoldable pub open_db : File → String → Result StorageEngine × File
  unfolding load initialize
  open_db file path =
      if ltb 0 (file_len file)
      then (load file path, file)
      else let (r, e) = initialize (fresh file path) in (Result.◌>>=◌ r (λ _. ok e), e.file)
