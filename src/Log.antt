-- ===== src/Log.antt =====
-- Reading records from the file: the free functions at the end of src/storage/engine.rs, and the
-- loop of `StorageEngine::verify`.
pub mod Records
pub mod Scan
pub mod Laid
pub mod Faults
pub mod Canonical
use cndb.Prelude.{
  ℕ, zero, suc, ◌+◌, Option, none, some, true, false, Bytes, ltb, ◌==◌, not, if◌then◌else◌,
}
use cndb.Prelude.Words.{u64}
use cndb.Result.{ok, err, map_err, ◌>>=◌, ◌>>◌}
use cndb.Error.{Result, io, corrupt_index, log_ends}
use cndb.Record.{Record, Frame, record_header_size, decode_frame, verify_payload, total_len}
use cndb.File.{File, read_exact_at}

unfoldable pub read_frame_at : File → ℕ → Result Frame
read_frame_at f offset = do
  buf ← map_err io (read_exact_at f record_header_size offset)
  decode_frame buf offset

module _ (hash : Bytes → ℕ) where
  unfoldable pub read_record_at : File → ℕ → Result Record
  read_record_at f offset = do
    frame ← read_frame_at f offset
    payload ← map_err io (read_exact_at f frame.len (u64 (offset + record_header_size)))
    verify_payload hash frame payload offset
    ok (record { kind = frame.kind; payload = payload })

  -- The body of the loop of `verify`: where the next record starts.
  unfoldable pub scan_record : File → ℕ → Result ℕ
  scan_record f offset = do
    frame ← read_frame_at f offset
    payload ← map_err io (read_exact_at f frame.len (u64 (offset + record_header_size)))
    verify_payload hash frame payload offset
    ok (u64 (offset + total_len frame))

  -- The loop of `verify` and what follows it; `none` means that the fuel ran out.
  unfoldable pub scan_loop : ℕ → File → (log_end offset count : ℕ) → Option (Result ℕ)
  scan_loop zero f log_end offset count = none
  scan_loop (suc fuel) f log_end offset count = elim (ltb offset log_end) [
    | true ↦ elim (scan_record f offset) [
      | ok next ↦ scan_loop fuel f log_end next (count + 1)
      | err e ↦ some (err e)
    ]
    | false ↦ some (
        if not (offset == log_end) then err (corrupt_index (log_ends offset log_end)) else ok count)
  ]
