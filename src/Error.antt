-- ===== src/Error.antt =====
-- src/error.rs: every way in which an operation can fail, and the crate's `Result`.
pub mod Texts
use cndb.Prelude.{ℕ, String, Bytes}
use cndb.Result.{StdResult}

-- `std::io::Error`, as far as positioned file I/O raises it.
pub data IoError : Type 0 where
  unexpected_eof read_failed write_failed write_zero sync_failed : IoError

-- `DocId(pub u64)` of storage/record.rs.
abbrev pub DocId : Type 0
DocId = ℕ

-- `RecordKind` of storage/record.rs. An error message names a kind.
pub data RecordKind : Type 0 where
  node edge blob tombstone master_index : RecordKind

-- The texts of `CorruptIndex`: a message of bincode, and the two that the engine formats, here
-- as the values that it puts into them.
pub data IndexFault : Type 0 where
  bincode_error : String → IndexFault
  not_a_master_index : (master_ptr : ℕ) → RecordKind → IndexFault
  log_ends : (offset log_end : ℕ) → IndexFault

pub data CndbError : Type 0 where
  io : IoError → CndbError
  bad_magic : (expected found : Bytes) → CndbError
  unsupported_version : (found supported : ℕ) → CndbError
  no_valid_header : CndbError
  header_checksum : (slot : ℕ) → CndbError
  record_checksum : (offset : ℕ) → CndbError
  record_too_large : (offset len max_len : ℕ) → CndbError
  unknown_record_kind : (tag offset : ℕ) → CndbError
  unexpected_eof_at : (offset needed : ℕ) → CndbError
  not_found : DocId → CndbError
  deleted : DocId → CndbError
  bson : String → CndbError
  not_an_object : (found : String) → CndbError
  corrupt_index : IndexFault → CndbError

abbrev pub Result {ℓ} : Type ℓ → Type ℓ
Result A = StdResult CndbError A
