-- ===== src/Tests/Faults.antt =====
-- A committed database whose file is cut off or damaged.
use cndb.Prelude.{
  List, ltb, get_or, Bool, true, zero, suc, ◌&&◌, ℕ, Bytes, ◌+◌, ◌≤◌, ◌<◌, ◌^◌, ◌≡◌, ◌≢◌, ◌↔◌, refl,
  ap, sym, ◌∙◌, some, [], ◌∷◌, length, leb→le, ltb→lt, arith, if◌then◌else◌, ◌==◌,
}
use cndb.Result.{ok, err}
use cndb.Error.{DocId, RecordKind, record_checksum, unexpected_eof_at}
use cndb.Record.{Record, record_header_size, encode_frame}
use cndb.Header
use cndb.Header.{log_start, victim_slot, set_slot, slot_offset}
use cndb.Collections.{insert}
use cndb.Index
use cndb.Index.{MasterIndex, IsTyped, allocate_id, insert_offset, offset_of}
use cndb.File.{File, write_all_at, sync, write_bytes, advance, bytes, overwrite}
use cndb.Log.Laid.{Laid}
use cndb.Log.Records.{RecordIn}
use cndb.Engine.{StorageEngine, append_raw, append, assign_id, read_record, verify, stats, live_ids}
use cndb.Engine.Commit.{commit, commit_dirty, prepare, write_master, write_header}
use cndb.Engine.Open.{open_db}
use cndb.Engine.Recovery.{Recovers}
use cndb.Engine.Truncating.{cut, open_db-cut}
use cndb.Engine.Damage.{Damaged, verify-Damaged}
use cndb.Engine.Verifying.{verify-err_iff, verify-Laid_iff}
use cndb.Log.Faults.{FaultFrom}
use cndb.Engine.Bounds.{stats-Inv}
use cndb.Tests.Bincode.{crates, crates-IsLawful}
use cndb.Tests.Database.{doc_1, one_doc, saved}
use cndb.Tests.Runs.{store_3}
use cndb.Tests.Storage.{saved-Inv}

abbrev one_saved : StorageEngine
one_saved = (commit crates (one_doc [])).1

-- The index record of the commit.
abbrev master : Record
master = record { kind = RecordKind.master_index; payload = bytes one_saved.file.byte 148 40 }

doc-RecordIn : RecordIn crates.hash one_saved.file.byte 188 128 doc_1
unfolding append append_raw write_all_at sync write_bytes advance encode_frame allocate_id
    Header.encode assign_id insert_offset insert commit commit_dirty prepare write_master
    Index.encode write_header victim_slot set_slot slot_offset bytes overwrite
doc-RecordIn = record {
  starts = leb→le _ _ refl;
  ends = leb→le _ _ refl;
  fits = leb→le _ _ refl;
  frame = refl;
  body = refl;
}

master-RecordIn : RecordIn crates.hash one_saved.file.byte 188 139 master
unfolding append append_raw write_all_at sync write_bytes advance encode_frame allocate_id
    Header.encode assign_id insert_offset insert commit commit_dirty prepare write_master
    Index.encode write_header victim_slot set_slot slot_offset bytes overwrite
master-RecordIn = record {
  starts = leb→le _ _ refl;
  ends = leb→le _ _ refl;
  fits = leb→le _ _ refl;
  frame = refl;
  body = refl;
}

one_saved-Laid :
    Laid crates.hash one_saved.file.byte log_start (doc_1 ∷ master ∷ []) one_saved.header.log_end
unfolding append append_raw write_all_at sync write_bytes advance encode_frame allocate_id
    Header.encode assign_id insert_offset insert commit commit_dirty prepare write_master
    Index.encode write_header victim_slot set_slot slot_offset bytes
one_saved-Laid = (doc-RecordIn, (master-RecordIn, refl))

-- The file after the first byte of the payload has changed.
abbrev damaged : File
damaged = record one_saved.file { byte = λ i. if i == 137 then 7 else one_saved.file.byte i }

damaged-len : one_saved.header.log_end ≤ damaged.len
unfolding append append_raw write_all_at sync write_bytes advance encode_frame allocate_id
    Header.encode assign_id insert_offset insert commit commit_dirty prepare write_master
    Index.encode write_header victim_slot set_slot slot_offset
damaged-len = leb→le _ _ refl

damaged-small : damaged.len < 2 ^ 64
unfolding append append_raw write_all_at sync write_bytes advance encode_frame allocate_id
    Header.encode assign_id insert_offset insert commit commit_dirty prepare write_master
    Index.encode write_header victim_slot set_slot slot_offset
damaged-small = ltb→lt _ _ refl

damaged-bytes : bytes damaged.byte 137 2 ≡ 7 ∷ b'b' ∷ []
unfolding append append_raw write_all_at sync write_bytes advance encode_frame allocate_id
    Header.encode assign_id insert_offset insert commit commit_dirty prepare write_master
    Index.encode write_header victim_slot set_slot slot_offset bytes overwrite
damaged-bytes = refl

damaged-hash : crates.hash (7 ∷ b'b' ∷ []) ≢ crates.hash doc_1.payload
damaged-hash = ground arith

damaged-Damaged : Damaged crates.hash one_saved.file damaged log_start doc_1
damaged-Damaged = record {
  before = λ i lo hi. ground arith;
  payload = λ p. damaged-hash (ap crates.hash (sym damaged-bytes) ∙ p);
}

verify-Damaged_example :
    (verify crates (record one_saved { file = damaged }) ≡ some (err (record_checksum 128)))
    × ((id : DocId)
        → offset_of one_saved.index id ≡ some 128
        → read_record crates (record one_saved { file = damaged }) id ≡ err (record_checksum 128))
verify-Damaged_example =
    verify-Damaged crates crates-IsLawful one_saved [] doc_1 (master ∷ []) one_saved-Laid damaged
      damaged-small damaged-len damaged-Damaged

one_saved-starts : log_start ≤ one_saved.header.log_end
unfolding append append_raw write_all_at sync write_bytes advance encode_frame allocate_id
    Header.encode assign_id insert_offset insert commit commit_dirty prepare write_master
    Index.encode write_header victim_slot set_slot slot_offset
one_saved-starts = leb→le _ _ refl

verify-err_iff_example :
    (verify crates (record one_saved { file = damaged }) ≡ some (err (record_checksum 128)))
    ↔ FaultFrom crates.hash damaged one_saved.header.log_end log_start (record_checksum 128)
verify-err_iff_example =
    verify-err_iff crates (record one_saved { file = damaged }) damaged-small (record_checksum 128)
      one_saved-starts

stats-Inv_example :
    ((stats saved).live_docs ≡ length (live_ids saved))
    × ((stats saved).live_docs + (stats saved).dead_docs + 1 ≡ store_3.next)
    × (log_start ≤ (stats saved).committed_len)
    × ((stats saved).committed_len ≤ (stats saved).pending_len)
    × ((stats saved).pending_len ≤ saved.file.len)
    × ((id : DocId) (offset : ℕ)
        → offset_of saved.index id ≡ some offset
        → (log_start ≤ offset) × (offset + record_header_size ≤ (stats saved).pending_len))
stats-Inv_example = stats-Inv crates saved saved-Inv

open_db-cut_example :
    (200 < log_start
      → open_db crates (cut 200 saved.file) "graph.cndb"
        ≡ (err (unexpected_eof_at 0 log_start), cut 200 saved.file))
    × (log_start ≤ 200
        → 200 < saved.header.log_end
        → open_db crates (cut 200 saved.file) "graph.cndb"
          ≡ (err (unexpected_eof_at 200 saved.header.log_end), cut 200 saved.file))
    × (saved.header.log_end ≤ 200
        → Recovers crates (cut 200 saved.file) "graph.cndb" (saved.header, store_3))
open_db-cut_example =
    open_db-cut crates saved saved-Inv crates-IsLawful 200 "graph.cndb" (ltb→lt _ _ refl)

-- The file of the database, as the list of its bytes.
abbrev contents : Bytes
contents = bytes one_saved.file.byte 0 188

abbrev all_bytes : Bytes → Bool
all_bytes [] = true
all_bytes (b ∷ bs) = ltb b 256 && all_bytes bs

get_or-lt : (bs : Bytes) (i : ℕ) → all_bytes bs ≡ true → get_or bs i 0 < 256
get_or-lt [] i h = ltb→lt _ _ refl
get_or-lt (b ∷ bs) zero h = ground arith
get_or-lt (b ∷ bs) (suc i) h = get_or-lt bs i (ground arith)

contents-bytes : all_bytes contents ≡ true
unfolding append append_raw write_all_at sync write_bytes advance encode_frame allocate_id
    Header.encode assign_id insert_offset insert commit commit_dirty prepare write_master
    Index.encode write_header victim_slot set_slot slot_offset bytes overwrite
contents-bytes = refl

abbrev listed : StorageEngine
listed = record one_saved {
  file = record {
    len = 188;
    byte = λ i. get_or contents i 0;
    synced_len = 188;
    unsynced = [];
    schedule = [];
  };
}

verify-Laid_iff_example : (verify crates listed ≡ some (ok 2)) ↔ (
    (rs : List Record) × Laid crates.hash listed.file.byte log_start rs listed.header.log_end
    × (listed.header.log_end ≤ 188)
    × (length rs ≡ 2))
verify-Laid_iff_example =
    verify-Laid_iff crates listed (ltb→lt _ _ refl) crates-IsLawful
      (λ i. get_or-lt contents i contents-bytes) (leb→le _ _ refl) 2
