-- ===== src/Tests/Storage.antt =====
-- The theorems on the engine, at work on the concrete databases.
use cndb.Prelude.{
  true, ℕ, ◌^◌, ◌<◌, ◌≤◌, ◌≡◌, refl, none, some, [], ◌∷◌, length, ltb→lt, leb→le, inl, ◌≢◌, ◌⊎◌,
}
use cndb.Result.{ok, err}
use cndb.Error.{CndbError, IoError}
use cndb.Record.{encode_frame}
use cndb.Header
use cndb.Header.{Header, initial, log_start, victim_slot, set_slot, slot_offset}
use cndb.Collections.{contains, contains_key, insert, add}
use cndb.Index
use cndb.Index.{allocate_id, insert_offset, mark_dead}
use cndb.File.{File, bytes, write_all_at, sync, write_bytes, advance, overwrite, covered}
use cndb.File.Writes.{Synced}
use cndb.File.Crash.{Survives}
use cndb.Store
use cndb.Store.{Store}
use cndb.Engine.{
  StorageEngine, append_raw, append, assign_id, tombstone, delete_record, read_record, verify,
}
use cndb.Engine.Commit.{commit, commit_dirty, prepare, write_master, write_header}
use cndb.Engine.Open.{open_db}
use cndb.Engine.Appending.{append_raw-Appended, Appended}
use cndb.Engine.Invariant.{Inv, slot_bytes}
use cndb.Engine.Operations.{Does, append-Does, tombstone-Does, tombstone-refused}
use cndb.Engine.Committing.{Commits, commit-Commits}
use cndb.Engine.Recovery.{Recovers, RecoversOne}
use cndb.Engine.Crashing.{IsTorn, crash-committed}
use cndb.Engine.Runs.{Run-Inv, Run-read, Run-crash}
use cndb.Engine.Verifying.{verify-ne-none, verify-Inv}
use cndb.Engine.Opening.{open_db-new, open_db-invalid}
use cndb.Header.Slots.{slot_at}
use cndb.Engine.Alternating.{commit-alternates}
use cndb.Tests.Bincode.{crates, crates-IsLawful}
use cndb.Tests.Database.{
  file, new_db, new_db-Inv, failing, failing_db-Inv, doc_1, doc_2, one_doc, two_docs, one_deleted,
  saved, torn, torn_next, image,
}
use cndb.Tests.Runs.{
  commit_1, store_1, store_2, store_3, one_doc-CanGoOn, two_docs-CanGoOn, one_deleted-CanGoOn,
  one_doc-Run, two_docs-Run, one_deleted-Run, saved-Run, torn-Run,
}

pub image-Survives :
    (e : StorageEngine) → e.file.synced_len ≤ e.file.len → Survives e.file (image e)
image-Survives e le = record { len = le; same = λ i h p. refl }

pub image-Synced : (e : StorageEngine) → Synced (image e) (image e)
unfolding covered
image-Synced e = record { same = λ i. refl; len = refl; synced_len = refl; clean = λ i. refl }

torn-len : torn.file.synced_len ≤ torn.file.len
unfolding append append_raw write_all_at sync write_bytes advance encode_frame allocate_id
    Header.encode assign_id insert_offset insert prepare write_master Index.encode write_header
    victim_slot slot_offset
torn-len = leb→le _ _ refl

pub saved-len : saved.file.synced_len ≤ saved.file.len
unfolding append append_raw write_all_at sync write_bytes advance encode_frame allocate_id
    Header.encode assign_id insert_offset contains contains_key insert tombstone delete_record
    commit commit_dirty prepare write_master Index.encode write_header victim_slot set_slot
    mark_dead add slot_offset
saved-len = leb→le _ _ refl

-- The header is torn, and fails its checksum.
torn-IsTorn : IsTorn crates torn ((torn_next, store_1) ∷ []) (image torn)
unfolding append append_raw write_all_at sync write_bytes advance encode_frame allocate_id
    Header.encode assign_id insert_offset insert prepare write_master Index.encode write_header
    victim_slot Header.decode bytes overwrite slot_offset
torn-IsTorn = inl refl

Run-crash_example :
    RecoversOne crates
      (image torn)
      "graph.cndb"
      ((torn.header, Store.empty) ∷ (torn_next, store_1) ∷ [])
Run-crash_example =
    Run-crash crates crates-IsLawful (new_db failing) Store.empty failing_db-Inv (image torn)
      "graph.cndb" torn-Run (image-Survives torn torn-len) (image-Synced torn) torn-IsTorn

Run-read_example : read_record crates one_deleted 2 ≡ Store.read store_3 2
Run-read_example =
    Run-read crates crates-IsLawful (new_db []) Store.empty new_db-Inv one_deleted-Run 2

one_doc-Inv : Inv crates (one_doc []) Store.empty store_1 []
one_doc-Inv = Run-Inv crates crates-IsLawful (new_db []) Store.empty new_db-Inv one_doc-Run

pub two_docs-Inv : Inv crates two_docs Store.empty store_2 []
two_docs-Inv = Run-Inv crates crates-IsLawful (new_db []) Store.empty new_db-Inv two_docs-Run

pub one_deleted-Inv : Inv crates one_deleted Store.empty store_3 []
one_deleted-Inv = Run-Inv crates crates-IsLawful (new_db []) Store.empty new_db-Inv one_deleted-Run

pub saved-Inv : Inv crates saved store_3 store_3 []
saved-Inv = Run-Inv crates crates-IsLawful (new_db []) Store.empty new_db-Inv saved-Run

commit-Commits_example :
    Commits crates one_deleted Store.empty store_3 [] (commit crates one_deleted)
commit-Commits_example =
    commit-Commits crates crates-IsLawful one_deleted one_deleted-Inv one_deleted-CanGoOn.room
      one_deleted-CanGoOn.generations

append-Does_example :
    Does crates 2 Store.empty store_1 store_2 []
      (append crates doc_2.kind doc_2.payload (one_doc []))
append-Does_example =
    append-Does crates (one_doc []) one_doc-Inv one_doc-CanGoOn.room doc_2.kind doc_2.payload
      (ltb→lt _ _ refl) one_doc-CanGoOn.ids

tombstone-Does_example : Does crates tt Store.empty store_2 store_3 [] (tombstone crates 1 two_docs)
tombstone-Does_example =
    tombstone-Does crates two_docs two_docs-Inv two_docs-CanGoOn.room 1 doc_1 refl

tombstone-refused_example :
    tombstone crates 1 one_deleted ≡ (err (CndbError.deleted 1), one_deleted)
tombstone-refused_example =
    tombstone-refused crates one_deleted one_deleted-Inv one_deleted-CanGoOn.room 1
      (CndbError.deleted 1) refl

crash-committed_example : Recovers crates (image saved) "graph.cndb" (saved.header, store_3)
crash-committed_example =
    crash-committed crates crates-IsLawful saved saved-Inv (image saved)
      (image-Survives saved saved-len) "graph.cndb" (image-Synced saved)

append_raw-Appended_example :
    Appended crates doc_2.kind doc_2.payload
      (one_doc [])
      (append_raw crates doc_2.kind doc_2.payload (one_doc []))
append_raw-Appended_example =
    append_raw-Appended crates doc_2.kind doc_2.payload (one_doc []) one_doc-CanGoOn.room
      (ltb→lt _ _ refl)

saved-small : saved.file.len < 2 ^ 64
unfolding append append_raw write_all_at sync write_bytes advance encode_frame allocate_id
    Header.encode assign_id insert_offset contains contains_key insert tombstone delete_record
    commit commit_dirty prepare write_master Index.encode write_header victim_slot set_slot
    mark_dead add slot_offset
saved-small = ltb→lt _ _ refl

verify-ne-none_example : verify crates saved ≢ none
verify-ne-none_example = verify-ne-none crates saved saved-small

verify-Inv_example : verify crates saved ≡ some (ok (length saved-Inv.backed.records))
verify-Inv_example = verify-Inv crates crates-IsLawful saved saved-Inv saved-small

open_db-new_example :
    ((e : StorageEngine) × (open_db crates (file []) "graph.cndb" ≡ (ok e, e.file))
      × Inv crates e Store.empty Store.empty []
      × (e.header ≡ initial))
    ⊎ ((x : IoError) × ((open_db crates (file []) "graph.cndb").0 ≡ err (CndbError.io x)))
open_db-new_example = open_db-new crates crates-IsLawful (file []) "graph.cndb" refl

-- A file of zeros.
abbrev zeros : ℕ → File
zeros n = record { len = n; byte = λ i. 0; synced_len = n; unsynced = []; schedule = [] }

abbrev zero_magic : CndbError
zero_magic = CndbError.bad_magic Header.magic (0 ∷ 0 ∷ 0 ∷ 0 ∷ [])

zeros-decode_0 : Header.decode crates.hash (slot_bytes (zeros 200) 0) 0 ≡ err zero_magic
unfolding Header.decode bytes
zeros-decode_0 = refl

zeros-decode_1 : Header.decode crates.hash (slot_bytes (zeros 200) 1) 1 ≡ err zero_magic
unfolding Header.decode bytes
zeros-decode_1 = refl

open_db-invalid_example : open_db crates (zeros 200) "graph.cndb" ≡ (err zero_magic, zeros 200)
open_db-invalid_example =
    open_db-invalid crates (zeros 200) "graph.cndb" zero_magic zero_magic (leb→le _ _ refl)
      zeros-decode_0 zeros-decode_1

one_deleted-dirty : one_deleted.dirty ≡ true
unfolding append append_raw write_all_at sync write_bytes advance encode_frame allocate_id
    Header.encode assign_id insert_offset contains contains_key insert tombstone delete_record
one_deleted-dirty = refl

commit-alternates_example :
    (saved.live_slot ≡ victim_slot one_deleted.slots)
    × (saved.live_slot ≢ one_deleted.live_slot)
    × (slot_at saved.slots saved.live_slot ≡ some saved.header)
    × (slot_at saved.slots one_deleted.live_slot ≡ some one_deleted.header)
commit-alternates_example =
    commit-alternates crates one_deleted one_deleted-Inv saved one_deleted-dirty commit_1
