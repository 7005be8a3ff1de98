-- ===== src/Tests/Runs.antt =====
-- The operations on the concrete databases, and the runs that they make.
use cndb.Prelude.{◌+◌, ◌<◌, ◌≤◌, ◌^◌, ◌≡◌, refl, true, [], ◌∷◌, arith, leb→le, ltb→lt}
use cndb.Result.{ok, err}
use cndb.Error.{io, write_failed}
use cndb.Record.{encode_frame}
use cndb.Header
use cndb.Header.{Header, log_start, victim_slot, set_slot}
use cndb.Collections.{contains, contains_key, insert, add}
use cndb.Index
use cndb.Index.{allocate_id, insert_offset, mark_dead}
use cndb.File.{write_all_at, sync, write_bytes, advance}
use cndb.Store
use cndb.Store.{Store}
use cndb.Engine.{StorageEngine, append_raw, append, assign_id, tombstone, delete_record}
use cndb.Engine.Commit.{commit, commit_dirty, prepare, write_master, write_header}
use cndb.Engine.Runs.{CanGoOn, Run, here, appended, deleted, committed, header_failed}
use cndb.Tests.Bincode.{crates}
use cndb.Tests.Database.{
  new_db, failing, doc_1, doc_2, one_doc, two_docs, one_deleted, saved, torn, torn_next, torn_ready,
}

append_1 : append crates doc_1.kind doc_1.payload (new_db []) ≡ (ok 1, one_doc [])
unfolding append append_raw write_all_at sync write_bytes advance encode_frame allocate_id
    Header.encode assign_id insert_offset
append_1 = refl

append_2 : append crates doc_2.kind doc_2.payload (one_doc []) ≡ (ok 2, two_docs)
unfolding append append_raw write_all_at sync write_bytes advance encode_frame allocate_id
    Header.encode assign_id insert_offset
append_2 = refl

pub tombstone_1 : tombstone crates 1 two_docs ≡ (ok tt, one_deleted)
unfolding append append_raw write_all_at sync write_bytes advance encode_frame allocate_id
    Header.encode assign_id insert_offset contains contains_key insert tombstone delete_record
tombstone_1 = refl

pub commit_1 : commit crates one_deleted ≡ (ok tt, saved)
unfolding append append_raw write_all_at sync write_bytes advance encode_frame allocate_id
    Header.encode assign_id insert_offset contains contains_key insert tombstone delete_record
    commit commit_dirty prepare write_master Index.encode write_header victim_slot set_slot
    mark_dead add
commit_1 = refl

append_torn : append crates doc_1.kind doc_1.payload (new_db failing) ≡ (ok 1, one_doc failing)
unfolding append append_raw write_all_at sync write_bytes advance encode_frame allocate_id
    Header.encode assign_id insert_offset
append_torn = refl

prepare_torn : prepare crates (one_doc failing) ≡ (ok torn_next, torn_ready)
unfolding append append_raw write_all_at sync write_bytes advance encode_frame allocate_id
    Header.encode assign_id insert_offset insert prepare write_master Index.encode
prepare_torn = refl

write_header-torn : write_header crates torn_next torn_ready ≡ (err (io write_failed), torn)
unfolding append append_raw write_all_at sync write_bytes advance encode_frame allocate_id
    Header.encode assign_id insert_offset insert prepare write_master Index.encode write_header
    victim_slot
write_header-torn = refl

pub go_on :
    (e : StorageEngine)
    → log_start ≤ e.end
    → e.end ≤ e.file.len
    → e.end + 2 ^ 63 < 2 ^ 64
    → e.index.next_doc_id + 1 < 2 ^ 64
    → e.header.generation + 1 < 2 ^ 64
    → CanGoOn e
go_on e starts inside room ids generations = record {
  room = record { starts = starts; inside = inside; room = omega arith };
  ids = ids;
  generations = generations;
}

pub new_db-CanGoOn : CanGoOn (new_db [])
unfolding append append_raw write_all_at sync write_bytes advance encode_frame allocate_id
    Header.encode assign_id insert_offset
new_db-CanGoOn =
    go_on (new_db []) (leb→le _ _ refl) (leb→le _ _ refl) (ltb→lt _ _ refl) (ltb→lt _ _ refl)
      (ltb→lt _ _ refl)

failing-CanGoOn : CanGoOn (new_db failing)
unfolding append append_raw write_all_at sync write_bytes advance encode_frame allocate_id
    Header.encode assign_id insert_offset
failing-CanGoOn =
    go_on (new_db failing) (leb→le _ _ refl) (leb→le _ _ refl) (ltb→lt _ _ refl) (ltb→lt _ _ refl)
      (ltb→lt _ _ refl)

pub one_doc-CanGoOn : CanGoOn (one_doc [])
unfolding append append_raw write_all_at sync write_bytes advance encode_frame allocate_id
    Header.encode assign_id insert_offset
one_doc-CanGoOn =
    go_on (one_doc []) (leb→le _ _ refl) (leb→le _ _ refl) (ltb→lt _ _ refl) (ltb→lt _ _ refl)
      (ltb→lt _ _ refl)

pub two_docs-CanGoOn : CanGoOn two_docs
unfolding append append_raw write_all_at sync write_bytes advance encode_frame allocate_id
    Header.encode assign_id insert_offset
two_docs-CanGoOn =
    go_on two_docs (leb→le _ _ refl) (leb→le _ _ refl) (ltb→lt _ _ refl) (ltb→lt _ _ refl)
      (ltb→lt _ _ refl)

pub one_deleted-CanGoOn : CanGoOn one_deleted
unfolding append append_raw write_all_at sync write_bytes advance encode_frame allocate_id
    Header.encode assign_id insert_offset contains contains_key insert tombstone delete_record
    mark_dead
one_deleted-CanGoOn =
    go_on one_deleted (leb→le _ _ refl) (leb→le _ _ refl) (ltb→lt _ _ refl) (ltb→lt _ _ refl)
      (ltb→lt _ _ refl)

torn-CanGoOn : CanGoOn (one_doc failing)
unfolding append append_raw write_all_at sync write_bytes advance encode_frame allocate_id
    Header.encode assign_id insert_offset
torn-CanGoOn =
    go_on (one_doc failing) (leb→le _ _ refl) (leb→le _ _ refl) (ltb→lt _ _ refl) (ltb→lt _ _ refl)
      (ltb→lt _ _ refl)

torn_dirty : (one_doc failing).dirty ≡ true
unfolding append append_raw write_all_at sync write_bytes advance encode_frame allocate_id
    Header.encode assign_id insert_offset
torn_dirty = refl

-- The stores of the runs.
abbrev pub store_1 : Store
store_1 = Store.append doc_1 Store.empty

abbrev pub store_2 : Store
store_2 = Store.append doc_2 store_1

abbrev pub store_3 : Store
store_3 = Store.delete 1 store_2

pub one_doc-Run : Run crates (new_db []) Store.empty (one_doc []) Store.empty store_1 []
one_doc-Run =
    appended doc_1.kind doc_1.payload 1 (one_doc []) here new_db-CanGoOn (ltb→lt _ _ refl) append_1

pub two_docs-Run : Run crates (new_db []) Store.empty two_docs Store.empty store_2 []
two_docs-Run =
    appended doc_2.kind doc_2.payload 2 two_docs one_doc-Run one_doc-CanGoOn (ltb→lt _ _ refl)
      append_2

pub one_deleted-Run : Run crates (new_db []) Store.empty one_deleted Store.empty store_3 []
one_deleted-Run = deleted 1 one_deleted two_docs-Run two_docs-CanGoOn tombstone_1

pub saved-Run : Run crates (new_db []) Store.empty saved store_3 store_3 []
saved-Run = committed saved one_deleted-Run one_deleted-CanGoOn commit_1

one_doc_torn-Run : Run crates (new_db failing) Store.empty (one_doc failing) Store.empty store_1 []
one_doc_torn-Run =
    appended doc_1.kind doc_1.payload 1 (one_doc failing) here failing-CanGoOn (ltb→lt _ _ refl)
      append_torn

pub torn-Run :
    Run crates (new_db failing) Store.empty torn Store.empty store_1 ((torn_next, store_1) ∷ [])
torn-Run =
    header_failed torn_next (io write_failed) torn_ready torn one_doc_torn-Run torn-CanGoOn
      torn_dirty prepare_torn write_header-torn
