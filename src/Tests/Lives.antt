-- ===== src/Tests/Lives.antt =====
-- Two sessions on one database: the first ends in a crash after its commit, the second has just
-- begun.
use cndb.Prelude.{◌≡◌, refl, [], ltb→lt, leb→le, ◌⊎◌}
use cndb.Result.{ok, err}
use cndb.Error.{deleted, not_found}
use cndb.File
use cndb.Log
use cndb.Record.{decode_frame, verify_payload, encode_frame, Record}
use cndb.Header
use cndb.Header.{victim_slot, set_slot, slot_offset}
use cndb.Collections.{contains, contains_key, insert, add, keys}
use cndb.Index
use cndb.Index.{allocate_id, insert_offset, mark_dead}
use cndb.File.{bytes, write_all_at, sync, write_bytes, advance, overwrite}
use cndb.Store
use cndb.Store.{Store}
use cndb.Engine.{
  StorageEngine, append_raw, append, assign_id, tombstone, delete_record, read_record,
}
use cndb.Engine.Commit.{commit, commit_dirty, prepare, write_master, write_header}
use cndb.Engine.Open.{load}
use cndb.Engine.Invariant.{Inv}
use cndb.Engine.Runs.{Run, here, appended, CanGoOn}
use cndb.Engine.Lives.{Left, kept, Life, born, reopened, Life-durable, Life-append, Life-Inv}
use cndb.Tests.Bincode.{crates, crates-IsLawful}
use cndb.Tests.Database.{doc_2, saved, image}
use cndb.Tests.Runs.{store_3, go_on}
use cndb.Tests.Storage.{image-Survives, image-Synced, saved-len, saved-Inv}

-- The engine after the crash, and its first new document.
abbrev pub again : StorageEngine
again = record saved { file = image saved }

abbrev again_2 : StorageEngine
again_2 = (append crates doc_2.kind doc_2.payload again).1

load-again : load crates (image saved) "graph.cndb" ≡ ok again
unfolding append append_raw write_all_at sync write_bytes advance encode_frame allocate_id
    Header.encode assign_id insert_offset contains contains_key insert tombstone delete_record
    commit commit_dirty prepare write_master Index.encode write_header victim_slot set_slot
    mark_dead add slot_offset load File.read_exact_at Header.select_live Header.decode bytes
    overwrite Log.read_record_at Log.read_frame_at decode_frame verify_payload Index.decode keys
load-again = refl

kept_slot : Left crates saved store_3 [] (image saved) (saved.header, store_3)
unfolding append append_raw write_all_at sync write_bytes advance encode_frame allocate_id
    Header.encode assign_id insert_offset contains contains_key insert tombstone delete_record
    commit commit_dirty prepare write_master Index.encode write_header victim_slot set_slot
    mark_dead add slot_offset Header.decode bytes overwrite
kept_slot = kept refl refl

pub again-Life : Life crates saved store_3 again store_3
again-Life =
    reopened (image saved) "graph.cndb" saved.header store_3 again born here
      (image-Survives saved saved-len) (image-Synced saved) kept_slot load-again

append_3 : append crates doc_2.kind doc_2.payload again ≡ (ok 3, again_2)
unfolding append append_raw write_all_at sync write_bytes advance encode_frame allocate_id
    Header.encode assign_id insert_offset contains contains_key insert tombstone delete_record
    commit commit_dirty prepare write_master Index.encode write_header victim_slot set_slot
    mark_dead add slot_offset
append_3 = refl

pub again-CanGoOn : CanGoOn again
unfolding append append_raw write_all_at sync write_bytes advance encode_frame allocate_id
    Header.encode assign_id insert_offset contains contains_key insert tombstone delete_record
    commit commit_dirty prepare write_master Index.encode write_header victim_slot set_slot
    mark_dead add slot_offset
again-CanGoOn =
    go_on again (leb→le _ _ refl) (leb→le _ _ refl) (ltb→lt _ _ refl) (ltb→lt _ _ refl)
      (ltb→lt _ _ refl)

again_2-Run : Run crates again store_3 again_2 store_3 (Store.append doc_2 store_3) []
again_2-Run =
    appended doc_2.kind doc_2.payload 3 again_2 here again-CanGoOn (ltb→lt _ _ refl) append_3

Life-Inv_example : Inv crates again_2 store_3 (Store.append doc_2 store_3) []
Life-Inv_example = Life-Inv crates crates-IsLawful saved store_3 saved-Inv again-Life again_2-Run

Life-durable_example :
    ((r : Record)
      → Store.read store_3 1 ≡ ok r
      → (read_record crates again_2 1 ≡ ok r) ⊎ (read_record crates again_2 1 ≡ err (deleted 1)))
    × (Store.read store_3 1 ≡ err (deleted 1) → read_record crates again_2 1 ≡ err (deleted 1))
Life-durable_example =
    Life-durable crates crates-IsLawful saved store_3 saved-Inv 1 again-Life again_2-Run

Life-append_example : Store.read store_3 3 ≡ err (not_found 3)
Life-append_example =
    Life-append crates crates-IsLawful saved store_3 saved-Inv doc_2.kind doc_2.payload 3 again_2
      again-Life here again-CanGoOn (ltb→lt _ _ refl) append_3
