-- ===== src/Tests/Prefixes.antt =====
-- A handle on a database file that was cut off behind the committed end.
use cndb.Prelude.{◌≡◌, refl, ltb→lt}
use cndb.Result.{ok}
use cndb.File
use cndb.Log
use cndb.Record.{decode_frame, verify_payload, encode_frame}
use cndb.Header
use cndb.Header.{victim_slot, set_slot, slot_offset}
use cndb.Collections.{contains, contains_key, insert, add, keys}
use cndb.Index
use cndb.Index.{allocate_id, insert_offset, mark_dead}
use cndb.File.{bytes, write_all_at, sync, write_bytes, advance, overwrite}
use cndb.Store
use cndb.Engine.{StorageEngine, append_raw, append, assign_id, tombstone, delete_record}
use cndb.Engine.Commit.{commit, commit_dirty, prepare, write_master, write_header}
use cndb.Engine.Open.{load}
use cndb.Engine.Truncating.{cut}
use cndb.Document.{from_bson_bytes}
use cndb.Api.{open_handle}
use cndb.Api.Contents.{Contents, Shows, put, remove, put-Shows, remove-Shows}
use cndb.Api.Handles.{load-open_db}
use cndb.Api.Prefixes.{Intact, open_handle-cut}
use cndb.Tests.Bincode.{crates, crates-IsLawful}
use cndb.Tests.Json.{Json, fields, doc_crates}
use cndb.Tests.Clients.{handle, no_contents}
use cndb.Tests.Database.{doc_1, doc_2, saved}
use cndb.Tests.Storage.{saved-Inv}
use cndb.Tests.Runs.{store_1, store_2, store_3}

-- The engine of the file when it has 300 bytes.
abbrev shortened : StorageEngine
shortened = record saved { file = cut 300 saved.file }

load-shortened : load crates (cut 300 saved.file) "graph.cndb" ≡ ok shortened
unfolding append append_raw write_all_at sync write_bytes advance encode_frame allocate_id
    Header.encode assign_id insert_offset contains contains_key insert tombstone delete_record
    commit commit_dirty prepare write_master Index.encode write_header victim_slot set_slot
    mark_dead add slot_offset load File.read_exact_at Header.select_live Header.decode bytes
    overwrite Log.read_record_at Log.read_frame_at decode_frame verify_payload Index.decode keys
load-shortened = refl

open_handle-shortened :
    (open_handle crates (cut 300 saved.file) "graph.cndb").0 ≡ ok (handle shortened)
unfolding open_handle
open_handle-shortened =
    rw (load-open_db crates (cut 300 saved.file) "graph.cndb" shortened load-shortened) refl

abbrev contents_1 : Contents Json
contents_1 = put (fields doc_1.payload) no_contents

abbrev contents_2 : Contents Json
contents_2 = put (fields doc_2.payload) contents_1

contents_3-Shows : Shows doc_crates store_3 (remove 1 contents_2)
unfolding from_bson_bytes
contents_3-Shows = remove-Shows doc_crates store_2 contents_2 1 (
    put-Shows doc_crates store_1 contents_1 doc_2 (fields doc_2.payload)
      (put-Shows doc_crates Store.empty no_contents doc_1 (fields doc_1.payload)
        (record { next = refl; dead = λ k. refl; docs = λ k. tt }) refl)
      refl)

open_handle-cut_example : Intact crates doc_crates (handle shortened) (remove 1 contents_2)
open_handle-cut_example =
    open_handle-cut crates doc_crates crates-IsLawful (handle saved) saved-Inv (remove 1 contents_2)
      contents_3-Shows 300 "graph.cndb" (handle shortened) (ltb→lt _ _ refl) open_handle-shortened
