-- ===== src/Tests/Handles.antt =====
-- A handle on a database that another session has worked on.
use cndb.Prelude.{◌≡◌, refl, ap, ◌∙◌, [], ◌⊎◌, ◌∷◌}
use cndb.Result.{ok, err}
use cndb.Error.{CndbError, RecordKind}
use cndb.Record.{encode_frame}
use cndb.Header
use cndb.Header.{victim_slot, set_slot, slot_offset}
use cndb.Collections.{contains, contains_key, insert as insert_entry, add}
use cndb.Index
use cndb.Index.{allocate_id, insert_offset, mark_dead}
use cndb.File.{write_all_at, sync, write_bytes, advance}
use cndb.Engine.{append_raw, append, assign_id, tombstone, delete_record}
use cndb.Engine.Commit.{commit, commit_dirty, prepare, write_master, write_header}
use cndb.Engine.Runs.{CanGoOn}
use cndb.Document.{to_bson_bytes}
use cndb.Api.{Cndb, insert, get}
use cndb.Api.Sessions.{Session, inserted, begun}
use cndb.Api.Contents.{put}
use cndb.Api.Handles.{insert_lem}
use cndb.Api.Lives.{Session-durable}
use cndb.Tests.Bincode.{crates, crates-IsLawful}
use cndb.Tests.Json.{Json, Storable, doc_crates, doc_crates-IsLawful}
use cndb.Tests.Clients.{handle, document, no_contents}
use cndb.Tests.Database.{saved}
use cndb.Tests.Storage.{saved-Inv}
use cndb.Tests.Runs.{store_3}
use cndb.Tests.Lives.{again, again-Life, again-CanGoOn}

abbrev again_inserted : Cndb
again_inserted = handle (append crates RecordKind.blob (b'h' ∷ b'i' ∷ []) again).1

append_third : append crates RecordKind.blob (b'h' ∷ b'i' ∷ []) again ≡ (ok 3, again_inserted.store)
unfolding append append_raw write_all_at sync write_bytes advance encode_frame allocate_id
    Header.encode assign_id insert_offset contains contains_key insert_entry tombstone delete_record
    commit commit_dirty prepare write_master Index.encode write_header victim_slot set_slot
    mark_dead add slot_offset
append_third = refl

document-encoded : to_bson_bytes doc_crates document ≡ ok (b'h' ∷ b'i' ∷ [])
unfolding to_bson_bytes
document-encoded = refl

insert_3 : insert crates doc_crates document (handle again) ≡ (ok 3, again_inserted)
insert_3 =
    insert_lem crates doc_crates (handle again) document (b'h' ∷ b'i' ∷ []) document-encoded
    ∙ ap (λ o. (o.0, handle o.1)) append_third

again_inserted-Session :
    Session crates doc_crates Storable
      (handle again)
      no_contents
      again_inserted
      (put document no_contents)
again_inserted-Session = inserted document 3 again_inserted begun again-CanGoOn tt insert_3

Session-durable_example :
    ((value : Json)
      → get crates doc_crates (handle saved) 1 ≡ ok value
      → (get crates doc_crates again_inserted 1 ≡ ok value)
        ⊎ (get crates doc_crates again_inserted 1 ≡ err (CndbError.deleted 1)))
    × (get crates doc_crates (handle saved) 1 ≡ err (CndbError.deleted 1)
        → get crates doc_crates again_inserted 1 ≡ err (CndbError.deleted 1))
    × ((doc : Json) (db' : Cndb)
        → CanGoOn again_inserted.store
        → insert crates doc_crates doc again_inserted ≡ (ok 1, db')
        → get crates doc_crates (handle saved) 1 ≡ err (CndbError.not_found 1))
Session-durable_example =
    Session-durable crates crates-IsLawful doc_crates doc_crates-IsLawful (handle saved) store_3
      saved-Inv 1 again-Life again_inserted-Session
