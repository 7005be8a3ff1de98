-- ===== src/Tests/Clients.antt =====
-- The theorems on the handle of a database, at work on the concrete databases.
use cndb.Prelude.{none, false, ◌≡◌, ◌≢◌, refl, ap, [], ◌∷◌}
use cndb.Result.{ok, err}
use cndb.Error.{DocId, CndbError, RecordKind}
use cndb.Record.{encode_frame}
use cndb.Header
use cndb.Index.{allocate_id, insert_offset}
use cndb.File.{write_all_at, sync, write_bytes, advance}
use cndb.Engine.{StorageEngine, append, append_raw, assign_id}
use cndb.Document.{to_bson_bytes}
use cndb.Api.{Cndb, on_store, open_handle, insert, get, delete, commit}
use cndb.Api.Handles.{insert-get, delete-get, commit-open}
use cndb.Engine.Contract.{contract, contract-Good}
use cndb.Engine.Runs.{CanGoOn}
use cndb.Store
use cndb.Api.Contents.{Contents, look_up, put}
use cndb.Api.Sessions
use cndb.Api.Sessions.{Agrees, begun, Session-get}
use cndb.Tests.Bincode.{crates, crates-IsLawful}
use cndb.Tests.Json.{Json, fields, doc_crates, doc_crates-IsLawful}
use cndb.Tests.Database.{new_db, new_db-Inv, two_docs, one_deleted, saved, image}
use cndb.Tests.Runs.{new_db-CanGoOn, two_docs-CanGoOn, one_deleted-CanGoOn, tombstone_1, commit_1}
use cndb.Tests.Storage.{two_docs-Inv, one_deleted-Inv, image-Survives, image-Synced, saved-len}

abbrev pub handle : StorageEngine → Cndb
handle e = record { store = e }

abbrev pub document : Json
document = fields (b'h' ∷ b'i' ∷ [])

abbrev inserted : Cndb
inserted = handle (append crates RecordKind.blob (b'h' ∷ b'i' ∷ []) (new_db [])).1

insert_1 : insert crates doc_crates document (handle (new_db [])) ≡ (ok 1, inserted)
unfolding insert on_store to_bson_bytes append append_raw write_all_at sync write_bytes advance
    encode_frame allocate_id Header.encode assign_id insert_offset
insert_1 = refl

insert-get_example :
    (get crates doc_crates inserted 1 ≡ ok document)
    × ((k : DocId)
        → k ≢ 1
        → get crates doc_crates inserted k ≡ get crates doc_crates (handle (new_db [])) k)
insert-get_example =
    insert-get crates crates-IsLawful doc_crates doc_crates-IsLawful (handle (new_db [])) new_db-Inv
      new_db-CanGoOn.room document 1 inserted tt new_db-CanGoOn.ids insert_1

delete_1 : delete crates 1 (handle two_docs) ≡ (ok tt, handle one_deleted)
unfolding delete on_store
delete_1 = ap (λ o. (o.0, handle o.1)) tombstone_1

delete-get_example :
    (get crates doc_crates (handle one_deleted) 1 ≡ err (CndbError.deleted 1))
    × ((k : DocId)
        → k ≢ 1
        → get crates doc_crates (handle one_deleted) k ≡ get crates doc_crates (handle two_docs) k)
delete-get_example =
    delete-get crates crates-IsLawful doc_crates (handle two_docs) two_docs-Inv
      two_docs-CanGoOn.room 1 (handle one_deleted) delete_1

commit-handle : commit crates (handle one_deleted) ≡ (ok tt, handle saved)
unfolding commit on_store
commit-handle = ap (λ o. (o.0, handle o.1)) commit_1

commit-open_example :
    (db2 : Cndb) × (open_handle crates (image saved) "graph.cndb" ≡ (ok db2, image saved))
    × ((k : DocId) → get crates doc_crates db2 k ≡ get crates doc_crates (handle one_deleted) k)
commit-open_example =
    commit-open crates crates-IsLawful doc_crates (handle one_deleted) one_deleted-Inv
      one_deleted-CanGoOn.room one_deleted-CanGoOn.generations (handle saved) (image saved)
      "graph.cndb" commit-handle (image-Survives saved saved-len) (image-Synced saved)

-- A new database shows nothing.
abbrev pub no_contents : Contents Json
no_contents = record { docs = λ k. none; dead = λ k. false; next = 1 }

new_db-Agrees :
    Agrees crates
      (contract crates crates-IsLawful)
      doc_crates
      doc_crates-IsLawful
      (handle (new_db []))
      no_contents
new_db-Agrees = record {
  store = Store.empty;
  good = contract-Good crates crates-IsLawful (new_db []) new_db-Inv;
  shows = record { next = refl; dead = λ k. refl; docs = λ k. tt };
}

Session-get_example :
    ((id : DocId) → get crates doc_crates inserted id ≡ look_up (put document no_contents) id)
    × ((doc : Json) (id : DocId) (db' : Cndb)
        → CanGoOn inserted.store
        → insert crates doc_crates doc inserted ≡ (ok id, db')
        → id ≡ 2)
Session-get_example =
    Session-get crates (contract crates crates-IsLawful) doc_crates doc_crates-IsLawful
      new_db-Agrees (Sessions.inserted document 1 inserted begun new_db-CanGoOn tt insert_1)
