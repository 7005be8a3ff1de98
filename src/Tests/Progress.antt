-- ===== src/Tests/Progress.antt =====
-- The theorems on what succeeds, at work on a database whose calls are all carried out.
use cndb.Prelude.{
  ℕ, ◌+◌, ◌<◌, ◌^◌, ◌≡◌, refl, [], ◌∷◌, Bytes, length, ltb→lt, leb→le, replicate, length-replicate,
}
use cndb.Result.{ok, err}
use cndb.Error.{record_too_large}
use cndb.Record.{encode_frame, max_record_len}
use cndb.Header
use cndb.Index.{allocate_id, insert_offset}
use cndb.Collections.{insert}
use cndb.File.{write_all_at, sync, write_bytes, advance}
use cndb.File.Calm.{IsCalm}
use cndb.Crates.{Crates}
use cndb.Engine.{append_raw, append, assign_id}
use cndb.Engine.Commit.{commit}
use cndb.Engine.Progress.{commit-IsCalm, commit-too_long}
use cndb.Tests.Bincode.{crates, serialize}
use cndb.Tests.Words.{put_words}
use cndb.Tests.Database.{new_db, one_doc}
use cndb.Prelude.{String, ◌≢◌}
use cndb.Error.{DocId}
use cndb.Index.Validity.{assign}
use cndb.File.{File}
use cndb.File.Crash.{Survives}
use cndb.File.Writes.{Synced}
use cndb.Document.{to_bson_bytes}
use cndb.Api
use cndb.Api.{Cndb, open_handle, get}
use cndb.Api.Progress.{commit-insert}
use cndb.Tests.Bincode.{crates-IsLawful}
use cndb.Tests.Json.{doc_crates, doc_crates-IsLawful}
use cndb.Tests.Clients.{handle, document}
use cndb.Tests.Database.{new_db-Inv}
use cndb.Tests.Runs.{new_db-CanGoOn}

new_db-IsCalm : IsCalm (new_db []).file
unfolding write_all_at sync write_bytes advance Header.encode
new_db-IsCalm = refl

one_doc-IsCalm : IsCalm (one_doc []).file
unfolding append append_raw write_all_at sync write_bytes advance encode_frame allocate_id
    Header.encode assign_id insert_offset
one_doc-IsCalm = refl

-- The next id, no dead id, one entry: document 1 at 128.
abbrev index_bytes : Bytes
index_bytes = put_words (2 ∷ 0 ∷ 1 ∷ 1 ∷ 128 ∷ [])

one_doc-serialized : serialize (one_doc []).index ≡ ok index_bytes
unfolding append append_raw write_all_at sync write_bytes advance encode_frame allocate_id
    Header.encode assign_id insert_offset insert
one_doc-serialized = refl

commit-IsCalm_example : (commit crates (one_doc [])).0 ≡ ok tt
commit-IsCalm_example =
    commit-IsCalm crates (one_doc []) index_bytes one_doc-IsCalm one_doc-serialized
      (leb→le _ _ refl)

-- A serializer whose output is as long as is asked for.
abbrev long_crates : ℕ → Crates
long_crates n = record {
  hash = crates.hash;
  serialize = λ idx. ok (replicate n 0);
  deserialize = crates.deserialize;
}

-- One byte more than a record may have.
too_long : (n : ℕ) × (max_record_len < n) × (n < 2 ^ 64)
too_long = (max_record_len + 1, ltb→lt _ _ refl, ltb→lt _ _ refl)

abbrev long_bytes : Bytes
long_bytes = replicate too_long.0 0

long_bytes-len : length long_bytes ≡ too_long.0
long_bytes-len = length-replicate {A = ℕ} too_long.0 0

commit-too_long_example :
    (commit (long_crates too_long.0) (one_doc [])).0
    ≡ err (record_too_large 139 (length long_bytes) max_record_len)
unfolding append append_raw write_all_at sync write_bytes advance encode_frame allocate_id
    Header.encode assign_id insert_offset
commit-too_long_example =
    commit-too_long (long_crates too_long.0) (one_doc []) long_bytes one_doc-IsCalm refl refl
      (rw long_bytes-len too_long.1) (rw long_bytes-len too_long.2)

abbrev document_bytes : Bytes
document_bytes = b'h' ∷ b'i' ∷ []

document-encoded : to_bson_bytes doc_crates document ≡ ok document_bytes
unfolding to_bson_bytes
document-encoded = refl

document-serialized : serialize (assign (new_db []).index (new_db []).end) ≡ ok index_bytes
unfolding write_all_at sync write_bytes advance Header.encode allocate_id insert_offset insert
document-serialized = refl

commit-insert_example :
    (db1 db2 : Cndb) × (Api.insert crates doc_crates document (handle (new_db [])) ≡ (ok 1, db1))
    × (Api.commit crates db1 ≡ (ok tt, db2))
    × ((img : File) (path : String)
        → Survives db2.store.file img
        → Synced img img
        → (db3 : Cndb) × (open_handle crates img path ≡ (ok db3, img))
          × (get crates doc_crates db3 1 ≡ ok document)
          × ((k : DocId)
              → k ≢ 1
              → get crates doc_crates db3 k ≡ get crates doc_crates (handle (new_db [])) k))
commit-insert_example =
    commit-insert crates crates-IsLawful doc_crates doc_crates-IsLawful (handle (new_db []))
      new_db-Inv new_db-IsCalm new_db-CanGoOn.room new_db-CanGoOn.ids document_bytes
      (leb→le _ _ refl) document index_bytes tt document-encoded (ltb→lt _ _ refl)
      new_db-CanGoOn.generations document-serialized (leb→le _ _ refl)
