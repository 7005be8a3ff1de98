-- ===== src/Api/Progress.antt =====
-- The methods of `Cndb`, in src/api.rs, where no call of the operating system fails.
use cndb.Prelude.{
  ◌+◌, ◌*◌, ◌≤◌, ◌<◌, ◌^◌, ◌≡◌, ◌≢◌, ap, ◌∙◌, inl, inr, String, Bytes, length, arith, List,
}
use cndb.Result.{ok}
use cndb.Error.{DocId, RecordKind, Result}
use cndb.Record.{record_header_size, max_record_len}
use cndb.Header.{Header}
use cndb.Crates.{Crates, IsLawful}
use cndb.Store
use cndb.Store.{Store}
use cndb.Index.Validity.{assign}
use cndb.File.{File}
use cndb.File.Calm.{IsCalm}
use cndb.File.Writes.{Synced}
use cndb.File.Crash.{Survives}
use cndb.Engine
use cndb.Engine.{StorageEngine}
use cndb.Engine.Appending.{HasRoom}
use cndb.Engine.Invariant.{Inv}
use cndb.Engine.Operations.{append-Does}
use cndb.Engine.Progress.{append-IsCalm, append_done, commit-IsCalm}
use cndb.Document.{DocCrates, IsDocLawful, to_bson_bytes}
use cndb.Api.{Cndb, on_store, open_handle, insert, get, commit}
use cndb.Api.Handles.{insert_lem, insert-get, commit-open}

module _ (c : Crates) (lawful : IsLawful c) (d : DocCrates) {Storable : d.Value → Type 0}
    (doc_lawful : IsDocLawful d Storable) (db : Cndb) {old now : Store}
    {attempts : List (Header × Store)} (v : Inv c db.store old now attempts)
    (calm : IsCalm db.store.file) (room : HasRoom db.store)
    (ids : db.store.index.next_doc_id + 1 < 2 ^ 64) (bytes : Bytes)
    (fits : length bytes ≤ max_record_len) where
  abbrev appended : Result DocId × StorageEngine
  appended = Engine.append c RecordKind.blob bytes db.store

  appended-ok : appended.0 ≡ ok db.store.index.next_doc_id
  appended-ok = append-IsCalm c RecordKind.blob bytes db.store calm fits

  appended-Inv :
      Inv c appended.1 old
        (Store.append (record { kind = RecordKind.blob; payload = bytes }) now)
        attempts
  appended-Inv = elim (append-Does c db.store v room RecordKind.blob bytes (omega arith) ids) [
    | inl (p, w) ↦ w
    | inr (x, p, w) ↦ absurd (ground (arith, appended-ok))
  ]

  appended-HasRoom :
      db.store.end + 2 * (record_header_size + max_record_len) < 2 ^ 64 → HasRoom appended.1
  appended-HasRoom both =
      let (calm1, index, end, header) = append_done c RecordKind.blob bytes db.store calm fits in
      record {
        starts = omega (arith, end, room.starts);
        inside = appended-Inv.inside;
        room = omega (arith, end);
      }

  -- In a valid state, with lawful crates, where every call of the operating system is carried
  -- out, ids and generations have not run out and the log has room for two more records: take a
  -- document that BSON can express in at most 64 MiB, such that the index with one more entry
  -- serializes to at most 64 MiB. Then `insert` succeeds and returns the next id, the commit
  -- after it succeeds, and whatever file a crash leaves then, opening it succeeds and `get` of
  -- that id returns the document and of any other id answers as before the two calls.
  pub commit-insert :
      (doc : d.Value) (index_bytes : Bytes)
      → Storable doc
      → to_bson_bytes d doc ≡ ok bytes
      → db.store.end + 2 * (record_header_size + max_record_len) < 2 ^ 64
      → db.store.header.generation + 1 < 2 ^ 64
      → c.serialize (assign db.store.index db.store.end) ≡ ok index_bytes
      → length index_bytes ≤ max_record_len
      → (db1 db2 : Cndb) × (insert c d doc db ≡ (ok db.store.index.next_doc_id, db1))
        × (commit c db1 ≡ (ok tt, db2))
        × ((img : File) (path : String)
            → Survives db2.store.file img
            → Synced img img
            → (db3 : Cndb) × (open_handle c img path ≡ (ok db3, img))
              × (get c d db3 db.store.index.next_doc_id ≡ ok doc)
              × ((k : DocId) → k ≢ db.store.index.next_doc_id → get c d db3 k ≡ get c d db k))
  commit-insert doc index_bytes storable encoded both generations serialized short =
      let (calm1, index, end, header) = append_done c RecordKind.blob bytes db.store calm fits in
      let db1 : Cndb = record { store = appended.1 } in
      let db2 : Cndb = (commit c db1).1 in
      let inserted : insert c d doc db ≡ (ok db.store.index.next_doc_id, db1) =
        insert_lem c d db doc bytes encoded ∙ ap (λ r. (r, db1)) appended-ok in
      let saved : (commit c db1).0 ≡ ok tt =
        unfold commit on_store in
        commit-IsCalm c appended.1 index_bytes calm1 (ap c.serialize index ∙ serialized) short in
      let committed : commit c db1 ≡ (ok tt, db2) = ap (λ r. (r, db2)) saved in
      let (new, others) =
        insert-get c lawful d doc_lawful db v room doc _ db1 storable ids inserted in
      (
        db1,
        db2,
        inserted,
        committed,
        λ img path crash durable.
            let (db3, opened, same) =
              commit-open c lawful d db1 appended-Inv (appended-HasRoom both)
                (omega (arith, ap (λ (h : Header). h.generation) header)) db2 img path committed
                crash durable in
            (
              db3,
              opened,
              same db.store.index.next_doc_id ∙ new,
              λ k other. same k ∙ others k other,
            ),
      )
