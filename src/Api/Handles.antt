-- ===== src/Api/Handles.antt =====
-- What the methods of `Cndb`, in src/api.rs, do to what `get` answers.
use cndb.Prelude.{
  ◌+◌, ◌<◌, ◌^◌, ◌≡◌, ◌≢◌, refl, ap, sym, ◌∙◌, subst, inl, inr, Bool-cases, String, List, [], Bytes,
  arith, ltb, lt→ltb, ltb_false→le,
}
use cndb.Result.{ok, err, StdResult-cases}
use cndb.Error.{DocId, RecordKind, Result, deleted, not_an_object}
use cndb.Header.{Header, log_start}
use cndb.File.{File}
use cndb.File.Writes.{Synced}
use cndb.File.Crash.{Survives}
use cndb.Crates.{Crates, IsLawful}
use cndb.Store
use cndb.Store.{Store}
use cndb.Store.Reads.{append-read, append-read_other, delete-read, delete-read_other}
use cndb.Engine
use cndb.Engine.Open
use cndb.Engine.{StorageEngine}
use cndb.Engine.Open.{load}
use cndb.Engine.Appending.{HasRoom}
use cndb.Engine.Invariant.{Inv}
use cndb.Engine.Operations.{append-Does, tombstone-Does, tombstone-refused}
use cndb.Engine.Reading.{read-Store, next-alive}
use cndb.Engine.Committing.{commit-Commits}
use cndb.Engine.Crashing.{crash-committed}
use cndb.Document.{ValueKind, DocCrates, IsDocLawful, to_bson_bytes, type_name}
use cndb.Document.Codec.{from_bson_bytes-to_bson_bytes, to_bson_bytes-refused, to_bson_bytes-length}
use cndb.Api.Contents.{got}
use cndb.Api.{Cndb, on_store, open_handle, insert, get, delete, commit}

-- A file that can be loaded is not empty, so that opening loads it.
pub load-open_db :
    (c : Crates) (f : File) (path : String) (e : StorageEngine)
    → load c f path ≡ ok e
    → Open.open_db c f path ≡ (ok e, f)
unfolding Open.open_db
load-open_db c f path e h = elim (Bool-cases (ltb 0 f.len)) [
  | inl some_bytes ↦ rw (some_bytes, h) refl
  | inr no_bytes ↦ absurd (
      unfold load in
      ground (arith, lt→ltb f.len log_start (omega (arith, ltb_false→le 0 f.len no_bytes))))
]

-- `insert` of a document that BSON can express.
module _ (c : Crates) (d : DocCrates) (db : Cndb) where
  pub insert_lem :
      (doc : d.Value) (bytes : Bytes)
      → to_bson_bytes d doc ≡ ok bytes
      → insert c d doc db ≡ (
          let (r, store) = Engine.append c RecordKind.blob bytes db.store in
          (r, record { store = store }))
  unfolding insert on_store
  insert_lem doc bytes p = rw p refl

module _ (c : Crates) (lawful : IsLawful c) (d : DocCrates) (db : Cndb) {old now : Store}
    {attempts : List (Header × Store)} (v : Inv c db.store old now attempts) where
  pub get-Store : (id : DocId) → get c d db id ≡ got d (Store.read now id)
  unfolding get
  get-Store id = rw (read-Store c lawful db.store v id)

module _ (c : Crates) (lawful : IsLawful c) (d : DocCrates) {Storable : d.Value → Type 0}
    (doc_lawful : IsDocLawful d Storable) (db : Cndb) {old now : Store}
    {attempts : List (Header × Store)} (v : Inv c db.store old now attempts)
    (room : HasRoom db.store) where
  -- In a valid state, with lawful crates, with room in the log and ids that have not run out: if
  -- `insert` of a document that BSON can express returns an id, then `get` of that id returns the
  -- document, and `get` of any other id answers as before.
  pub insert-get :
      (doc : d.Value) (id : DocId) (db' : Cndb)
      → Storable doc
      → db.store.index.next_doc_id + 1 < 2 ^ 64
      → insert c d doc db ≡ (ok id, db')
      → (get c d db' id ≡ ok doc) × ((k : DocId) → k ≢ id → get c d db' k ≡ get c d db k)
  insert-get doc id db' storable ids h = elim (StdResult-cases (to_bson_bytes d doc)) [
    | inr (x, p) ↦ absurd (unfold insert in ground arith)
    | inl (bytes, p) ↦
        let same = sym (insert_lem c d db doc bytes p) ∙ h in
        elim (append-Does c db.store v room RecordKind.blob bytes
          (to_bson_bytes-length d doc_lawful doc bytes p) ids) [
            | inr (x, q, w) ↦ absurd (ground arith)
            | inl (q, w) ↦
                let new_id : now.next ≡ id = ground arith in
                let w' =
                  subst
                    (λ (o : Result DocId × Cndb).
                      Inv c o.1.store old
                        (Store.append (record { kind = RecordKind.blob; payload = bytes }) now)
                        attempts)
                    same w in
                (
                  get-Store c lawful d db' w' id
                      ∙ rw (← new_id) (
                          ap (got d) (append-read now _ (next-alive c db.store v))
                          ∙ from_bson_bytes-to_bson_bytes d doc_lawful doc bytes storable p),
                  λ k other.
                      get-Store c lawful d db' w' k
                      ∙ ap (got d) (append-read_other now _ k (λ e. other (e ∙ new_id)))
                      ∙ sym (get-Store c lawful d db v k),
                )
          ]
  ]

module _ (c : Crates) (lawful : IsLawful c) (d : DocCrates) (db : Cndb) {old now : Store}
    {attempts : List (Header × Store)} (v : Inv c db.store old now attempts)
    (room : HasRoom db.store) where
  -- In a valid state, with lawful crates and room in the log: if `delete` of an id succeeds, then
  -- `get` of that id reports it as deleted, and `get` of any other id answers as before.
  pub delete-get :
      (id : DocId) (db' : Cndb)
      → delete c id db ≡ (ok tt, db')
      → (get c d db' id ≡ err (deleted id)) × ((k : DocId) → k ≢ id → get c d db' k ≡ get c d db k)
  unfolding delete on_store
  delete-get id db' h = elim (StdResult-cases (Store.read now id)) [
    | inr (x, p) ↦ absurd (ground (arith, tombstone-refused c db.store v room id x p))
    | inl (r, p) ↦ elim (tombstone-Does c db.store v room id r p) [
      | inr (x, q, w) ↦ absurd (ground arith)
      | inl (q, w) ↦
          let w' =
            subst
              (λ (o : Result (Unit {0}) × Cndb). Inv c o.1.store old (Store.delete id now) attempts)
              h w in
          (
            get-Store c lawful d db' w' id ∙ ap (got d) (delete-read now id),
            λ k other.
                get-Store c lawful d db' w' k
                ∙ ap (got d) (delete-read_other now id k other)
                ∙ sym (get-Store c lawful d db v k),
          )
    ]
  ]

  -- In a valid state, with lawful crates, with room in the log and generations that have not run
  -- out: after a commit of the handle that succeeds, opening the file that a crash leaves
  -- succeeds, and `get` answers for each id as it did before the commit.
  pub commit-open :
      db.store.header.generation + 1 < 2 ^ 64
      → (db' : Cndb) (img : File) (path : String) → commit c db ≡ (ok tt, db')
      → Survives db'.store.file img
      → Synced img img
      → (db2 : Cndb) × (open_handle c img path ≡ (ok db2, img))
        × ((k : DocId) → get c d db2 k ≡ get c d db k)
  unfolding commit on_store open_handle
  commit-open generations db' img path h crash durable =
      elim (commit-Commits c lawful db.store v room generations) [
        | inr (x, tried, q, w, other) ↦ absurd (ground arith)
        | inl (q, w, later) ↦
            let w' = subst (λ (o : Result (Unit {0}) × Cndb). Inv c o.1.store now now []) h w in
            let (e, opened, w2, same) =
              crash-committed c lawful db'.store w' img crash path durable in
            (
              record { store = e },
              rw (load-open_db c img path e opened) refl,
              λ k.
                  get-Store c lawful d (record { store = e }) w2 k
                  ∙ sym (get-Store c lawful d db v k),
            )
      ]

module _ (c : Crates) (d : DocCrates) {Storable : d.Value → Type 0}
    (doc_lawful : IsDocLawful d Storable) (db : Cndb) where
  -- With lawful BSON crates, `insert` of a value that is no object fails with `NotAnObject`,
  -- which names its type, and changes nothing.
  pub insert-refused :
      (doc : d.Value)
      → d.kind_of doc ≢ ValueKind.object
      → insert c d doc db ≡ (err (not_an_object (type_name (d.kind_of doc))), db)
  unfolding insert
  insert-refused doc other = rw (to_bson_bytes-refused d doc_lawful doc other) refl
