-- ===== src/Api/Lives.antt =====
-- A handle of src/api.rs on a database file that other sessions have worked on before.
use cndb.Prelude.{
  ◌≡◌, refl, ap, sym, ◌∙◌, subst, inl, inr, ◌⊎◌, true, Bool-cases, List, [], Bytes, not,
  if◌then◌else◌, length, ◌<◌, ◌^◌, arith,
}
use cndb.Result.{ok, err, StdResult-cases}
use cndb.Error.{CndbError, DocId, RecordKind, Result, deleted, not_found}
use cndb.Record.{Record}
use cndb.Header.{Header}
use cndb.Crates.{Crates, IsLawful}
use cndb.Store
use cndb.Store.{Store}
use cndb.Engine
use cndb.Engine.{StorageEngine, read_record}
use cndb.Engine.Commit.{commit, commit_dirty, prepare, write_header}
use cndb.Engine.Runs
use cndb.Engine.Runs.{Run, here, CanGoOn}
use cndb.Engine.Invariant.{Inv}
use cndb.Engine.Lives.{Life, Life-durable, Life-append}
use cndb.Document.{DocCrates, IsDocLawful, to_bson_bytes, from_bson_bytes}
use cndb.Document.Codec.{to_bson_bytes-length}
use cndb.Api
use cndb.Api.{Cndb, on_store, insert, get, delete}
use cndb.Api.Handles.{get-Store, insert_lem}
use cndb.Api.Contents.{Contents, got}
use cndb.Api.Sessions.{Session, begun, inserted, insert_failed, deleted, delete_failed, committed}

-- Some run of the engine leads here.
data Ran (c : Crates) (start : StorageEngine) (s : Store) : StorageEngine → Type 0 where
  ran :
      {e : StorageEngine} {old now : Store} {attempts : List (Header × Store)}
      → Run c start s e old now attempts
      → Ran c start s e

module _ (c : Crates) (e : StorageEngine) (changed : e.dirty ≡ true) where
  commit_changed : commit c e ≡ commit_dirty c e
  unfolding commit
  commit_changed = ap (λ b. if not b then (ok tt, e) else commit_dirty c e) changed

  commit_unprepared :
      (y : CndbError) → (prepare c e).0 ≡ err y → commit_dirty c e ≡ (err y, (prepare c e).1)
  unfolding commit_dirty
  commit_unprepared y q = rw q refl

  commit_prepared :
      (next : Header)
      → (prepare c e).0 ≡ ok next
      → commit_dirty c e ≡ write_header c next (prepare c e).1
  unfolding commit_dirty
  commit_prepared next q = rw q refl

-- The same error and state, as an outcome of another type.
retyped :
    {A B S : Type 0} (x y : CndbError) (s t : S)
    → ◌≡◌ {A = Result A × S} (err x, s) (err y, t)
    → ◌≡◌ {A = Result B × S} (err x, s) (err y, t)
retyped x y s t p = ground arith

module _ (c : Crates) {start : StorageEngine} {s : Store} where
  -- A commit that fails did so before it wrote its header, or while it did.
  commit_err-Ran :
      (e e' : StorageEngine) (x : CndbError) {old now : Store} {attempts : List (Header × Store)}
      → Run c start s e old now attempts
      → CanGoOn e
      → e.dirty ≡ true
      → commit_dirty c e ≡ (err x, e')
      → Ran c start s e'
  commit_err-Ran e e' x before can changed p = elim (StdResult-cases (prepare c e).0) [
    | inr (y, q) ↦ ran (
        Runs.commit_failed x e' before can changed (
          ap (λ r. (r, (prepare c e).1)) q
          ∙ retyped y x (prepare c e).1 e' (sym (commit_unprepared c e changed y q) ∙ p)))
    | inl (next, q) ↦ ran (
        Runs.header_failed next x (prepare c e).1 e' before can changed
          (ap (λ r. (r, (prepare c e).1)) q) (sym (commit_prepared c e changed next q) ∙ p))
  ]

  commit-Ran :
      (e e' : StorageEngine) (r : Result (Unit {0}))
      → Ran c start s e
      → CanGoOn e
      → commit c e ≡ (r, e')
      → Ran c start s e'
  commit-Ran e e' (ok done) (ran before) can p = ran (Runs.committed e' before can p)
  commit-Ran e e' (err x) (ran before) can p = elim (Bool-cases e.dirty) [
    | inl changed ↦ commit_err-Ran e e' x before can changed (sym (commit_changed c e changed) ∙ p)
    | inr same ↦ absurd (unfold commit in ground arith)
  ]

  append-Ran :
      (kind : RecordKind) (payload : Bytes) (e e' : StorageEngine) (r : Result DocId)
      → Ran c start s e
      → CanGoOn e
      → length payload < 2 ^ 64
      → Engine.append c kind payload e ≡ (r, e')
      → Ran c start s e'
  append-Ran kind payload e e' (ok id) (ran before) can word p =
      ran (Runs.appended kind payload id e' before can word p)
  append-Ran kind payload e e' (err x) (ran before) can word p =
      ran (Runs.append_failed kind payload x e' before can word p)

  tombstone-Ran :
      (id : DocId) (e e' : StorageEngine) (r : Result (Unit {0}))
      → Ran c start s e
      → CanGoOn e
      → Engine.tombstone c id e ≡ (r, e')
      → Ran c start s e'
  tombstone-Ran id e e' (ok done) (ran before) can p = ran (Runs.deleted id e' before can p)
  tombstone-Ran id e e' (err x) (ran before) can p = ran (Runs.delete_failed id x e' before can p)

module _ (c : Crates) (d : DocCrates) {Storable : d.Value → Type 0}
    (doc_lawful : IsDocLawful d Storable) {start : StorageEngine} {s : Store} where
  -- `insert` runs `append`, or nothing where BSON refuses the document.
  insert-Ran :
      (doc : d.Value) (db db' : Cndb) (r : Result DocId)
      → Ran c start s db.store
      → CanGoOn db.store
      → insert c d doc db ≡ (r, db')
      → Ran c start s db'.store
  unfolding insert on_store
  insert-Ran doc db db' r before can p = elim (StdResult-cases (to_bson_bytes d doc)) [
    | inr (x, q) ↦ subst (λ (o : Result DocId × Cndb). Ran c start s o.1.store) p (rw q before)
    | inl (bytes, q) ↦
        subst (λ (o : Result DocId × Cndb). Ran c start s o.1.store) p
          (rw q (
            append-Ran c RecordKind.blob bytes db.store _ _ before can
              (to_bson_bytes-length d doc_lawful doc bytes q) refl))
  ]

  Session-Ran :
      {first : Contents d.Value} {from db : Cndb} {t : Contents d.Value}
      → Ran c start s from.store
      → Session c d Storable from first db t
      → Ran c start s db.store
  unfolding Api.delete Api.commit on_store
  Session-Ran a begun = a
  Session-Ran a (inserted {db} doc id db' before can storable p) =
      insert-Ran doc db db' (ok id) (Session-Ran a before) can p
  Session-Ran a (insert_failed {db} doc x db' before can p) =
      insert-Ran doc db db' (err x) (Session-Ran a before) can p
  Session-Ran a (deleted {db} id db' before can p) =
      tombstone-Ran c id db.store db'.store (ok tt) (Session-Ran a before) can
        (ap (λ (o : Result (Unit {0}) × Cndb). (o.0, o.1.store)) p)
  Session-Ran a (delete_failed {db} id x db' before can p) =
      tombstone-Ran c id db.store db'.store (err x) (Session-Ran a before) can
        (ap (λ (o : Result (Unit {0}) × Cndb). (o.0, o.1.store)) p)
  Session-Ran a (committed {db} r db' before can p) =
      commit-Ran c db.store db'.store r (Session-Ran a before) can
        (ap (λ (o : Result (Unit {0}) × Cndb). (o.0, o.1.store)) p)

-- What `get` makes of two answers of the engine.
module _ (d : DocCrates) (id : DocId) where
  from_bson_bytes-alive : (bytes : Bytes) → ¬ (from_bson_bytes d bytes ≡ err (deleted id))
  unfolding from_bson_bytes
  from_bson_bytes-alive bytes h = elim (StdResult-cases (d.from_slice bytes)) [
    | inr (x, p) ↦ ground arith
    | inl (doc, p) ↦ elim (StdResult-cases (d.from_document doc)) [
      | inr (x, q) ↦ ground arith
      | inl (value, q) ↦ ground arith
    ]
  ]

  got_ok :
      (was is : Result Record)
      → ((r : Record) → was ≡ ok r → (is ≡ ok r) ⊎ (is ≡ err (deleted id)))
      → (value : d.Value) → got d was ≡ ok value
      → (got d is ≡ ok value) ⊎ (got d is ≡ err (deleted id))
  got_ok (err x) is kept value h = absurd (ground arith)
  got_ok (ok r) is kept value h = elim (kept r refl) [
    | inl same ↦ inl (rw same h)
    | inr gone ↦ inr (rw gone refl)
  ]

  got_deleted :
      (was is : Result Record)
      → (was ≡ err (deleted id) → is ≡ err (deleted id))
      → got d was ≡ err (deleted id)
      → got d is ≡ err (deleted id)
  got_deleted (err x) is gone h = ap (got d) (gone (ground arith))
  got_deleted (ok r) is gone h = absurd (from_bson_bytes-alive r.payload h)

module _ (c : Crates) (lawful : IsLawful c) (d : DocCrates) {Storable : d.Value → Type 0}
    (doc_lawful : IsDocLawful d Storable) (origin : Cndb) (store : Store)
    (v : Inv c origin.store store store []) where
  get-got : (db : Cndb) (id : DocId) → get c d db id ≡ got d (read_record c db.store id)
  unfolding get Engine.read
  get-got db id = refl

  get-Ran :
      (from db : Cndb) {s : Store} (id : DocId)
      → Life c origin.store store from.store s
      → Ran c from.store s db.store
      → ((value : d.Value)
          → get c d origin id ≡ ok value
          → (get c d db id ≡ ok value) ⊎ (get c d db id ≡ err (deleted id)))
        × (get c d origin id ≡ err (deleted id) → get c d db id ≡ err (deleted id))
  get-Ran from db id life (ran run) =
      let (kept, gone) = Life-durable c lawful origin.store store v id life run in
      rw (get-Store c lawful d origin v id, get-got db id)
        (
          got_ok d id (Store.read store id) (read_record c db.store id) kept,
          got_deleted d id (Store.read store id) (read_record c db.store id) gone,
        )

  insert-Ran_new :
      (from db db' : Cndb) {s : Store} (doc : d.Value) (id : DocId)
      → Life c origin.store store from.store s
      → Ran c from.store s db.store
      → CanGoOn db.store
      → insert c d doc db ≡ (ok id, db')
      → get c d origin id ≡ err (not_found id)
  unfolding insert on_store
  insert-Ran_new from db db' doc id life (ran run) can p =
      elim (StdResult-cases (to_bson_bytes d doc)) [
        | inr (x, q) ↦ absurd (ground arith)
        | inl (bytes, q) ↦
            let appended : Engine.append c RecordKind.blob bytes db.store ≡ (ok id, db'.store) =
              ap (λ (o : Result DocId × Cndb). (o.0, o.1.store))
                (sym (insert_lem c d db doc bytes q) ∙ p) in
            get-Store c lawful d origin v id
            ∙ ap (got d) (
                Life-append c lawful origin.store store v RecordKind.blob bytes id db'.store life
                  run can (to_bson_bytes-length d doc_lawful doc bytes q) appended)
      ]

  -- From a handle whose engine is in a valid state with its present store committed: through any
  -- number of sessions that each open the file of the one before, run appends, deletions and
  -- commits that may fail at any of their system calls, and end in a crash, and then through any
  -- sequence of `insert`, `delete` and `commit` of one more handle, each of which may fail, a
  -- document that `get` returned at first is returned by `get` as it was, or is reported as
  -- deleted; an id that was reported as deleted is reported so again; and, with room for one
  -- more, an id that `insert` returns is one that `get` reported as not found at first. The
  -- crates are lawful, ids and generations have not run out and the log has room at every step,
  -- the payloads of the earlier sessions have a length that is a `u64` and the documents of the
  -- last one can be expressed in BSON, and what a crash leaves of the slot that is not live is no
  -- valid header, the one that was there, or one that a failed commit was writing.
  pub Session-durable :
      {from db : Cndb} {s : Store} {first t : Contents d.Value} (id : DocId)
      → Life c origin.store store from.store s
      → Session c d Storable from first db t
      → ((value : d.Value)
          → get c d origin id ≡ ok value
          → (get c d db id ≡ ok value) ⊎ (get c d db id ≡ err (deleted id)))
        × (get c d origin id ≡ err (deleted id) → get c d db id ≡ err (deleted id))
        × ((doc : d.Value) (db' : Cndb)
            → CanGoOn db.store
            → insert c d doc db ≡ (ok id, db')
            → get c d origin id ≡ err (not_found id))
  Session-durable {from} {db} {s} id life session =
      let r = Session-Ran c d doc_lawful (ran here) session in
      (
        (get-Ran from db id life r).0,
        (get-Ran from db id life r).1,
        λ doc db' can p. insert-Ran_new from db db' doc id life r can p,
      )
