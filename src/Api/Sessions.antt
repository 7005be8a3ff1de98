-- ===== src/Api/Sessions.antt =====
-- Sequences of calls of `Cndb`, in src/api.rs, over any engine that meets the contract.
use cndb.Prelude.{◌≡◌, ◌∙◌, ap, subst, inl, inr, ◌⊎◌, arith}
use cndb.Result
use cndb.Result.{ok, err, StdResult-cases}
use cndb.Error.{CndbError, DocId, RecordKind, Result}
use cndb.Crates.{Crates}
use cndb.Store
use cndb.Store.{Store}
use cndb.Engine.Runs.{CanGoOn}
use cndb.Engine.Contract.{Contract}
use cndb.Document.{DocCrates, IsDocLawful, to_bson_bytes, from_bson_bytes}
use cndb.Document.Codec.{from_bson_bytes-to_bson_bytes, to_bson_bytes-length}
use cndb.Api.{Cndb, on_store, insert, get, delete, commit}
use cndb.Api.Contents.{
  Contents, put, remove, look_up, Shows, look_up-Shows, put-Shows, remove-Shows,
}

module _ (c : Crates) (d : DocCrates) (Storable : d.Value → Type 0) where
  -- From `start`, whose contents are `first`, calls lead to a handle and its contents.
  pub data Session (start : Cndb) (first : Contents d.Value)
      : Cndb → Contents d.Value → Type 0 where
    begun : Session start first start first
    inserted :
        {db : Cndb} {t : Contents d.Value} (doc : d.Value) (id : DocId) (db' : Cndb)
        → Session start first db t
        → CanGoOn db.store
        → Storable doc
        → insert c d doc db ≡ (ok id, db')
        → Session start first db' (put doc t)
    insert_failed :
        {db : Cndb} {t : Contents d.Value} (doc : d.Value) (x : CndbError) (db' : Cndb)
        → Session start first db t
        → CanGoOn db.store
        → insert c d doc db ≡ (err x, db')
        → Session start first db' t
    deleted :
        {db : Cndb} {t : Contents d.Value} (id : DocId) (db' : Cndb)
        → Session start first db t
        → CanGoOn db.store
        → delete c id db ≡ (ok tt, db')
        → Session start first db' (remove id t)
    delete_failed :
        {db : Cndb} {t : Contents d.Value} (id : DocId) (x : CndbError) (db' : Cndb)
        → Session start first db t
        → CanGoOn db.store
        → delete c id db ≡ (err x, db')
        → Session start first db' t
    committed :
        {db : Cndb} {t : Contents d.Value} (r : Result (Unit {0})) (db' : Cndb)
        → Session start first db t
        → CanGoOn db.store
        → commit c db ≡ (r, db')
        → Session start first db' t

module _ (c : Crates) (k : Contract c) (d : DocCrates) {Storable : d.Value → Type 0}
    (doc_lawful : IsDocLawful d Storable) where
  -- The engine of the handle is good for a store that shows the contents.
  pub record Agrees (db : Cndb) (t : Contents d.Value) : Type 0 where
    pub store : Store
    pub good : k.Good db.store store
    pub shows : Shows d store t

  insert_cases :
      (doc : d.Value) (db : Cndb) {t : Contents d.Value}
      → Agrees db t
      → CanGoOn db.store
      → (((insert c d doc db).0 ≡ ok t.next)
          × (Storable doc → Agrees (insert c d doc db).1 (put doc t)))
        ⊎ ((x : CndbError) × ((insert c d doc db).0 ≡ err x) × Agrees (insert c d doc db).1 t)
  unfolding insert on_store
  insert_cases doc db {t} a can = elim (StdResult-cases (to_bson_bytes d doc)) [
    | inr (x, p) ↦ inr (x, rw p, rw p a)
    | inl (bytes, p) ↦
        elim (k.appends a.good can RecordKind.blob bytes
          (to_bson_bytes-length d doc_lawful doc bytes p)) [
            | inr (x, q, g) ↦
                inr (x, rw (p, q), rw p (record { store = a.store; good = g; shows = a.shows }))
            | inl (q, g) ↦ inl (
              rw (p, q) (ap ok a.shows.next),
              λ storable. rw p (record {
                store = Store.append (record { kind = RecordKind.blob; payload = bytes }) a.store;
                good = g;
                shows =
                    put-Shows d a.store t _ doc a.shows
                      (from_bson_bytes-to_bson_bytes d doc_lawful doc bytes storable p);
              }),
            )
          ]
  ]

  delete_cases :
      (id : DocId) (db : Cndb) {t : Contents d.Value}
      → Agrees db t
      → CanGoOn db.store
      → (((delete c id db).0 ≡ ok tt) × Agrees (delete c id db).1 (remove id t))
        ⊎ ((x : CndbError) × ((delete c id db).0 ≡ err x) × Agrees (delete c id db).1 t)
  unfolding delete on_store
  delete_cases id db {t} a can = elim (k.deletes a.good can id) [
    | inr (x, q, g) ↦ inr (x, q, record { store = a.store; good = g; shows = a.shows })
    | inl (q, g) ↦ inl (
      q,
      record {
        store = Store.delete id a.store;
        good = g;
        shows = remove-Shows d a.store t id a.shows;
      },
    )
  ]

  commit-Agrees :
      (db : Cndb) {t : Contents d.Value} → Agrees db t → CanGoOn db.store → Agrees (commit c db).1 t
  unfolding commit on_store
  commit-Agrees db a can = record { store = a.store; good = k.commits a.good can; shows = a.shows }

  Session-Agrees :
      {start : Cndb} {first : Contents d.Value} {db : Cndb} {t : Contents d.Value}
      → Agrees start first
      → Session c d Storable start first db t
      → Agrees db t
  Session-Agrees a begun = a
  Session-Agrees a (inserted {db} {t} doc id db' before can storable p) =
      elim (insert_cases doc db (Session-Agrees a before) can) [
        | inl (q, g) ↦ subst (λ (o : Result DocId × Cndb). Agrees o.1 (put doc t)) p (g storable)
        | inr (x, q, g) ↦ absurd (ground arith)
      ]
  Session-Agrees a (insert_failed {db} {t} doc x db' before can p) =
      elim (insert_cases doc db (Session-Agrees a before) can) [
        | inl (q, g) ↦ absurd (ground arith)
        | inr (y, q, g) ↦ subst (λ (o : Result DocId × Cndb). Agrees o.1 t) p g
      ]
  Session-Agrees a (deleted {db} {t} id db' before can p) =
      elim (delete_cases id db (Session-Agrees a before) can) [
        | inl (q, g) ↦ subst (λ (o : Result (Unit {0}) × Cndb). Agrees o.1 (remove id t)) p g
        | inr (x, q, g) ↦ absurd (ground arith)
      ]
  Session-Agrees a (delete_failed {db} {t} id x db' before can p) =
      elim (delete_cases id db (Session-Agrees a before) can) [
        | inl (q, g) ↦ absurd (ground arith)
        | inr (y, q, g) ↦ subst (λ (o : Result (Unit {0}) × Cndb). Agrees o.1 t) p g
      ]
  Session-Agrees a (committed {db} {t} r db' before can p) =
      subst (λ (o : Result (Unit {0}) × Cndb). Agrees o.1 t) p
        (commit-Agrees db (Session-Agrees a before) can)

  get-Agrees :
      (db : Cndb) {t : Contents d.Value} → Agrees db t → (id : DocId) → get c d db id ≡ look_up t id
  unfolding get
  get-Agrees db {t} a id =
      ap (λ r. Result.◌>>=◌ r (from_bson_bytes d)) (k.reads a.good id)
      ∙ look_up-Shows d a.store t id a.shows

  -- Over any engine that meets the contract, with lawful BSON crates, from a handle whose engine
  -- is good for a store that shows some contents: after any sequence of `insert`, `delete` and
  -- `commit`, each of which may fail, in which the inserted documents are ones that BSON can
  -- express, and ids and generations have not run out and the log has room at every step, `get`
  -- answers for each id as the contents do that the calls that succeeded have made, and, with
  -- room for one more, an `insert` that succeeds returns their next id.
  pub Session-get :
      {start : Cndb} {first : Contents d.Value} {db : Cndb} {t : Contents d.Value}
      → Agrees start first
      → Session c d Storable start first db t
      → ((id : DocId) → get c d db id ≡ look_up t id)
        × ((doc : d.Value) (id : DocId) (db' : Cndb)
            → CanGoOn db.store
            → insert c d doc db ≡ (ok id, db')
            → id ≡ t.next)
  Session-get {db} {t} a session = (
    get-Agrees db (Session-Agrees a session),
    λ doc id db' can p. elim (insert_cases doc db (Session-Agrees a session) can) [
      | inl (q, g) ↦ ground arith
      | inr (x, q, g) ↦ absurd (ground arith)
    ],
  )
