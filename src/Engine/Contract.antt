-- ===== src/Engine/Contract.antt =====
-- What src/api.rs relies on of the storage engine: a state that holds a store, and what `read`,
-- `append`, `tombstone` and `commit` do to it. `contract` is the engine's.
use cndb.Prelude.{◌<◌, ◌^◌, ◌≡◌, false, ◌⊎◌, inl, inr, List, [], Bytes, length}
use cndb.Result
use cndb.Result.{ok, err, StdResult-cases}
use cndb.Error.{CndbError, DocId, RecordKind}
use cndb.Header.{Header}
use cndb.Crates.{Crates, IsLawful}
use cndb.Store
use cndb.Store.{Store}
use cndb.Engine.{StorageEngine, read, append, tombstone}
use cndb.Engine.Commit.{commit}
use cndb.Engine.Invariant.{Inv}
use cndb.Engine.Reading.{read-Store, next-alive}
use cndb.Engine.Operations.{append-Does, tombstone-Does, tombstone-refused}
use cndb.Engine.Committing.{commit-Commits}
use cndb.Engine.Runs.{CanGoOn}

pub record Contract (c : Crates) : Type 1 where
  -- The state is valid and clients see the store.
  pub Good : StorageEngine → Store → Type 0
  pub alive : {e : StorageEngine} {s : Store} → Good e s → s.dead s.next ≡ false
  pub reads :
      {e : StorageEngine} {s : Store}
      → Good e s
      → (id : DocId) → read c e id ≡ Result.◌>>=◌ (Store.read s id) (λ r. ok r.payload)
  pub appends :
      {e : StorageEngine} {s : Store}
      → Good e s
      → CanGoOn e
      → (kind : RecordKind) (payload : Bytes) → length payload < 2 ^ 64
      → (((append c kind payload e).0 ≡ ok s.next)
          × Good
              (append c kind payload e).1
              (Store.append (record { kind = kind; payload = payload }) s))
        ⊎ ((x : CndbError) × ((append c kind payload e).0 ≡ err x)
            × Good (append c kind payload e).1 s)
  pub deletes :
      {e : StorageEngine} {s : Store}
      → Good e s
      → CanGoOn e
      → (id : DocId)
      → (((tombstone c id e).0 ≡ ok tt) × Good (tombstone c id e).1 (Store.delete id s))
        ⊎ ((x : CndbError) × ((tombstone c id e).0 ≡ err x) × Good (tombstone c id e).1 s)
  pub commits : {e : StorageEngine} {s : Store} → Good e s → CanGoOn e → Good (commit c e).1 s

-- For some committed store and some failed commits.
abbrev Valid : Crates → StorageEngine → Store → Type 0
Valid c e s = (old : Store) × (attempts : List (Header × Store)) × Inv c e old s attempts

module _ (c : Crates) (lawful : IsLawful c) where
  append-Valid :
      {e : StorageEngine} {s : Store}
      → Valid c e s
      → CanGoOn e
      → (kind : RecordKind) (payload : Bytes) → length payload < 2 ^ 64
      → (((append c kind payload e).0 ≡ ok s.next)
          × Valid c
              (append c kind payload e).1
              (Store.append (record { kind = kind; payload = payload }) s))
        ⊎ ((x : CndbError) × ((append c kind payload e).0 ≡ err x)
            × Valid c (append c kind payload e).1 s)
  append-Valid {e} (old, attempts, v) can kind payload word =
      elim (append-Does c e v can.room kind payload word can.ids) [
        | inl (p, w) ↦ inl (p, (old, attempts, w))
        | inr (x, p, w) ↦ inr (x, p, (old, attempts, w))
      ]

  tombstone-Valid :
      {e : StorageEngine} {s : Store}
      → Valid c e s
      → CanGoOn e
      → (id : DocId)
      → (((tombstone c id e).0 ≡ ok tt) × Valid c (tombstone c id e).1 (Store.delete id s))
        ⊎ ((x : CndbError) × ((tombstone c id e).0 ≡ err x) × Valid c (tombstone c id e).1 s)
  tombstone-Valid {e} {s} (old, attempts, v) can id = elim (StdResult-cases (Store.read s id)) [
    | inr (x, q) ↦
        let p = tombstone-refused c e v can.room id x q in inr (x, rw p, rw p (old, attempts, v))
    | inl (r, q) ↦ elim (tombstone-Does c e v can.room id r q) [
      | inl (p, w) ↦ inl (p, (old, attempts, w))
      | inr (x, p, w) ↦ inr (x, p, (old, attempts, w))
    ]
  ]

  commit-Valid :
      {e : StorageEngine} {s : Store} → Valid c e s → CanGoOn e → Valid c (commit c e).1 s
  commit-Valid {e} {s} (old, attempts, v) can =
      elim (commit-Commits c lawful e v can.room can.generations) [
        | inl (p, w, later) ↦ (s, [], w)
        | inr (x, tried, p, w, other) ↦ (old, tried, w)
      ]

  pub contract : Contract c
  contract = record {
    Good = Valid c;
    alive = λ {e} {s} (old, attempts, v). next-alive c e v;
    reads = λ {e} {s} (old, attempts, v) id. read-Store c lawful e v id;
    appends = append-Valid;
    deletes = tombstone-Valid;
    commits = commit-Valid;
  }

  -- A valid engine is good for its present store.
  pub contract-Good :
      (e : StorageEngine) {old s : Store} {attempts : List (Header × Store)}
      → Inv c e old s attempts
      → contract.Good e s
  unfolding contract
  contract-Good e {old} {attempts} v = (old, attempts, v)
