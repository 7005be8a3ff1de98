-- ===== src/Engine/Reading.antt =====
-- `read_record` and `read` of src/storage/engine.rs against the store.
use cndb.Prelude.{
  ℕ, ◌≡◌, refl, ap, Option, none, some, List, if◌then◌else◌, Bool-cases, false, inl, inr, ◌∙◌,
  arith,
}
use cndb.Result
use cndb.Result.{ok, err}
use cndb.Error.{DocId, Result, not_found, deleted}
use cndb.Record.{Record}
use cndb.Header.{Header}
use cndb.Collections.{get}
use cndb.Crates.{Crates, IsLawful}
use cndb.Log.{read_record_at}
use cndb.Log.Records.{read_record_at_lem}
use cndb.Store
use cndb.Store.{Store}
use cndb.Engine.{StorageEngine, read_record, read}
use cndb.Engine.Layout.{DocAt}
use cndb.Engine.Invariant.{Inv}

module _ (c : Crates) (lawful : IsLawful c) (e : StorageEngine) {old now : Store}
    {attempts : List (Header × Store)} (v : Inv c e old now attempts) where
  read_DocAt :
      (id : DocId) (o : Option ℕ) (r : Option Record)
      → DocAt c.hash e.file.byte e.end o r
      → (elim o as (λ x. Result Record) [
        | none ↦ err (not_found id)
        | some offset ↦ read_record_at c.hash e.file offset
      ])
        ≡ Store.found id r
  read_DocAt id none none h = refl
  read_DocAt id none (some r) h = absurd h
  read_DocAt id (some offset) none h = absurd h
  read_DocAt id (some offset) (some r) h =
      read_record_at_lem c.hash lawful.hash-lt e.file h v.inside v.small

  pub read_record-Store : (id : DocId) → read_record c e id ≡ Store.read now id
  unfolding read_record
  read_record-Store id = rw (v.holds.dead id) (
      ap (λ (x : Result Record). if now.dead id then err (deleted id) else x)
        (read_DocAt id (get e.index.offsets id) (now.docs id) (v.holds.docs id)))

  pub read-Store : (id : DocId) → read c e id ≡ Result.◌>>=◌ (Store.read now id) (λ r. ok r.payload)
  unfolding read
  read-Store id = rw (read_record-Store id)

-- The next id is not deleted.
pub next-alive :
    (c : Crates) (e : StorageEngine) {old now : Store} {attempts : List (Header × Store)}
    → Inv c e old now attempts
    → now.dead now.next ≡ false
next-alive c e {now} v = elim (Bool-cases (now.dead now.next)) [
  | inr alive ↦ alive
  | inl gone ↦
      let known = v.valid.dead_known now.next (v.holds.dead now.next ∙ gone) in
      absurd (omega (arith, v.valid.below_next now.next known, v.holds.next))
]
