-- ===== src/Api/Prefixes.antt =====
-- A handle of src/api.rs on a database file that was cut off at any byte.
use cndb.Prelude.{
  ◌<◌, ◌^◌, ◌≡◌, refl, ap, sym, ◌∙◌, subst, inl, inr, true, false, Bool-cases, List, [], String,
  Option, some, none, is_some, ℕ, ltb, ltb→lt, ltb_false→le, arith,
}
use cndb.Result
use cndb.Result.{ok, err, StdResult-cases}
use cndb.Error.{DocId, Result}
use cndb.Record.{Record}
use cndb.Header.{Header, initial}
use cndb.Collections.{contains}
use cndb.Crates.{Crates, IsLawful}
use cndb.Index.{is_live}
use cndb.Index.Lookup.{live_agree}
use cndb.Store
use cndb.Store.{Store}
use cndb.Log
use cndb.Engine
use cndb.Engine.{StorageEngine}
use cndb.Engine.Open.{open_db}
use cndb.Engine.Layout.{contains_key-Holds}
use cndb.Engine.Invariant.{Inv}
use cndb.Engine.Opening.{open_db-new}
use cndb.Engine.Truncating.{cut, open_db-cut, cut-loaded}
use cndb.Engine.Runs.{ok-injective}
use cndb.Engine.Verifying.{verify-Inv}
use cndb.Document.{DocCrates}
use cndb.Api.{Cndb, open_handle, get, ids, verify}
use cndb.Api.Handles.{get-Store, load-open_db}
use cndb.Api.Contents.{Contents, got, Shows, ShowsDoc}

-- The ids that `live_ids` lists are those of the documents of the store.
live_ids-Inv :
    (c : Crates) (e : StorageEngine) {old now : Store} {attempts : List (Header × Store)}
    → Inv c e old now attempts
    → (id : DocId) → contains (Engine.live_ids e) id ≡ true
    → (is_some (now.docs id) ≡ true) × (now.dead id ≡ false)
unfolding Engine.live_ids
live_ids-Inv c e {now} v id h =
    let live : is_live e.index id ≡ true = sym ((live_agree e.index id).1) ∙ h in
    unfold is_live in ground (arith, contains_key-Holds v.holds id, v.holds.dead id)

-- The handle that opening returns is one on the engine that `open_db` returns.
opened-store :
    (r : Result StorageEngine) (db : Cndb)
    → Result.◌>>=◌ r (λ store. ok (record { store = store })) ≡ ok db
    → r ≡ ok db.store
opened-store (ok e) db h = ap (λ (db : Cndb). ok db.store) (ok-injective _ refl h)
opened-store (err x) db h = absurd (ground arith)

module _ (c : Crates) (d : DocCrates) where
  -- The handle is fit for use: `verify` finds no fault, and every listed document is one of the
  -- contents and can be read.
  pub record Intact (db : Cndb) (t : Contents d.Value) : Type 0 where
    pub verified : (n : ℕ) × (verify c db ≡ some (ok n))
    pub readable :
        (id : DocId)
        → contains (ids db) id ≡ true
        → (value : d.Value) × (get c d db id ≡ ok value) × (t.docs id ≡ some value)

  readable-Shows :
      (id : DocId) (r : Option Record) (value : Option d.Value)
      → ShowsDoc d r value
      → is_some r ≡ true
      → (v : d.Value) × (got d (Store.found id r) ≡ ok v) × (value ≡ some v)
  readable-Shows id none value h p = absurd (ground arith)
  readable-Shows id (some r) none h p = absurd h
  readable-Shows id (some r) (some v) h p = (v, h, refl)

  module _ (lawful : IsLawful c) where
    Inv-Intact :
        (db : Cndb) {old now : Store} {attempts : List (Header × Store)} (t : Contents d.Value)
        → Inv c db.store old now attempts
        → Shows d now t
        → (n : ℕ) × (verify c db ≡ some (ok n))
        → Intact db t
    unfolding ids
    Inv-Intact db {now} t v shows verified = record {
      verified = verified;
      readable = λ id h.
          let (some_doc, alive) = live_ids-Inv c db.store v id h in
          let (value, p, q) =
            readable-Shows id (now.docs id) (t.docs id) (shows.docs id) some_doc in
          (value, get-Store c lawful d db v id ∙ rw alive p, q);
    }

    -- A file that is not cut off before the committed end opens on the committed documents.
    Whole-Intact :
        (db' : Cndb) {s : Store} (t : Contents d.Value) (e : StorageEngine)
        → Inv c e s s []
        → e.file.len < 2 ^ 64
        → Shows d s t
        → e ≡ db'.store
        → Intact db' t
    Whole-Intact db' {s} t e v word shows same =
        subst (λ (e : StorageEngine). Intact (record { store = e }) t) same
          (Inv-Intact (record { store = e }) t v shows
            (unfold verify in (_, verify-Inv c lawful e v word)))

    -- A new file opens on no documents.
    new-Intact :
        (db' : Cndb) (t : Contents d.Value) (e : StorageEngine)
        → Inv c e Store.empty Store.empty []
        → e.header ≡ initial
        → e ≡ db'.store
        → Intact db' t
    unfolding Log.scan_loop
    new-Intact db' t e v header same =
        subst (λ (e : StorageEngine). Intact (record { store = e }) t) same
          (record {
            verified = (0, unfold verify Engine.verify in rw header refl);
            readable = λ id h. unfold ids in absurd (ground (arith, live_ids-Inv c e v id h));
          })

  -- Take a handle whose engine is in a valid state in which no commit has failed since the last
  -- one that succeeded, and contents that the committed store shows, with lawful crates. Whenever
  -- opening its file with the length set to any number below 2^64, 0 included, returns a handle,
  -- then `verify` of that handle finds no fault, and for every id that `ids` lists `get` returns
  -- a document, the one that the contents have.
  pub open_handle-cut :
      IsLawful c
      → (db : Cndb) {old now : Store} (v : Inv c db.store old now []) (t : Contents d.Value)
      → Shows d old t
      → (n : ℕ) (path : String) (db' : Cndb) → n < 2 ^ 64
      → (open_handle c (cut n db.store.file) path).0 ≡ ok db'
      → Intact db' t
  open_handle-cut lawful db {old} v t shows n path db' word h =
      let opened =
        opened-store (open_db c (cut n db.store.file) path).0 db' (unfold open_handle in h) in
      elim (Bool-cases (ltb 0 n)) [
        | inr nothing ↦
            elim (open_db-new c lawful (cut n db.store.file) path
              (omega (arith, ltb_false→le 0 n nothing))) [
                | inl (e, p, w, header) ↦
                    new-Intact lawful db' t e w header (ok-injective _ (ap (λ o. o.0) p) opened)
                | inr (x, p) ↦ absurd (ground arith)
              ]
        | inl something ↦
            let (slots, short, whole) =
              open_db-cut c db.store v lawful n path (ltb→lt 0 n something) in
            elim (Bool-cases (ltb n db.store.header.log_end)) [
              | inl lt ↦
                  absurd (ground (arith, slots, short, ltb→lt n db.store.header.log_end lt, opened))
              | inr ge ↦
                  let (e, p, w, len) =
                    cut-loaded c db.store v lawful n path
                      (ltb_false→le n db.store.header.log_end ge) in
                  Whole-Intact lawful db' t e w (omega (arith, len)) shows (
                    ok-injective _ (ap (λ o. o.0) (load-open_db c (cut n db.store.file) path e p))
                      opened)
            ]
      ]
