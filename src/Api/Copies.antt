-- ===== src/Api/Copies.antt =====
-- A handle of src/api.rs on a copy of a database file.
use cndb.Prelude.{◌≡◌, false, refl, sym, ◌∙◌, subst, List, String}
use cndb.Result.{ok}
use cndb.Error.{DocId}
use cndb.Header.{Header}
use cndb.Crates.{Crates, IsLawful}
use cndb.Store.{Store}
use cndb.File.{File}
use cndb.Engine.Invariant.{Inv}
use cndb.Engine.Copying.{Copies, Copies-Recovers}
use cndb.Document.{DocCrates}
use cndb.Api.{Cndb, open_handle, get}
use cndb.Api.Handles.{get-Store, load-open_db}

module _ (c : Crates) (lawful : IsLawful c) (d : DocCrates) (db : Cndb) {old now : Store}
    {attempts : List (Header × Store)} (v : Inv c db.store old now attempts) where
  -- In a valid state with nothing to commit, with lawful crates, take any file whose writes are
  -- all synced and that begins with the bytes of the handle's file up to the committed end of the
  -- log, whatever lies behind that. Opening it succeeds and leaves it as it is, and `get` answers
  -- for each id as it does on the handle.
  pub open_handle_copy :
      db.store.dirty ≡ false
      → (g : File) (path : String) → Copies db.store g
      → (db2 : Cndb) × (open_handle c g path ≡ (ok db2, g))
        × ((k : DocId) → get c d db2 k ≡ get c d db k)
  unfolding open_handle
  open_handle_copy clean g path copy =
      let (store, none_left) = v.clean clean in
      let w = subst (λ a. Inv c db.store old now a) none_left v in
      let (e, opened, w2, same) = Copies-Recovers c db.store w g copy lawful path in
      (
        record { store = e },
        rw (load-open_db c g path e opened) refl,
        λ k.
            get-Store c lawful d (record { store = e }) w2 k
            ∙ rw store (sym (get-Store c lawful d db v k)),
      )
