-- ===== src/Suite/Handles.antt =====
-- The tests of src/api.rs, and one of src/document/codec.rs. The values that the `json!` macro makes
-- are parameters.
use cndb.Prelude.{Bool, true, false, ◌&&◌, List, [], ◌∷◌, String, ◌==◌}
use text.Mathlib.Text.{◌==◌ as str_eq}
use cndb.Result.{ok, err}
use cndb.Error.{CndbError, DocId, Result}
use cndb.Crates.{Crates}
use cndb.Document.{DocCrates, to_bson_bytes}
use cndb.Exec.{Exec, pure, gets, ◌>>=◌, ◌>>◌}
use cndb.File.{File}
use cndb.Api.{Cndb, open_handle, insert, get, delete, commit, verify, len, is_empty, ids}
use cndb.Suite.{unwrap, fails, is_deleted}
use cndb.Suite.Engines.{scratch, passes, verified}

abbrev is_not_an_object : CndbError → Bool
is_not_an_object (CndbError.not_an_object _) = true
is_not_an_object _ = false

-- `Err(CndbError::NotAnObject { found })` with `found == expected`
abbrev names_the_type : String → CndbError → Bool
names_the_type expected (CndbError.not_an_object found) = str_eq found expected
names_the_type expected _ = false

-- `v == vec![id]`
abbrev is_only : List DocId → DocId → Bool
is_only (k ∷ []) id = k == id
is_only _ id = false

module _ (c : Crates) where
  abbrev started : Exec Cndb Bool → Result Cndb × File → Bool
  started test (ok db, f) = passes (test db).0
  started test (err x, f) = false

  -- A test, from the handle that it opens first.
  abbrev pub on_scratch : Exec Cndb Bool → Bool
  on_scratch test = started test (open_handle c scratch "api.cndb")

  abbrev reopened : Result Cndb × File → Exec Cndb (Unit {0})
  reopened (ok db', f) db = (ok tt, db')
  reopened (err x, f) db = (err x, db)

  -- The handle is dropped, and its file opened again.
  abbrev pub reopen : Exec Cndb (Unit {0})
  reopen db = reopened (open_handle c db.store.file db.store.path) db

  module _ (d : DocCrates) where
    -- `named_commit v` is `v["name"] == "commit"`.
    abbrev pub documents_roundtrip_across_a_reopen :
        (kept_doc removed_doc : d.Value) → (d.Value → Bool) → Bool
    documents_roundtrip_across_a_reopen kept_doc removed_doc named_commit = on_scratch (do
      kept ← insert c d kept_doc
      removed ← insert c d removed_doc
      delete c removed
      commit c
      reopen
      db ← gets (λ db. db)
      pure (
          len db == 1
          && (unwrap (get c d db kept) named_commit
              && (fails is_deleted (get c d db removed)
                  && (is_only (ids db) kept && verified (verify c db) (λ n. true))))))

    abbrev pub dropping_without_committing_discards_writes : d.Value → Bool
    dropping_without_committing_discards_writes doc =
        on_scratch (do _ ← insert c d doc; reopen; gets is_empty)

    abbrev pub non_objects_are_refused_before_anything_is_written : d.Value → Bool
    non_objects_are_refused_before_anything_is_written array = on_scratch (do
      gets (λ db.
          fails is_not_an_object (insert c d array db).0 && is_empty (insert c d array db).1))

abbrev pub non_objects_are_refused_with_their_type_named :
    (d : DocCrates) (nothing boolean number text array : d.Value) → Bool
non_objects_are_refused_with_their_type_named d nothing boolean number text array =
    fails (names_the_type "null") (to_bson_bytes d nothing)
    && (fails (names_the_type "a boolean") (to_bson_bytes d boolean)
        && (fails (names_the_type "a number") (to_bson_bytes d number)
            && (fails (names_the_type "a string") (to_bson_bytes d text)
                && fails (names_the_type "an array") (to_bson_bytes d array))))
