-- ===== src/Suite/Engines.antt =====
-- What the tests of src/storage/engine.rs share, and those on appending and committing.
pub mod Documents
pub mod Recoveries
use cndb.Prelude.{
  ℕ, zero, suc, ◌+◌, Bool, true, false, ◌&&◌, not, Option, none, some, List, [], ◌∷◌, ◌++◌, String,
  Bytes, length, bytes_eq, ltb, ◌==◌, ◌/◌, ◌%◌, if◌then◌else◌,
}
use cndb.Result.{ok, err}
use cndb.Error.{CndbError, DocId, RecordKind, Result}
use cndb.Collections.{contains}
use cndb.Header.{log_start}
use cndb.File.{File, write_all_at, sync}
use cndb.Crates.{Crates}
use cndb.Exec.{Exec, pure, gets, modify, ◌>>=◌, ◌>>◌}
use cndb.Engine.{StorageEngine, Stats, on_file, append, read, verify, len, is_empty, stats}
use cndb.Engine.Accessors.{generation, live_slot, is_dirty}
use cndb.Engine.Open.{open_db}
use cndb.Engine.Commit.{commit}
use cndb.Suite.{as_bytes, unwrap, fails, is_not_found}

-- The file of a test: it is not there yet, and every call on it succeeds.
abbrev pub scratch : File
scratch = record { len = 0; byte = λ i. 0; synced_len = 0; unsynced = []; schedule = [] }

abbrev pub passes : Result Bool → Bool
passes (ok b) = b
passes (err e) = false

-- `verify().unwrap()` meets the assertion.
abbrev pub verified : Option (Result ℕ) → (ℕ → Bool) → Bool
verified none p = false
verified (some r) p = unwrap r p

-- `verify()` fails in the given way.
abbrev pub verify_fails : (CndbError → Bool) → Option (Result ℕ) → Bool
verify_fails p none = false
verify_fails p (some r) = fails p r

abbrev pub reads : Result Bytes → String → Bool
reads r text = unwrap r (bytes_eq (as_bytes text))

-- `format!("{prefix}{i}")`, of a number below 100.
abbrev pub numbered : String → ℕ → Bytes
numbered prefix i =
    as_bytes prefix
    ++ (if ltb i 10 then (b'0' + i) ∷ [] else (b'0' + i / 10) ∷ (b'0' + i % 10) ∷ [])

abbrev stats_eq : Stats → Stats → Bool
stats_eq a b =
    a.generation == b.generation
    && (a.live_docs == b.live_docs
        && (a.dead_docs == b.dead_docs
            && (a.committed_len == b.committed_len && a.pending_len == b.pending_len)))

-- The ids are as many as those of their set.
abbrev distinct : List DocId → Bool
distinct [] = true
distinct (id ∷ ids) = not (contains ids id) && distinct ids

abbrev nats_eq : List ℕ → List ℕ → Bool
nats_eq = bytes_eq

module _ (c : Crates) where
  abbrev started : Exec StorageEngine Bool → Result StorageEngine × File → Bool
  started test (ok e, f) = passes (test e).0
  started test (err x, f) = false

  -- A test, from the database that it opens first.
  abbrev pub on_scratch : Exec StorageEngine Bool → Bool
  on_scratch test = started test (open_db c scratch "test.cndb")

  abbrev reopened : Result StorageEngine × File → Exec StorageEngine (Unit {0})
  reopened (ok e', f) e = (ok tt, e')
  reopened (err x, f) e = (err x, record e { file = f })

  -- The engine is dropped, and its file opened again.
  abbrev pub reopen : Exec StorageEngine (Unit {0})
  reopen e = reopened (open_db c e.file e.path) e

  abbrev pub blob : String → Exec StorageEngine DocId
  blob body = append c RecordKind.blob (as_bytes body)

  abbrev pub damage : ℕ → Bytes → Exec StorageEngine (Unit {0})
  damage offset bytes = do on_file (write_all_at bytes offset); on_file sync

  abbrev pub a_new_database_starts_empty_and_valid : Bool
  a_new_database_starts_empty_and_valid = on_scratch (do
    engine ← gets (λ e. e)
    pure (
        generation engine == 0
        && (is_empty engine
            && (not (is_dirty engine)
                && (verified (verify c engine) (λ n. n == 0) && engine.file.len == log_start)))))

  abbrev pub appends_are_readable_before_they_are_committed : Bool
  appends_are_readable_before_they_are_committed = on_scratch (do
    id ← blob "hello"
    engine ← gets (λ e. e)
    pure (is_dirty engine && (reads (read c engine id) "hello" && len engine == 1)))

  abbrev pub data_survives_a_reopen : Bool
  data_survives_a_reopen = on_scratch (do
    id ← blob "durable"
    commit c
    reopen
    engine ← gets (λ e. e)
    pure (generation engine == 1 && (reads (read c engine id) "durable" && len engine == 1)))

  abbrev pub uncommitted_appends_are_lost_on_reopen : Bool
  uncommitted_appends_are_lost_on_reopen = on_scratch (do
    kept ← blob "committed"
    commit c
    dropped ← blob "in flight"
    reopen
    engine ← gets (λ e. e)
    pure (
        reads (read c engine kept) "committed"
        && (fails is_not_found (read c engine dropped) && len engine == 1)))

  abbrev pub an_uncommitted_append_is_overwritten_not_orphaned : Bool
  an_uncommitted_append_is_overwritten_not_orphaned = on_scratch (do
    _ ← blob "committed"
    commit c
    _ ← blob "this text must not survive"
    reopen
    replacement ← blob "second"
    commit c
    engine ← gets (λ e. e)
    pure (reads (read c engine replacement) "second" && verified (verify c engine) (λ n. true)))

  abbrev pub ids_do_not_restart_after_a_reopen : Bool
  ids_do_not_restart_after_a_reopen = on_scratch (do
    first ← blob "a"
    commit c
    reopen
    second ← blob "b"
    engine ← gets (λ e. e)
    pure (ltb first second && reads (read c engine first) "a"))

  -- Rounds `i` to `i + n`, and the live slot after each.
  abbrev alternate : ℕ → ℕ → Exec StorageEngine (Bool × List ℕ)
  alternate zero i = pure (true, [])
  alternate (suc n) i = do
    append c RecordKind.blob (numbered "v" i)
    commit c
    engine ← gets (λ e. e)
    rest ← alternate n (i + 1)
    pure (generation engine == i + 1 && rest.0, live_slot engine ∷ rest.1)

  abbrev pub commits_alternate_header_slots : Bool
  commits_alternate_header_slots = on_scratch (do
    start ← gets (λ e. e)
    seen ← alternate 6 0
    pure (live_slot start == 0 && (seen.0 && nats_eq seen.1 (1 ∷ 0 ∷ 1 ∷ 0 ∷ 1 ∷ 0 ∷ []))))

  abbrev pub committing_nothing_does_nothing : Bool
  committing_nothing_does_nothing = on_scratch (do
    _ ← blob "x"
    commit c
    before ← gets stats
    commit c
    commit c
    after ← gets stats
    pure (stats_eq after before))

  -- `n` documents with the numbers from `i` on, and their ids.
  abbrev append_docs : ℕ → ℕ → Exec StorageEngine (List DocId)
  append_docs zero i = pure []
  append_docs (suc n) i = do
    id ← append c RecordKind.blob (numbered "doc-" i)
    ids ← append_docs n (i + 1)
    pure (id ∷ ids)

  -- Each id reads as the document with its number.
  abbrev pub read_numbered : String → StorageEngine → List DocId → ℕ → Bool
  read_numbered prefix engine [] i = true
  read_numbered prefix engine (id ∷ ids) i =
      unwrap (read c engine id) (bytes_eq (numbered prefix i))
      && read_numbered prefix engine ids (i + 1)

  abbrev pub ids_are_unique_and_documents_do_not_collide : Bool
  ids_are_unique_and_documents_do_not_collide = on_scratch (do
    ids ← append_docs 64 0
    commit c
    engine ← gets (λ e. e)
    pure (distinct ids && read_numbered "doc-" engine ids 0))
