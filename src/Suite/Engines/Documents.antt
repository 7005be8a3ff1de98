-- ===== src/Suite/Engines/Documents.antt =====
-- The tests of src/storage/engine.rs on deletions, kinds and sizes of records, and many commits.
use cndb.Prelude.{
  ℕ, zero, suc, ◌+◌, ◌-◌, ◌*◌, ◌%◌, Bool, true, ◌&&◌, List, [], ◌∷◌, ◌++◌, Bytes, length, bytes_eq,
  get_or, ◌==◌, if◌then◌else◌,
}
use cndb.Result.{ok}
use cndb.Error.{DocId, RecordKind}
use cndb.Crates.{Crates}
use cndb.Exec.{Exec, pure, gets, ◌>>=◌, ◌>>◌}
use cndb.Engine.{StorageEngine, append, read, read_record, tombstone, verify, len, live_ids}
use cndb.Engine.Accessors.{generation}
use cndb.Engine.Commit.{commit}
use cndb.Suite.{as_bytes, unwrap, fails, kind_eq, is_not_found, is_deleted, is_record_too_large}
use cndb.Suite.Engines.{on_scratch, reopen, blob, verified, reads, numbered, read_numbered}

module _ (c : Crates) where
  abbrev pub tombstones_hide_documents_and_survive_a_reopen : Bool
  tombstones_hide_documents_and_survive_a_reopen = on_scratch c (do
    kept ← blob c "keep me"
    gone ← blob c "delete me"
    tombstone c gone
    commit c
    before ← gets (λ e. e)
    reopen c
    engine ← gets (λ e. e)
    pure (
        (len before == 1 && fails is_deleted (read c before gone))
        && (len engine == 1
            && (reads (read c engine kept) "keep me" && fails is_deleted (read c engine gone)))))

  abbrev pub deleting_twice_or_deleting_nothing_is_an_error : Bool
  deleting_twice_or_deleting_nothing_is_an_error = on_scratch c (do
    id ← blob c "x"
    tombstone c id
    engine ← gets (λ e. e)
    pure (
        fails is_deleted (tombstone c id engine).0
        && fails is_not_found (tombstone c 9999 (tombstone c id engine).1).0))

  -- Rounds of one document and a commit, and the ids.
  abbrev rounds : ℕ → ℕ → Exec StorageEngine (List DocId)
  rounds zero i = pure []
  rounds (suc n) i = do
    id ← append c RecordKind.blob (numbered "round-" i)
    commit c
    ids ← rounds n (i + 1)
    pure (id ∷ ids)

  abbrev pub the_master_index_does_not_disturb_the_record_stream : Bool
  the_master_index_does_not_disturb_the_record_stream = on_scratch c (do
    ids ← rounds 5 0
    before ← gets (λ e. e)
    reopen c
    engine ← gets (λ e. e)
    pure (
        verified (verify c before) (λ n. n == 10)
        && (read_numbered c "round-" before ids 0 && (generation engine == 5 && len engine == 5))))

  abbrev pub every_record_kind_roundtrips : Bool
  every_record_kind_roundtrips = on_scratch c (do
    a ← append c RecordKind.node (as_bytes "a node")
    b ← append c RecordKind.edge (as_bytes "an edge")
    empty ← append c RecordKind.blob []
    commit c
    reopen c
    engine ← gets (λ e. e)
    pure (
        unwrap (read_record c engine a) (λ r. kind_eq r.kind RecordKind.node)
        && (unwrap (read_record c engine b) (λ r. kind_eq r.kind RecordKind.edge)
            && reads (read c engine empty) "")))

  -- `(i..i + n).map(|i| (i % 251) as u8).collect()`
  abbrev pattern_bytes : ℕ → ℕ → Bytes
  pattern_bytes i zero = []
  pattern_bytes i (suc n) = i % 251 ∷ pattern_bytes (suc i) n

  abbrev pub large_payload : ℕ → Bool
  large_payload size =
      let big = pattern_bytes 0 size in
      on_scratch c (do
        id ← append c RecordKind.blob big
        commit c
        reopen c
        engine ← gets (λ e. e)
        pure (unwrap (read c engine id) (λ bytes. bytes_eq bytes big)))

  abbrev pub large_payloads_roundtrip : Bool
  large_payloads_roundtrip = large_payload (4 * 1024 * 1024)

  -- `too_big` is `vec![0u8; (MAX_RECORD_LEN + 1) as usize]`.
  abbrev pub oversized_payloads_are_refused : Bytes → Bool
  oversized_payloads_are_refused too_big =
      on_scratch c (do gets (λ e. fails is_record_too_large (append c RecordKind.blob too_big e).0))

  -- `ids[0]`
  abbrev head : List DocId → DocId
  head ids = get_or ids 0 0

  -- `n` rounds from `round` on; the next round, and what follows the last one, opens the file again.
  abbrev reopening : ℕ → ℕ → List DocId → Exec StorageEngine Bool
  reopening zero round ids = pure true
  reopening (suc n) round ids = do
    id ← append c RecordKind.blob (numbered "round-" round)
    (λ e. if round % 4 == 0 then (ok tt, (tombstone c (head (ids ++ id ∷ [])) e).1) else (ok tt, e))
    commit c
    clean ← gets (λ e. verified (verify c e) (λ n. true))
    reopen c
    rest ← reopening n (round + 1) (ids ++ id ∷ [])
    pure (clean && rest)

  abbrev pub many_commits : ℕ → Bool
  many_commits rounds = on_scratch c (do
    clean ← reopening rounds 0 []
    engine ← gets (λ e. e)
    pure (
        clean
        && (generation engine == rounds
            && (len engine == rounds - 1 && length (live_ids engine) == rounds - 1))))

  abbrev pub many_commits_keep_the_database_consistent : Bool
  many_commits_keep_the_database_consistent = many_commits 25
