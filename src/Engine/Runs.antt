-- ===== src/Engine/Runs.antt =====
-- Sequences of operations on the engine of src/storage/engine.rs, with the outcomes that the
-- operating system chooses.
use cndb.Prelude.{
  ◌+◌, ◌<◌, ◌^◌, ◌≡◌, ap, sym, ◌∙◌, subst, inl, inr, true, String, List, [], ◌∷◌, Bytes, length,
  arith,
}
use cndb.Result.{ok, err, StdResult-cases}
use cndb.Error.{CndbError, DocId, RecordKind, Result}
use cndb.Header.{Header}
use cndb.Crates.{Crates, IsLawful}
use cndb.File.{File}
use cndb.File.Writes.{Synced}
use cndb.File.Crash.{Survives}
use cndb.Store
use cndb.Store.{Store}
use cndb.Engine.{StorageEngine, append, read_record, tombstone}
use cndb.Engine.Commit.{commit, prepare, write_header}
use cndb.Engine.Appending.{HasRoom}
use cndb.Engine.Invariant.{Inv}
use cndb.Engine.Reading.{read_record-Store}
use cndb.Engine.Operations.{Does, append-Does, tombstone-Does, tombstone-refused}
use cndb.Engine.Committing.{commit-Commits, prepare_cases}
use cndb.Engine.Turning.{write_header_cases}
use cndb.Engine.Recovery.{RecoversOne}
use cndb.Engine.Crashing.{IsTorn, crash-Recovers}

-- Ids and generations have not run out, and the log has room for one more record.
pub record CanGoOn (e : StorageEngine) : Type 0 where
  pub room : HasRoom e
  pub ids : e.index.next_doc_id + 1 < 2 ^ 64
  pub generations : e.header.generation + 1 < 2 ^ 64

-- From `start`, which holds and has committed the store `s`, operations lead to an engine. The
-- indices say what must then be committed, what clients must see, and for which stores a header was
-- given out to be written by a commit that failed since the last one that succeeded.
pub data Run (c : Crates) (start : StorageEngine) (s : Store)
    : StorageEngine → Store → Store → List (Header × Store) → Type 0 where
  here : Run c start s start s s []
  appended :
      {e : StorageEngine} {old now : Store} {attempts : List (Header × Store)} (kind : RecordKind)
      (payload : Bytes) (id : DocId) (e' : StorageEngine)
      → Run c start s e old now attempts
      → CanGoOn e
      → length payload < 2 ^ 64
      → append c kind payload e ≡ (ok id, e')
      → Run c start s e' old (Store.append (record { kind = kind; payload = payload }) now) attempts
  append_failed :
      {e : StorageEngine} {old now : Store} {attempts : List (Header × Store)} (kind : RecordKind)
      (payload : Bytes) (x : CndbError) (e' : StorageEngine)
      → Run c start s e old now attempts
      → CanGoOn e
      → length payload < 2 ^ 64
      → append c kind payload e ≡ (err x, e')
      → Run c start s e' old now attempts
  deleted :
      {e : StorageEngine} {old now : Store} {attempts : List (Header × Store)} (id : DocId)
      (e' : StorageEngine)
      → Run c start s e old now attempts
      → CanGoOn e
      → tombstone c id e ≡ (ok tt, e')
      → Run c start s e' old (Store.delete id now) attempts
  delete_failed :
      {e : StorageEngine} {old now : Store} {attempts : List (Header × Store)} (id : DocId)
      (x : CndbError) (e' : StorageEngine)
      → Run c start s e old now attempts
      → CanGoOn e
      → tombstone c id e ≡ (err x, e')
      → Run c start s e' old now attempts
  committed :
      {e : StorageEngine} {old now : Store} {attempts : List (Header × Store)} (e' : StorageEngine)
      → Run c start s e old now attempts
      → CanGoOn e
      → commit c e ≡ (ok tt, e')
      → Run c start s e' now now []
  -- a commit that fails before it writes its header
  commit_failed :
      {e : StorageEngine} {old now : Store} {attempts : List (Header × Store)} (x : CndbError)
      (e' : StorageEngine)
      → Run c start s e old now attempts
      → CanGoOn e
      → e.dirty ≡ true
      → prepare c e ≡ (err x, e')
      → Run c start s e' old now attempts
  -- a commit that fails while it writes its header
  header_failed :
      {e : StorageEngine} {old now : Store} {attempts : List (Header × Store)} (next : Header)
      (x : CndbError) (ready e' : StorageEngine)
      → Run c start s e old now attempts
      → CanGoOn e
      → e.dirty ≡ true
      → prepare c e ≡ (ok next, ready)
      → write_header c next ready ≡ (err x, e')
      → Run c start s e' old now ((next, now) ∷ attempts)

pub ok-injective : {A : Type 0} {a b : A} → (r : Result A) → r ≡ ok a → r ≡ ok b → a ≡ b
ok-injective r p q = cc

module _ (c : Crates) where
  Does-ok :
      {A : Type 0} (a b : A) {old now next : Store} {attempts : List (Header × Store)}
      (out : Result A × StorageEngine) {e' : StorageEngine}
      → Does c a old now next attempts out
      → out ≡ (ok b, e')
      → Inv c e' old next attempts
  Does-ok a b {old} {next} {attempts} out (inl (p, v)) h =
      subst (λ (o : Result _ × StorageEngine). Inv c o.1 old next attempts) h v
  Does-ok a b out (inr (x, p, v)) h = absurd (ground arith)

  Does-err :
      {A : Type 0} (a : A) (x : CndbError) {old now next : Store} {attempts : List (Header × Store)}
      (out : Result A × StorageEngine) {e' : StorageEngine}
      → Does c a old now next attempts out
      → out ≡ (err x, e')
      → Inv c e' old now attempts
  Does-err a x out (inl (p, v)) h = absurd (ground arith)
  Does-err a x {old} {now} {attempts} out (inr (y, p, v)) h =
      subst (λ (o : Result _ × StorageEngine). Inv c o.1 old now attempts) h v

module _ (c : Crates) (lawful : IsLawful c) (start : StorageEngine) (s : Store)
    (v : Inv c start s s []) where
  header_failed_Inv :
      {old now : Store} {attempts : List (Header × Store)} (next next' : Header) (x : CndbError)
      (ready e1 e' : StorageEngine)
      → next' ≡ next
      → e1 ≡ ready
      → write_header c next ready ≡ (err x, e')
      → Inv c e1 old now ((next', now) ∷ attempts)
      → Inv c e' old now ((next, now) ∷ attempts)
  header_failed_Inv {old} {now} {attempts} next next' x ready e1 e' same_header same_engine p w =
      elim (write_header_cases c lawful ready next (
        subst (λ h. Inv c ready old now ((h, now) ∷ attempts)) same_header
          (subst (λ e. Inv c e old now ((next', now) ∷ attempts)) same_engine w))) [
            | inl (g, q, t) ↦ absurd (ground arith)
            | inr (y, g, q, t) ↦
                subst (λ (o : Result _ × StorageEngine). Inv c o.1 old now ((next, now) ∷ attempts))
                  (sym q ∙ p) t
          ]

  -- After any sequence of appends, deletions and commits, each of which may fail at any of its
  -- system calls, that starts from an engine in a valid state whose present store is committed,
  -- with lawful crates, with payloads whose length is a `u64`, and with ids and generations that
  -- have not run out and a log with room at every step, the engine is in a valid state for its
  -- committed and its present store, and for the headers of the commits that failed while they
  -- wrote them.
  pub Run-Inv :
      {e : StorageEngine} {old now : Store} {attempts : List (Header × Store)}
      → Run c start s e old now attempts
      → Inv c e old now attempts
  Run-Inv here = v
  Run-Inv (appended {e} {now} kind payload id e' before can word p) =
      Does-ok c _ id _ (append-Does c e (Run-Inv before) can.room kind payload word can.ids) p
  Run-Inv (append_failed {e} kind payload x e' before can word p) =
      Does-err c _ x _ (append-Does c e (Run-Inv before) can.room kind payload word can.ids) p
  Run-Inv (deleted {e} {now} id e' before can p) = elim (StdResult-cases (Store.read now id)) [
    | inl (r, q) ↦ Does-ok c tt tt _ (tombstone-Does c e (Run-Inv before) can.room id r q) p
    | inr (x, q) ↦ absurd (ground (arith, tombstone-refused c e (Run-Inv before) can.room id x q))
  ]
  Run-Inv (delete_failed {e} {old} {now} {attempts} id x e' before can p) =
      elim (StdResult-cases (Store.read now id)) [
        | inl (r, q) ↦ Does-err c tt x _ (tombstone-Does c e (Run-Inv before) can.room id r q) p
        | inr (y, q) ↦
            subst (λ (o : Result _ × StorageEngine). Inv c o.1 old now attempts)
              (sym (tombstone-refused c e (Run-Inv before) can.room id y q) ∙ p) (Run-Inv before)
      ]
  Run-Inv (committed {e} {now} e' before can p) =
      elim (commit-Commits c lawful e (Run-Inv before) can.room can.generations) [
        | inl (q, w, later) ↦ subst (λ (o : Result _ × StorageEngine). Inv c o.1 now now []) p w
        | inr (x, tried, q, w, other) ↦ absurd (ground arith)
      ]
  Run-Inv (commit_failed {e} {old} {now} {attempts} x e' before can changed p) =
      elim (prepare_cases c lawful e (Run-Inv before) can.room can.generations) [
        | inl (next, e1, q, w, later) ↦ absurd (ground arith)
        | inr (y, e1, q, w) ↦
            subst (λ (o : Result _ × StorageEngine). Inv c o.1 old now attempts) (sym q ∙ p) w
      ]
  Run-Inv (header_failed {e} {old} {now} {attempts} next x ready e' before can changed p q) =
      elim (prepare_cases c lawful e (Run-Inv before) can.room can.generations) [
        | inr (y, e1, r, w) ↦ absurd (ground arith)
        | inl (next', e1, r, w, later) ↦
            header_failed_Inv next next' x ready e1 e'
              (ok-injective (prepare c e).0 (ap (λ (o : Result Header × StorageEngine). o.0) r)
                (ap (λ (o : Result Header × StorageEngine). o.0) p))
              (ap (λ (o : Result Header × StorageEngine). o.1) (sym r ∙ p)) q w
      ]

  -- After any sequence of appends, deletions and commits, each of which may fail at any of its
  -- system calls, that starts from an engine in a valid state whose present store is committed,
  -- with lawful crates, with payloads whose length is a `u64`, and with ids and generations that
  -- have not run out and a log with room at every step, `read_record` answers for each id as the
  -- store does that results from the appends and the deletions that succeeded: the record, or
  -- that the document was deleted, or that there is none.
  pub Run-read :
      {e : StorageEngine} {old now : Store} {attempts : List (Header × Store)}
      → Run c start s e old now attempts
      → (id : DocId) → read_record c e id ≡ Store.read now id
  Run-read {e} run id = read_record-Store c lawful e (Run-Inv run) id

  -- After any sequence of appends, deletions and commits, each of which may fail at any of its
  -- system calls, that starts from an engine in a valid state whose present store is committed,
  -- with lawful crates, with payloads whose length is a `u64`, and with ids and generations that
  -- have not run out and a log with room at every step, the file that a crash leaves can be
  -- loaded: on the header and the store of the last successful commit, or on those of a commit
  -- that failed since while it wrote its header. A crash may lose or tear every write that was
  -- not synced; a torn header slot is taken to be invalid, to hold its old header, or to hold the
  -- header of such a failed commit.
  pub Run-crash :
      {e : StorageEngine} {old now : Store} {attempts : List (Header × Store)} (img : File)
      (path : String)
      → Run c start s e old now attempts
      → Survives e.file img
      → Synced img img
      → IsTorn c e attempts img
      → RecoversOne c img path ((e.header, old) ∷ attempts)
  Run-crash {e} img path run crash durable torn =
      crash-Recovers c lawful e (Run-Inv run) img crash path durable torn
