-- ===== src/Engine/Sound/Calls.antt =====
-- Opening any file, and any sequence of calls on the engine of src/storage/engine.rs behind that.
use cndb.Prelude.{
  ◌+◌, ◌≤◌, ◌<◌, ◌^◌, ◌≡◌, refl, ap, Bool-cases, inl, inr, none, some, ltb, ltb_false→le, arith,
  String, Bytes, ℕ,
}
use cndb.Result.{ok, map_err}
use cndb.Error.{CndbError, DocId, RecordKind, io}
use cndb.Exec.{Exec, modify, ◌>>◌}
use cndb.Exec.Values.{
  OkHas, OkHas-ok, OkHas-err, OkHas-intro, OkHas-elim, OkHas-bind, OkHas-map_err, OkHas-branch,
}
use cndb.Exec.Meets.{Meets, Meets-ok}
use cndb.Header.{Header, Slots, log_start, select_live}
use cndb.File.{File, read_exact_at, write_all_at, sync}
use cndb.File.Writes.{write_all_at-len}
use cndb.Crates.{Crates}
use cndb.Engine.{StorageEngine, on_file, append, tombstone}
use cndb.Engine.Commit.{commit}
use cndb.Engine.Open.{open_db, load, load_from, load_index, decode_slot, decoded, initialize, fresh}
use cndb.Engine.Opening.{region, length-region}
use cndb.Engine.Sound.{IsSound, call-then, append-IsSound, tombstone-IsSound}
use cndb.Engine.Sound.Commits.{commit-IsSound, sync-grows}

-- The engines that opening a file and calls lead to, whatever the calls answer. A crash, or a process
-- that ends, is an `opened` on what it leaves.
pub data Calls (c : Crates) : StorageEngine → Type 0 where
  opened :
      (f g : File) (path : String) (e : StorageEngine) → open_db c f path ≡ (ok e, g) → Calls c e
  appended :
      {e : StorageEngine} (kind : RecordKind) (payload : Bytes)
      → Calls c e
      → Calls c (append c kind payload e).1
  deleted : {e : StorageEngine} (id : DocId) → Calls c e → Calls c (tombstone c id e).1
  committed :
      {e : StorageEngine} → Calls c e → e.header.generation + 1 < 2 ^ 64 → Calls c (commit c e).1

module _ (c : Crates) where
  load_from-IsSound :
      (f : File) (path : String) (slots : Slots) (found : Header × ℕ)
      → log_start ≤ f.len
      → select_live slots ≡ ok found
      → OkHas IsSound (load_from c f path slots found)
  unfolding load_from
  load_from-IsSound f path slots (header, live_slot) fits live =
      OkHas-branch IsSound (ltb f.len header.log_end) _ _ (λ _. OkHas-err IsSound _)
        (λ inside.
          let le = ltb_false→le f.len header.log_end inside in
          OkHas-bind (λ _. Unit) IsSound (load_index c f header) _ (OkHas-intro _ _ (λ _ _. tt))
            (λ index _.
              OkHas-ok CndbError IsSound _
                (record { live = live; region = fits; committed = le; pending = le })))

  load-IsSound : (f : File) (path : String) → OkHas IsSound (load c f path)
  unfolding load
  load-IsSound f path =
      OkHas-branch IsSound (ltb f.len log_start) _ _ (λ _. OkHas-err IsSound _)
        (λ long.
          let fits = ltb_false→le f.len log_start long in
          OkHas-bind (λ _. Unit) IsSound (map_err io (read_exact_at f log_start 0)) _
            (OkHas-intro _ _ (λ _ _. tt))
            (λ bytes _.
              let slots : Slots =
                (decoded (decode_slot c bytes 0), decoded (decode_slot c bytes 1)) in
              OkHas-bind (λ found. select_live slots ≡ ok found) IsSound _
                (load_from c f path slots)
                (OkHas-map_err _ _ (select_live slots) (OkHas-intro _ _ (λ found p. p)))
                (λ found p. load_from-IsSound f path slots found fits p)))

  initialize-Meets :
      (f : File) (path : String)
      → Meets (λ _. Unit) (λ _ e. IsSound e) (initialize c (fresh f path))
  unfolding initialize select_live
  initialize-Meets f path =
      let started : Exec StorageEngine Unit =
        modify (λ e. record e { slots = (some e.header, none); live_slot = 0 }) in
      let g = (write_all_at (region c) 0 f).1 in
      call-then (λ _. Unit) _ (write_all_at (region c) 0) (λ _. on_file sync >> started)
        (fresh f path) tt
        (λ _ p.
          call-then (λ _. Unit) _ sync (λ _. started) (fresh g path) tt
            (λ _ q.
              let n = length-region c in
              let fits : log_start ≤ (sync g).1.len =
                omega
                  (arith, n, sync-grows g, write_all_at-len (region c) 0 f p (omega (arith, n))) in
              Meets-ok _ _ tt _ tt
                (record { live = refl; region = fits; committed = fits; pending = fits })))

  open_db-IsSound : (f : File) (path : String) → OkHas IsSound (open_db c f path).0
  unfolding open_db
  open_db-IsSound f path = elim (Bool-cases (ltb 0 f.len)) [
    | inl some_bytes ↦ rw some_bytes (load-IsSound f path)
    | inr no_bytes ↦
        let out = initialize-Meets f path in
        rw no_bytes (
          OkHas-bind (λ _. IsSound (initialize c (fresh f path)).1) IsSound
            (initialize c (fresh f path)).0 (λ (_ : Unit {0}). ok (initialize c (fresh f path)).1)
            out.value (λ _ s. OkHas-ok CndbError IsSound _ s))
  ]

  -- After opening a file that may hold anything, and after any sequence of appends, deletions and
  -- commits, whatever each of them answers, whichever calls of the operating system fail, and
  -- whatever the crates do, where the generation is below 2^64 - 1 at each commit: the live
  -- header and the live slot are the ones that `select_live` chooses among the headers in both
  -- slots, and the two header slots, the committed log and the pending log end inside of the
  -- file. Neither a valid state nor room in the log is assumed.
  pub Calls-IsSound : {e : StorageEngine} → Calls c e → IsSound e
  Calls-IsSound (opened f g path e p) =
      OkHas-elim IsSound (open_db c f path).0 e (open_db-IsSound f path) (ap (λ o. o.0) p)
  Calls-IsSound (appended {e} kind payload before) =
      append-IsSound c kind payload e (Calls-IsSound before)
  Calls-IsSound (deleted {e} id before) = tombstone-IsSound c id e (Calls-IsSound before)
  Calls-IsSound (committed {e} before more) = commit-IsSound c e (Calls-IsSound before) more
