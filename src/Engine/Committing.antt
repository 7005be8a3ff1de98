-- ===== src/Engine/Committing.antt =====
-- `commit` of src/storage/engine.rs up to its header, and as a whole, on every outcome of its calls.
use cndb.Prelude.{
  ◌+◌, ◌≤◌, ◌<◌, ◌^◌, ◌≡◌, refl, sym, subst, ◌⊎◌, inl, inr, Bool, true, false, List, [], ◌∷◌, Bytes,
  length, arith, if◌then◌else◌, not,
}
use cndb.Prelude.Words.{u64}
use cndb.Result.{ok, err, StdResult-cases}
use cndb.Error.{CndbError, Result, io, master_index, record_too_large, corrupt_index, bincode_error}
use cndb.Record.{max_record_len}
use cndb.Header.{Header, log_start}
use cndb.Index
use cndb.Index.{MasterIndex}
use cndb.Index.Validity.{SameIndex-IsValid}
use cndb.File.{File, sync}
use cndb.File.Writes.{Synced, sync-Synced}
use cndb.Crates.{Crates, IsLawful}
use cndb.Log.Records.{RecordIn, RecordIn-Agree}
use cndb.Log.Laid.{Laid-Agree}
use cndb.Store.{Store}
use cndb.Engine.{StorageEngine, append_raw, on_file}
use cndb.Engine.Commit.{write_master, prepare, commit_dirty, commit}
use cndb.Engine.Appending.{HasRoom, Appended, refused, failed, landed, append_raw-Appended, size}
use cndb.Engine.Layout.{Holds-Agree, Holds-SameIndex, Synced-IsSafe}
use cndb.Engine.Invariant.{Inv, Attempt}
use cndb.Engine.Kept.{Inv-Synced, Inv-unsynced}
use cndb.Engine.Operations.{failed-Inv, landed-Inv}
use cndb.Engine.Turning.{write_header_cases}

module _ (c : Crates) (lawful : IsLawful c) where
  Inv-attempt :
      {e : StorageEngine} {old now : Store} {attempts : List (Header × Store)} {a : Header × Store}
      → Inv c e old now attempts
      → e.dirty ≡ true
      → Attempt c e.file e.header e.end a
      → Inv c e old now (a ∷ attempts)
  Inv-attempt v changed a = record {
    valid = v.valid;
    holds = v.holds;
    inside = v.inside;
    small = v.small;
    records = v.records;
    laid = v.laid;
    live = v.live;
    in_slot = v.in_slot;
    backed = v.backed;
    behind = v.behind;
    slot_safe = v.slot_safe;
    log_safe = v.log_safe;
    attempts_ok = (a, v.attempts_ok);
    settled = λ p. cc;
    clean = λ p. cc;
  }

  module _ (e : StorageEngine) {old now : Store} {attempts : List (Header × Store)}
      (v : Inv c e old now attempts) (room : HasRoom e)
      (generations : e.header.generation + 1 < 2 ^ 64) where
    -- The engine after step 2, and the header that step 3 will write.
    abbrev logged : File → Bytes → StorageEngine
    logged g payload = record e { file = g; end = e.end + size payload; dirty = true }

    abbrev next_header : Bytes → Header
    next_header payload = record {
      generation = u64 (e.header.generation + 1);
      master_ptr = e.end;
      master_len = u64 (length payload);
      log_end = e.end + size payload;
    }

    -- The master record and all that it leads to are durable once the log has been synced.
    logged-Attempt :
        (payload : Bytes) (f g : File)
        → c.serialize e.index ≡ ok payload
        → length payload ≤ max_record_len
        → RecordIn c.hash f.byte
            (e.end + size payload)
            e.end
            (record { kind = master_index; payload = payload })
        → Inv c (logged f payload) old now attempts
        → Synced f g
        → Attempt c g e.header (e.end + size payload) (next_header payload, now)
    logged-Attempt payload f g serialized fits at w s =
        let (idx, read_back, same) =
          lawful.deserialize-serialize e.index payload v.valid.typed serialized in
        let long = lawful.serialize-length e.index payload serialized in
        record {
          backed = record {
            idx = idx;
            u64 = omega (arith, room.room);
            starts = omega (arith, room.starts);
            inside = omega (arith, w.inside, s.len);
            master = inr (
              omega (arith, long),
              payload,
              RecordIn-Agree c.hash (λ i l h. sym (s.same i)) (omega arith) at,
              read_back,
            );
            valid =
                SameIndex-IsValid v.valid same (lawful.deserialize-IsTyped payload idx read_back);
            holds =
                Holds-SameIndex c.hash same
                  (Holds-Agree c.hash (λ i l h. sym (s.same i)) (omega arith) w.holds);
            records = w.records;
            laid =
                Laid-Agree c.hash f.byte g.byte log_start w.records (e.end + size payload)
                  (λ i l h. sym (s.same i)) w.laid;
          };
          safe = Synced-IsSafe s w.inside;
          later = omega (arith, generations);
          behind = omega arith;
        }

    -- Step 2 records an attempt at the present store, or leaves the attempts as they were.
    pub write_master_cases :
        ((g : File) × (payload : Bytes) × (write_master c e
            ≡ (ok (next_header payload), logged g payload))
          × Inv c (logged g payload) old now ((next_header payload, now) ∷ attempts))
        ⊎ ((x : CndbError) × (e' : StorageEngine) × (write_master c e ≡ (err x, e'))
            × Inv c e' old now attempts)
    unfolding write_master on_file Index.encode
    write_master_cases = elim (StdResult-cases (c.serialize e.index)) [
      | inr (x, p) ↦ inr (corrupt_index (bincode_error x), e, rw p, v)
      | inl (payload, p) ↦ go payload p (
          append_raw-Appended c master_index payload e room
            (lawful.serialize-length e.index payload p).1)
    ]
      where
        go :
            (payload : Bytes)
            → c.serialize e.index ≡ ok payload
            → Appended c master_index payload e (append_raw c master_index payload e)
            → ((g : File) × (payload : Bytes) × (write_master c e
                  ≡ (ok (next_header payload), logged g payload))
                × Inv c (logged g payload) old now ((next_header payload, now) ∷ attempts))
              ⊎ ((x : CndbError) × (e' : StorageEngine) × (write_master c e ≡ (err x, e'))
                  × Inv c e' old now attempts)
        go payload p (refused long q) =
            inr (record_too_large e.end (u64 (length payload)) max_record_len, e, rw (p, q), v)
        go payload p (failed x g fits w q) =
            inr (io x, record e { file = g }, rw (p, q), failed-Inv c e v room payload g w)
        go payload p (landed g fits w at inside q) =
            let v' = landed-Inv c e v room master_index payload g w at inside in
            elim (StdResult-cases (sync g).0) [
              | inr (x, r) ↦
                  inr (io x, logged (sync g).1 payload, rw (p, q, r), Inv-unsynced c v' (λ t. cc))
              | inl (u, r) ↦
                  let s = sync-Synced g r in
                  inl (
                    (sync g).1,
                    payload,
                    rw (p, q, r),
                    Inv-attempt (Inv-Synced c (sync g).1 v' s) refl
                        (logged-Attempt payload g (sync g).1 p fits at v' s),
                  )
            ]

-- What a commit may come to. It succeeds: the present store is the committed one, under the next
-- generation if there was something to commit. It fails: the old store is still the committed one,
-- and at most one more header, for the present store, may be found in the other slot.
abbrev pub Commits :
    Crates
    → StorageEngine
    → Store
    → Store
    → List (Header × Store)
    → Result (Unit {0}) × StorageEngine
    → Type 0
Commits c e old now attempts out =
    ((out.0 ≡ ok tt)
      × Inv c out.1 now now []
      × (out.1.header.generation
          ≡ (if e.dirty then e.header.generation + 1 else e.header.generation)))
    ⊎ ((x : CndbError) × (tried : List (Header × Store)) × (out.0 ≡ err x)
        × Inv c out.1 old now tried
        × ((tried ≡ attempts) ⊎ ((h : Header) × (tried ≡ (h, now) ∷ attempts))))

module _ (c : Crates) (lawful : IsLawful c) (e : StorageEngine) {old now : Store}
    {attempts : List (Header × Store)} (v : Inv c e old now attempts) (room : HasRoom e)
    (generations : e.header.generation + 1 < 2 ^ 64) where
  abbrev synced : StorageEngine
  synced = record e { file = (sync e.file).1 }

  -- Up to step 2 a commit records one more attempt, or fails and leaves the attempts as they were.
  pub prepare_cases :
      ((next : Header) × (e' : StorageEngine) × (prepare c e ≡ (ok next, e'))
        × Inv c e' old now ((next, now) ∷ attempts)
        × (next.generation ≡ e.header.generation + 1))
      ⊎ ((x : CndbError) × (e' : StorageEngine) × (prepare c e ≡ (err x, e'))
          × Inv c e' old now attempts)
  unfolding prepare on_file
  prepare_cases = elim (StdResult-cases (sync e.file).0) [
    | inr (x, p) ↦ inr (io x, synced, rw p, Inv-unsynced c v (λ t. cc))
    | inl (u, p) ↦
        let v1 = Inv-Synced c (sync e.file).1 v (sync-Synced e.file p) in
        let room1 : HasRoom synced = record {
          starts = room.starts;
          inside = v1.inside;
          room = room.room;
        } in
        elim (write_master_cases c lawful synced v1 room1 generations) [
          | inr (x, e', q, w) ↦ inr (x, e', rw (p, q), w)
          | inl (g, payload, q, w) ↦ inl (_, _, rw (p, q), w, omega (arith, generations))
        ]
  ]

  commit_dirty-Commits : e.dirty ≡ true → Commits c e old now attempts (commit_dirty c e)
  unfolding commit_dirty
  commit_dirty-Commits changed = elim prepare_cases [
    | inr (x, e', q, w) ↦ inr (x, attempts, rw q, rw q w, inl refl)
    | inl (next, e', q, w, later) ↦ elim (write_header_cases c lawful e' next w) [
      | inr (x, g, r, w') ↦
          inr (io x, (next, now) ∷ attempts, rw (q, r), rw (q, r) w', inr (next, refl))
      | inl (g, r, w') ↦ inl (rw (q, r), rw (q, r) w', rw (q, r) (rw changed later))
    ]
  ]

  -- In a valid state, with lawful crates, with room in the log and generations that have not run
  -- out, a commit either succeeds, and then the present store is the committed one and the
  -- generation has gone up by one exactly if there was something to commit; or it fails, and then
  -- the committed and the present store are what they were, with at most one more header on
  -- record, for the present store, that may be found in the other slot.
  pub commit-Commits : Commits c e old now attempts (commit c e)
  unfolding commit
  commit-Commits = go e.dirty refl
    where
      go :
          (b : Bool)
          → e.dirty ≡ b
          → Commits c e old now attempts (if not b then (ok tt, e) else commit_dirty c e)
      go false same =
          let (store, none_left) = v.clean same in
          inl (
            refl,
            subst (λ s. Inv c e s now []) store (subst (λ a. Inv c e old now a) none_left v),
            rw same,
          )
      go true changed = commit_dirty-Commits changed
