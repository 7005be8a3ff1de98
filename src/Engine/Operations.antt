-- ===== src/Engine/Operations.antt =====
-- `append` and `tombstone` of src/storage/engine.rs against the store, on every outcome.
use cndb.Prelude.{
  ℕ, ◌+◌, ◌≤◌, ◌<◌, ◌^◌, ◌≡◌, refl, ◌∙◌, ap, ◌⊎◌, inl, inr, Bool, true, false, is_some, Option,
  none, some, List, [], ◌∷◌, ◌++◌, Bytes, length, arith, ◌==◌, if◌then◌else◌, not,
}
use cndb.Prelude.Words.{u64, to_le_bytes, length-to_le_bytes}
use cndb.Result.{ok, err}
use cndb.Error.{CndbError, DocId, RecordKind, Result, not_found, deleted, io, record_too_large}
use cndb.Record.{Record, max_record_len}
use cndb.Header.{Header, log_start}
use cndb.Log.Laid.{Laid-append}
use cndb.Collections.{get, contains_key}
use cndb.Collections.Laws.{get-insert, contains-add}
use cndb.Index.{MasterIndex, allocate_id, insert_offset, mark_dead}
use cndb.Index.Validity.{IsValid, assign, assign-IsValid, mark_dead-IsValid}
use cndb.File.{File}
use cndb.File.Writes.{Wrote}
use cndb.Crates.{Crates}
use cndb.Log.Records.{RecordIn}
use cndb.Store
use cndb.Store.{Store}
use cndb.Engine.{StorageEngine, append_raw, append, assign_id, tombstone, delete_record}
use cndb.Engine.Appending.{HasRoom, Appended, refused, failed, landed, append_raw-Appended, size}
use cndb.Engine.Layout.{contains_key-Holds, Holds, DocAt}
use cndb.Engine.Invariant.{Inv, kept-Laid}
use cndb.Engine.Kept.{Inv-Wrote}

module _ (c : Crates) where
  -- A new index for a new present store, where there is something to commit.
  Inv-index :
      {e : StorageEngine} {old now : Store} {attempts : List (Header × Store)} (idx : MasterIndex)
      (s : Store)
      → Inv c e old now attempts
      → e.dirty ≡ true
      → IsValid idx
      → Holds c.hash e.file.byte e.end idx s
      → Inv c (record e { index = idx }) old s attempts
  Inv-index idx s v changed valid holds = record {
    valid = valid;
    holds = holds;
    inside = v.inside;
    small = v.small;
    records = v.records;
    laid = v.laid;
    live = v.live;
    in_slot = v.in_slot;
    backed = v.backed;
    behind = v.behind;
    slot_safe = v.slot_safe;
    log_safe = v.log_safe;
    attempts_ok = v.attempts_ok;
    settled = v.settled;
    clean = λ p. cc;
  }

  assign-Holds :
      (byte : ℕ → ℕ) (limit offset : ℕ) (idx : MasterIndex) (s : Store) (r : Record)
      → Holds c.hash byte limit idx s
      → RecordIn c.hash byte limit offset r
      → idx.next_doc_id + 1 < 2 ^ 64
      → Holds c.hash byte limit (assign idx offset) (Store.append r s)
  unfolding allocate_id insert_offset
  assign-Holds byte limit offset idx s r h at room = record {
    next = omega (arith, h.next);
    dead = h.dead;
    docs = λ k.
        rw (get-insert idx.offsets idx.next_doc_id k offset, ← h.next)
          (pick (idx.next_doc_id == k) k);
  }
    where
      pick :
          (b : Bool) (k : DocId)
          → DocAt c.hash byte limit
              (if b then some offset else get idx.offsets k)
              (if b then some r else s.docs k)
      pick true k = at
      pick false k = h.docs k

  mark_dead-Holds :
      (byte : ℕ → ℕ) (limit : ℕ) (idx : MasterIndex) (s : Store) (id : DocId)
      → Holds c.hash byte limit idx s
      → Holds c.hash byte limit (mark_dead idx id) (Store.delete id s)
  unfolding mark_dead
  mark_dead-Holds byte limit idx s id h = record {
    next = h.next;
    dead = λ k. rw (contains-add idx.dead id k, h.dead k) (ground arith);
    docs = h.docs;
  }

  -- What an operation with a result of type `A` may come to: it succeeds and the present store is
  -- `next`, or it fails and the present store is what it was. The committed store stays.
  abbrev pub Does :
      {A : Type 0}
      → A
      → Store
      → Store
      → Store
      → List (Header × Store)
      → Result A × StorageEngine
      → Type 0
  Does a old now next attempts out =
      ((out.0 ≡ ok a) × Inv c out.1 old next attempts)
      ⊎ ((x : CndbError) × (out.0 ≡ err x) × Inv c out.1 old now attempts)

module _ (c : Crates) (e : StorageEngine) {old now : Store} {attempts : List (Header × Store)}
    (v : Inv c e old now attempts) (room : HasRoom e) where
  pub failed-Inv :
      (payload : Bytes) (g : File)
      → Wrote e.end (e.end + size payload) e.file g
      → Inv c (record e { file = g }) old now attempts
  failed-Inv payload g w =
      Inv-Wrote c g (e.end + size payload) e.end e.dirty v w (omega arith)
        (omega (arith, v.inside, w.grows)) v.small v.records (kept-Laid c v w) (λ d. d)

  pub landed-Inv :
      (kind : RecordKind) (payload : Bytes) (g : File)
      → Wrote e.end (e.end + size payload) e.file g
      → RecordIn c.hash g.byte
          (e.end + size payload)
          e.end
          (record { kind = kind; payload = payload })
      → e.end + size payload ≤ g.len
      → Inv c (record e { file = g; end = e.end + size payload; dirty = true }) old now attempts
  landed-Inv kind payload g w at inside =
      let r : Record = record { kind = kind; payload = payload } in
      Inv-Wrote c g (e.end + size payload) (e.end + size payload) true v w (omega arith) inside
        (omega (arith, at.fits, room.room)) (v.records ++ r ∷ [])
        (Laid-append c.hash g.byte log_start v.records e.end (e.end + size payload) r
          (kept-Laid c v w) at (omega arith))
        (λ d. cc)

  -- In a valid state, with room in the log, ids that have not run out and a payload whose length
  -- is a `u64`, `append` either returns the next id, and the present store has the record under
  -- it and the next id one higher; or it fails, and the present store is what it was. The state
  -- is valid again and the committed store is what it was.
  pub append-Does :
      (kind : RecordKind) (payload : Bytes)
      → length payload < 2 ^ 64
      → e.index.next_doc_id + 1 < 2 ^ 64
      → Does c now.next old now
          (Store.append (record { kind = kind; payload = payload }) now)
          attempts
          (append c kind payload e)
  unfolding append assign_id
  append-Does kind payload word ids = go (append_raw-Appended c kind payload e room word)
    where
      go :
          Appended c kind payload e (append_raw c kind payload e)
          → Does c now.next old now
              (Store.append (record { kind = kind; payload = payload }) now)
              attempts
              (append c kind payload e)
      go (refused long p) =
          inr (record_too_large e.end (u64 (length payload)) max_record_len, rw p, rw p v)
      go (failed x g fits w p) = inr (io x, rw p, rw p (failed-Inv payload g w))
      go (landed g fits w at inside p) =
          let e' = record e { file = g; end = e.end + size payload; dirty = true } in
          let v' = landed-Inv kind payload g w at inside in
          inl (
            rw p (unfold allocate_id in ap ok v.holds.next),
            rw p (
                Inv-index c (assign e.index e.end) _ v' refl
                  (assign-IsValid e.index v.valid e.end (omega (arith, room.room)) ids)
                  (assign-Holds c g.byte (e.end + size payload) e.end e.index now _ v'.holds at
                    ids)),
          )

  -- In a valid state with room in the log, `tombstone` of an id that the present store cannot
  -- read fails with the error of that reading, and leaves the engine as it was.
  pub tombstone-refused :
      (id : DocId) (x : CndbError) → Store.read now id ≡ err x → tombstone c id e ≡ (err x, e)
  unfolding tombstone
  tombstone-refused id x p =
      rw (v.holds.dead id, contains_key-Holds v.holds id) (go (now.dead id) (now.docs id) p)
    where
      go :
          (b : Bool) (d : Option Record)
          → (if b then err (deleted id) else Store.found id d) ≡ err x
          → (if b
              then (err (deleted id), e)
              else if not (is_some d)
              then (err (not_found id), e)
              else delete_record c id e)
            ≡ (err x, e)
      go true d q = ground arith
      go false none q = ground arith
      go false (some r) q = cc

  delete_record-Does :
      (id : DocId)
      → contains_key e.index.offsets id ≡ true
      → Does c tt old now (Store.delete id now) attempts (delete_record c id e)
  unfolding delete_record
  delete_record-Does id known = go (
      append_raw-Appended c RecordKind.tombstone payload e room
        (omega (arith, length-to_le_bytes 8 id)))
    where
      payload : Bytes
      payload = to_le_bytes 8 id

      go :
          Appended c RecordKind.tombstone payload e (append_raw c RecordKind.tombstone payload e)
          → Does c tt old now (Store.delete id now) attempts (delete_record c id e)
      go (refused long p) = absurd (omega (arith, length-to_le_bytes 8 id))
      go (failed x g fits w p) = inr (io x, rw p, rw p (failed-Inv payload g w))
      go (landed g fits w at inside p) =
          let v' = landed-Inv RecordKind.tombstone payload g w at inside in
          inl (
            rw p,
            rw p (
                Inv-index c (mark_dead e.index id) _ v' refl
                  (mark_dead-IsValid e.index v.valid id known)
                  (mark_dead-Holds c g.byte (e.end + size payload) e.index now id v'.holds)),
          )

  -- In a valid state with room in the log, `tombstone` of an id that the present store can read
  -- either succeeds, and the present store has that id deleted; or it fails, and the present
  -- store is what it was. The state is valid again and the committed store is what it was.
  pub tombstone-Does :
      (id : DocId) (r : Record)
      → Store.read now id ≡ ok r
      → Does c tt old now (Store.delete id now) attempts (tombstone c id e)
  unfolding tombstone
  tombstone-Does id r p =
      rw (v.holds.dead id, contains_key-Holds v.holds id)
        (go (now.dead id) (now.docs id) refl refl p)
    where
      go :
          (b : Bool) (d : Option Record)
          → now.dead id ≡ b
          → now.docs id ≡ d
          → (if b then err (deleted id) else Store.found id d) ≡ ok r
          → Does c tt old now (Store.delete id now) attempts (
              if b
              then (err (deleted id), e)
              else if not (is_some d)
              then (err (not_found id), e)
              else delete_record c id e)
      go true d eb ed q = absurd (ground arith)
      go false none eb ed q = absurd (ground arith)
      go false (some r) eb ed q =
          delete_record-Does id (contains_key-Holds v.holds id ∙ ap is_some ed)
