-- ===== src/Engine/Lives.antt =====
-- The life of a database file over any number of sessions: each session opens the file of the one
-- before with `open` of src/storage/engine.rs, works on it, and ends in a crash.
use cndb.Prelude.{
  ◌≤◌, ◌<◌, ◌^◌, Bytes, length, false, ◌≡◌, ap, sym, ◌∙◌, subst, inl, inr, ◌⊎◌, none, some, String,
  List, [], arith, Among, All-Among,
}
use cndb.Result.{ok, err}
use cndb.Error.{DocId, RecordKind, deleted, not_found}
use cndb.Record.{Record}
use cndb.Header.{Header, victim_slot}
use cndb.Header.Slots.{slot_at}
use cndb.Collections.{contains_key}
use cndb.Engine.Layout.{contains_key-Holds}
use cndb.Crates.{Crates, IsLawful}
use cndb.File.{File}
use cndb.File.Writes.{Synced}
use cndb.File.Crash.{Survives}
use cndb.Store
use cndb.Store.{Store}
use cndb.Store.Order.{Extends, Extends-refl, Extends-trans, read-Extends, deleted-Extends}
use cndb.Engine.{StorageEngine, append, read_record}
use cndb.Engine.Operations.{append-Does}
use cndb.Engine.Open.{load}
use cndb.Engine.Invariant.{Inv}
use cndb.Engine.Recovery.{slots_in, Recovers, Recoverable-Recovers}
use cndb.Engine.Crashing.{recover_old, recover_tried}
use cndb.Engine.Runs.{ok-injective, CanGoOn, Run, deleted, Run-Inv, Run-read}
use cndb.Engine.Growing.{is_some-none, Grown, Run-Grown}

module _ (c : Crates) (e : StorageEngine) (old : Store) (attempts : List (Header × Store))
    (img : File) where
  -- What the crash has left in the slot that was not live, and the header and the store that are live
  -- then.
  pub data Left (live : Header × Store) : Type 0 where
    lost :
        slot_at (slots_in c img) (victim_slot e.slots) ≡ none → live ≡ (e.header, old) → Left live
    kept :
        slot_at (slots_in c img) (victim_slot e.slots) ≡ slot_at e.slots (victim_slot e.slots)
        → live ≡ (e.header, old)
        → Left live
    tried :
        slot_at (slots_in c img) (victim_slot e.slots) ≡ some live.0
        → Among live attempts
        → Left live

-- From `first`, which holds and has committed `store`, sessions lead to an engine that has just been
-- opened, and to what it holds then.
pub data Life (c : Crates) (first : StorageEngine) (store : Store)
    : StorageEngine → Store → Type 0 where
  born : Life c first store first store
  reopened :
      {start e : StorageEngine} {s old now : Store} {attempts : List (Header × Store)} (img : File)
      (path : String) (h : Header) (s' : Store) (e' : StorageEngine)
      → Life c first store start s
      → Run c start s e old now attempts
      → Survives e.file img
      → Synced img img
      → Left c e old attempts img (h, s')
      → load c img path ≡ ok e'
      → Life c first store e' s'

module _ (c : Crates) (lawful : IsLawful c) where
  -- Each session begins in a valid state, on a store that extends the first one.
  record Begins (store : Store) (e : StorageEngine) (s : Store) : Type 0 where
    valid : Inv c e s s []
    extends : Extends store s

  module _ (img : File) (path : String) (store : Store) (e' : StorageEngine)
      (opened : load c img path ≡ ok e') where
    Recovers-Begins :
        (a : Header × Store) → Recovers c img path a → Extends store a.1 → Begins store e' a.1
    Recovers-Begins a (e1, p, w, same) ext = record {
      valid = subst (λ e. Inv c e a.1 a.1 []) (ok-injective _ p opened) w;
      extends = ext;
    }

    Left-Begins :
        {e : StorageEngine} {old now s' : Store} {attempts : List (Header × Store)} {h : Header}
        → Inv c e old now attempts
        → Grown store old now attempts
        → Survives e.file img
        → Synced img img
        → Left c e old attempts img (h, s')
        → Begins store e' s'
    Left-Begins {e} {old} v g crash durable (lost p q) =
        subst (Begins store e') (sym (ap (λ (a : Header × Store). a.1) q)) (
          Recovers-Begins (e.header, old)
            (Recoverable-Recovers c lawful img path e.live_slot (e.header, old)
              (recover_old c lawful e v img crash (inl p)) durable)
            g.committed)
    Left-Begins {e} {old} v g crash durable (kept p q) =
        subst (Begins store e') (sym (ap (λ (a : Header × Store). a.1) q)) (
          Recovers-Begins (e.header, old)
            (Recoverable-Recovers c lawful img path e.live_slot (e.header, old)
              (recover_old c lawful e v img crash (inr p)) durable)
            g.committed)
    Left-Begins {e} {old} {s'} {attempts} {h} v g crash durable (tried p m) =
        Recovers-Begins (h, s')
          (Recoverable-Recovers c lawful img path (victim_slot e.slots) (h, s')
            (recover_tried c lawful e v img crash (h, s')
              (All-Among _ (h, s') attempts v.attempts_ok m) p)
            durable)
          (Extends-trans g.committed (All-Among (λ a. Extends old a.1) (h, s') attempts g.tried m))

  Life-Begins :
      {first : StorageEngine} {store : Store} {start : StorageEngine} {s : Store}
      → Inv c first store store []
      → Life c first store start s
      → Begins store start s
  Life-Begins v born = record { valid = v; extends = Extends-refl _ }
  Life-Begins v (reopened img path h s' e' life run crash durable left p) =
      let b = Life-Begins v life in
      let g = Run-Grown c lawful b.valid run in
      Left-Begins img path _ e' p (Run-Inv c lawful _ _ b.valid run)
        (record {
          committed = Extends-trans b.extends g.committed;
          present = g.present;
          tried = g.tried;
        })
        crash durable left

  module _ (first : StorageEngine) (store : Store) (v : Inv c first store store []) where
    -- From an engine in a valid state whose present store, the first one, is committed, through
    -- any number of sessions that each open the file of the one before, run appends, deletions
    -- and commits that may fail at any of their system calls, and end in a crash, and then
    -- through such a run once more, the engine is in a valid state for its committed and its
    -- present store. The crates are lawful, payloads have a length that is a `u64`, ids and
    -- generations have not run out and the log has room at every step, and what a crash leaves of
    -- the slot that is not live is no valid header, the one that was there, or one that a failed
    -- commit was writing.
    pub Life-Inv :
        {start e : StorageEngine} {s old now : Store} {attempts : List (Header × Store)}
        → Life c first store start s
        → Run c start s e old now attempts
        → Inv c e old now attempts
    Life-Inv {start} {s} life run = Run-Inv c lawful start s (Life-Begins v life).valid run

    Life-Extends :
        {start e : StorageEngine} {s old now : Store} {attempts : List (Header × Store)}
        → Life c first store start s
        → Run c start s e old now attempts
        → Extends store now
    Life-Extends life run =
        let b = Life-Begins v life in
        let g = Run-Grown c lawful b.valid run in
        Extends-trans b.extends (Extends-trans g.committed g.present)

    -- From an engine in a valid state whose present store, the first one, is committed, through
    -- any number of sessions that each open the file of the one before, run appends, deletions
    -- and commits that may fail at any of their system calls, and end in a crash, and then
    -- through such a run once more, a document that the first store can read is read with the
    -- same record, or is reported as deleted; and one that the first store has deleted is
    -- reported as deleted. The crates are lawful, payloads have a length that is a `u64`, ids and
    -- generations have not run out and the log has room at every step, and what a crash leaves of
    -- the slot that is not live is no valid header, the one that was there, or one that a failed
    -- commit was writing.
    pub Life-durable :
        {start e : StorageEngine} {s old now : Store} {attempts : List (Header × Store)}
        (id : DocId)
        → Life c first store start s
        → Run c start s e old now attempts
        → ((r : Record)
            → Store.read store id ≡ ok r
            → (read_record c e id ≡ ok r) ⊎ (read_record c e id ≡ err (deleted id)))
          × (Store.read store id ≡ err (deleted id) → read_record c e id ≡ err (deleted id))
    Life-durable {start} {e} {s} {old} {now} id life run =
        let answers = Run-read c lawful start s (Life-Begins v life).valid run id in
        (
          λ r h. rw answers (read-Extends id r (Life-Extends life run) h),
          λ h. answers ∙ deleted-Extends id (Life-Extends life run) h,
        )

    -- Ids from `next` on are unknown to the store.
    unknown : (id : DocId) → store.next ≤ id → Store.read store id ≡ err (not_found id)
    unknown id le =
        let no_entry : contains_key first.index.offsets id ≡ false =
          ground (arith, v.valid.below_next id, v.holds.next) in
        let no_doc =
          is_some-none (store.docs id) (sym (contains_key-Holds v.holds id) ∙ no_entry) in
        ground (arith, no_doc, no_entry, v.valid.dead_known id, v.holds.dead id)

    -- From an engine in a valid state whose present store, the first one, is committed, through
    -- any number of sessions that each open the file of the one before, run appends, deletions
    -- and commits that may fail at any of their system calls, and end in a crash, and then
    -- through such a run once more, an id that `append` returns is one that the first store
    -- reports as not found: no id of a document that was committed then, deleted or not, is given
    -- out for another. The crates are lawful, payloads have a length that is a `u64`, ids and
    -- generations have not run out and the log has room at every step, and what a crash leaves of
    -- the slot that is not live is no valid header, the one that was there, or one that a failed
    -- commit was writing.
    pub Life-append :
        {start e : StorageEngine} {s old now : Store} {attempts : List (Header × Store)}
        (kind : RecordKind) (payload : Bytes) (id : DocId) (e' : StorageEngine)
        → Life c first store start s
        → Run c start s e old now attempts
        → CanGoOn e
        → length payload < 2 ^ 64
        → append c kind payload e ≡ (ok id, e')
        → Store.read store id ≡ err (not_found id)
    Life-append {start} {e} {s} {now} kind payload id e' life run can word p =
        elim (append-Does c e (Life-Inv life run) can.room kind payload word can.ids) [
          | inr (x, q, w) ↦ absurd (ground arith)
          | inl (q, w) ↦
              let new_id : now.next ≡ id = ground arith in
              unknown id (omega (arith, (Life-Extends life run).next))
        ]
