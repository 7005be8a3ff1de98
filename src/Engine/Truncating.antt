-- ===== src/Engine/Truncating.antt =====
-- A database file that has been cut off, opened by `open` and `load` of src/storage/engine.rs.
use cndb.Prelude.{ℕ, ◌≤◌, ◌<◌, ◌≡◌, refl, ◌∙◌, inr, String, [], lt→ltb, le→ltb_false}
use cndb.Result.{ok, err}
use cndb.Error.{unexpected_eof_at}
use cndb.Header.{log_start, select_live, victim_slot}
use cndb.Header.Slots.{select_live-IsLive, victim_slot-lt, select_live_keeps}
use cndb.File.{File, covered}
use cndb.File.Bytes.{read_exact_at_lem}
use cndb.File.Writes.{Synced}
use cndb.Crates.{Crates, IsLawful}
use cndb.Store.{Store}
use cndb.Engine.{StorageEngine}
use cndb.Engine.Open.{load, load_from, open_db}
use cndb.Engine.Copying.{Copies-Recoverable}
use cndb.Engine.Invariant.{Inv}
use cndb.Engine.Recovery.{
  slot_at-slots_in, slots_in, region_slot_0, region_slot_1, Recoverable, Recovers,
  Recoverable-Recovers, loaded, load-Recoverable, loaded-Inv,
}

-- The file with its length set to `n`, on the disk.
abbrev pub cut : ℕ → File → File
cut n f = record f { len = n; synced_len = n; unsynced = [] }

cut-Synced : (n : ℕ) (f : File) → Synced (cut n f) (cut n f)
unfolding covered
cut-Synced n f = record { same = λ i. refl; len = refl; synced_len = refl; clean = λ i. refl }

module _ (c : Crates) (e : StorageEngine) {old now : Store} (v : Inv c e old now []) where
  -- Both slots still decode as the engine has them.
  select_live-cut : (n : ℕ) → select_live (slots_in c (cut n e.file)) ≡ ok (e.header, e.live_slot)
  select_live-cut n =
      let l = select_live-IsLive e.slots v.live in
      select_live_keeps e.slots (slots_in c e.file) v.live
        (slot_at-slots_in c e.file e.live_slot l.in_range ∙ v.in_slot)
        (inr (
          slot_at-slots_in c e.file (victim_slot e.slots) (victim_slot-lt e.slots)
          ∙ (v.settled refl).0))

  cut-Recoverable :
      (n : ℕ) → e.header.log_end ≤ n → Recoverable c (cut n e.file) e.header e.live_slot old
  cut-Recoverable n whole =
      Copies-Recoverable c e v (cut n e.file)
        (record { same = λ i l h. refl; whole = whole; durable = cut-Synced n e.file })

  load-cut :
      (n : ℕ) (path : String)
      → log_start ≤ n
      → n < e.header.log_end
      → load c (cut n e.file) path ≡ err (unexpected_eof_at n e.header.log_end)
  unfolding load load_from
  load-cut n path slots_left short =
      rw
        (
          le→ltb_false n log_start slots_left,
          read_exact_at_lem (cut n e.file) log_start 0 slots_left,
        )
        (rw (region_slot_0 c (cut n e.file), region_slot_1 c (cut n e.file))
          (rw (select_live-cut n, lt→ltb n e.header.log_end short)))

  -- In a valid state in which no commit has failed since the last one that succeeded, with lawful
  -- crates, let the file have its length set to `n`, which is not 0. Opening it fails with
  -- `UnexpectedEof` and leaves it as it is if `n` is less than the two header slots, with offset
  -- 0, or otherwise less than the committed end of the log, with offset `n`. If `n` is the
  -- committed end of the log or more, the file can be loaded, with the committed header, on the
  -- committed store and in a valid state.
  pub open_db-cut :
      IsLawful c
      → (n : ℕ) (path : String) → 0 < n
      → (n < log_start
          → open_db c (cut n e.file) path ≡ (err (unexpected_eof_at 0 log_start), cut n e.file))
        × (log_start ≤ n
            → n < e.header.log_end
            → open_db c (cut n e.file) path
              ≡ (err (unexpected_eof_at n e.header.log_end), cut n e.file))
        × (e.header.log_end ≤ n → Recovers c (cut n e.file) path (e.header, old))
  unfolding open_db load
  open_db-cut lawful n path some_left = (
    λ short. rw (lt→ltb 0 n some_left, lt→ltb n log_start short),
    λ slots_left short. rw (lt→ltb 0 n some_left) (rw (load-cut n path slots_left short)),
    λ whole.
        Recoverable-Recovers c lawful (cut n e.file) path e.live_slot (e.header, old)
          (cut-Recoverable n whole) (cut-Synced n e.file),
  )

  -- What is loaded is the file as it was cut.
  pub cut-loaded :
      IsLawful c
      → (n : ℕ) (path : String) → e.header.log_end ≤ n
      → (e1 : StorageEngine) × (load c (cut n e.file) path ≡ ok e1)
        × Inv c e1 old old []
        × (e1.file.len ≡ n)
  cut-loaded lawful n path whole =
      let r = cut-Recoverable n whole in
      (
        loaded c (cut n e.file) path e.header e.live_slot r.backed.idx,
        load-Recoverable c lawful (cut n e.file) e.header path e.live_slot r,
        loaded-Inv c (cut n e.file) path e.header e.live_slot r (cut-Synced n e.file),
        refl,
      )
