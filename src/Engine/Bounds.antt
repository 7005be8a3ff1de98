-- ===== src/Engine/Bounds.antt =====
-- The lengths, counts and offsets that the engine of src/storage/engine.rs keeps, against each other.
use cndb.Prelude.{ℕ, ◌+◌, ◌≤◌, ◌≡◌, none, some, arith, length, List, Option, Bytes}
use cndb.Error.{DocId}
use cndb.Record.{Record, record_header_size}
use cndb.Header.{Header, log_start}
use cndb.Collections.{get}
use cndb.Index.{offset_of}
use cndb.Index.Counts.{live_count-eq_length}
use cndb.Crates.{Crates}
use cndb.Store.{Store}
use cndb.Engine.{StorageEngine, stats, live_ids}
use cndb.Engine.Layout.{DocAt}
use cndb.Engine.Invariant.{Inv}

-- Where there is a document, its frame lies in the log below the limit.
DocAt-bounds :
    (hash : Bytes → ℕ) (byte : ℕ → ℕ) (limit : ℕ) (o : Option ℕ) (d : Option Record) (offset : ℕ)
    → DocAt hash byte limit o d
    → o ≡ some offset
    → (log_start ≤ offset) × (offset + record_header_size ≤ limit)
DocAt-bounds hash byte limit none d offset h p = cc
DocAt-bounds hash byte limit (some o) none offset h p = absurd h
DocAt-bounds hash byte limit (some o) (some r) offset h p = ground (arith, h.starts, h.ends)

module _ (c : Crates) (e : StorageEngine) {old now : Store} {attempts : List (Header × Store)}
    (v : Inv c e old now attempts) where
  offset_of-Inv :
      (id : DocId) (offset : ℕ)
      → offset_of e.index id ≡ some offset
      → (log_start ≤ offset) × (offset + record_header_size ≤ (stats e).pending_len)
  unfolding offset_of stats
  offset_of-Inv id offset p =
      DocAt-bounds c.hash e.file.byte e.end (get e.index.offsets id) (now.docs id) offset
        (v.holds.docs id) (ground arith)

  -- In a valid state, of the numbers that `stats` returns: the live documents are as many as
  -- `live_ids` lists, and with the dead ones as many as ids have been given out; the committed
  -- length is at least the start of the log and at most the pending one, which is at most the
  -- length of the file; and where `offset_of` finds an id, its frame lies in the log below the
  -- pending length.
  pub stats-Inv :
      ((stats e).live_docs ≡ length (live_ids e))
      × ((stats e).live_docs + (stats e).dead_docs + 1 ≡ now.next)
      × (log_start ≤ (stats e).committed_len)
      × ((stats e).committed_len ≤ (stats e).pending_len)
      × ((stats e).pending_len ≤ e.file.len)
      × ((id : DocId) (offset : ℕ)
          → offset_of e.index id ≡ some offset
          → (log_start ≤ offset) × (offset + record_header_size ≤ (stats e).pending_len))
  unfolding stats live_ids
  stats-Inv =
      let (live, total) = live_count-eq_length e.index v.valid in
      (live, omega (arith, total, v.holds.next), v.backed.starts, v.behind, v.inside, offset_of-Inv)
