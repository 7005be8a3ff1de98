-- ===== src/Engine/Invariant.antt =====
-- The invariant of the engine of src/storage/engine.rs, against two stores: what the last commit
-- made durable, and what clients see now.
use cndb.Prelude.{
  ℕ, ◌+◌, ◌*◌, ◌≤◌, ◌<◌, ◌^◌, ◌≡◌, sym, ◌⊎◌, inl, false, Option, some, List, [], Bytes, arith, All,
}
use cndb.Result.{ok}
use cndb.Header.{Header, Slots, log_start, header_size, slot_offset, select_live, victim_slot}
use cndb.Header
use cndb.Header.Slots.{slot_at}
use cndb.Index.Validity.{IsValid}
use cndb.File.{File, bytes}
use cndb.File.Bytes.{bytes-Agree}
use cndb.File.Writes.{Wrote}
use cndb.File.Crash.{IsSafe}
use cndb.Crates.{Crates}
use cndb.Record.{Record}
use cndb.Log.Laid.{Laid, Laid-Agree}
use cndb.Store.{Store}
use cndb.Engine.{StorageEngine}
use cndb.Engine.Open.{decoded}
use cndb.Engine.Layout.{Holds, Backed, Backed-Agree, Wrote-Agree, Wrote-IsSafe}

-- The bytes of a header slot.
abbrev pub slot_bytes : File → ℕ → Bytes
slot_bytes f slot = bytes f.byte (slot * header_size) header_size

-- The header that a slot decodes to.
abbrev pub decoded_at : Crates → File → ℕ → Option Header
decoded_at c f slot = decoded (Header.decode c.hash (slot_bytes f slot) slot)

pub slot_bytes-Wrote :
    {start stop : ℕ} {f g : File} (slot : ℕ)
    → Wrote start stop f g
    → (slot * header_size + header_size ≤ start) ⊎ (stop ≤ slot * header_size)
    → slot * header_size + header_size ≤ f.len
    → slot_bytes g slot ≡ slot_bytes f slot
slot_bytes-Wrote {f} {g} slot w apart le =
    sym (bytes-Agree f.byte g.byte (slot * header_size) header_size (Wrote-Agree w apart le))

module _ (c : Crates) where
  -- A commit that has failed so late that its header may be found in the file: all that the header
  -- leads to is durable.
  pub record Attempt (f : File) (h : Header) (limit : ℕ) (a : Header × Store) : Type 0 where
    pub backed : Backed c f a.0 a.1
    pub safe : IsSafe f log_start a.0.log_end
    pub later : a.0.generation ≡ h.generation + 1
    pub behind : a.0.log_end ≤ limit

  -- `old` is the committed store, `now` the present one.
  pub record Inv (e : StorageEngine) (old now : Store) (attempts : List (Header × Store))
      : Type 0 where
    -- the index and the log up to `end` hold the present store
    pub valid : IsValid e.index
    pub holds : Holds c.hash e.file.byte e.end e.index now
    pub inside : e.end ≤ e.file.len
    pub small : e.end < 2 ^ 64
    pub records : List Record
    pub laid : Laid c.hash e.file.byte log_start records e.end
    -- the live header is in its slot, and the log up to its end holds the committed store
    pub live : select_live e.slots ≡ ok (e.header, e.live_slot)
    pub in_slot : decoded_at c e.file e.live_slot ≡ some e.header
    pub backed : Backed c e.file e.header old
    pub behind : e.header.log_end ≤ e.end
    -- no crash can touch either
    pub slot_safe :
        IsSafe e.file (e.live_slot * header_size) (e.live_slot * header_size + header_size)
    pub log_safe : IsSafe e.file log_start e.header.log_end
    -- what else may be found in the other slot
    pub attempts_ok : All (Attempt e.file e.header e.end) attempts
    pub settled :
        attempts ≡ []
        → (decoded_at c e.file (victim_slot e.slots) ≡ slot_at e.slots (victim_slot e.slots))
          × IsSafe e.file
              (victim_slot e.slots * header_size)
              (victim_slot e.slots * header_size + header_size)
    -- without changes there is nothing to commit
    pub clean : e.dirty ≡ false → (old ≡ now) × (attempts ≡ [])

  pub Attempt-Wrote :
      {f g : File} {h : Header} {limit limit' stop : ℕ} {a : Header × Store}
      → Wrote limit stop f g
      → limit ≤ f.len
      → limit ≤ limit'
      → Attempt f h limit a
      → Attempt g h limit' a
  Attempt-Wrote w inside le t = record {
    backed =
        Backed-Agree c (Wrote-Agree w (inl t.behind) (omega (arith, t.behind)))
          (omega (arith, t.behind, w.grows)) t.backed;
    safe = Wrote-IsSafe w (inl t.behind) t.safe;
    later = t.later;
    behind = omega (arith, t.behind);
  }

  pub kept-Laid :
      {e : StorageEngine} {old now : Store} {attempts : List (Header × Store)} {g : File} {stop : ℕ}
      (v : Inv e old now attempts)
      → Wrote e.end stop e.file g
      → Laid c.hash g.byte log_start v.records e.end
  kept-Laid {e} {g} v w =
      Laid-Agree c.hash e.file.byte g.byte log_start v.records e.end
        (Wrote-Agree w (inl (omega arith)) v.inside) v.laid
