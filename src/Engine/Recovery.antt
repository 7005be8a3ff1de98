-- ===== src/Engine/Recovery.antt =====
-- `load` of src/storage/engine.rs on a file that holds a committed store.
use cndb.Prelude.{
  ℕ, zero, suc, ◌≤◌, ◌<◌, ◌^◌, ◌≡◌, refl, sym, ◌∙◌, ◌⊎◌, inl, inr, false, String, List, [], ◌∷◌,
  arith, le→ltb_false, eq→==,
}
use cndb.Result.{ok}
use cndb.Header.{Header, Slots, header_size, header_slots, log_start, select_live, victim_slot}
use cndb.Header
use cndb.Header.Slots.{slot_at, select_live-IsLive, victim_slot-lt}
use cndb.Index
use cndb.Index.{MasterIndex}
use cndb.File.{File, bytes}
use cndb.File.Bytes.{read_exact_at_lem}
use cndb.File.Writes.{Synced}
use cndb.Crates.{Crates, IsLawful}
use cndb.Log.Records.{read_record_at_lem}
use cndb.Store.{Store}
use cndb.Engine.{StorageEngine}
use cndb.Engine.Open.{decoded, decode_slot, load_index, load_from, load}
use cndb.Engine.Layout.{Backed, MasterAt, Synced-IsSafe}
use cndb.Engine.Invariant.{Inv, slot_bytes, decoded_at}

module _ (c : Crates) where
  -- What `load` finds in the two slots.
  abbrev pub slots_in : File → Slots
  slots_in f = (
    decoded (Header.decode c.hash (slot_bytes f 0) 0),
    decoded (Header.decode c.hash (slot_bytes f 1) 1),
  )

  -- The file holds the store under the header in that slot.
  pub record Recoverable (f : File) (h : Header) (slot : ℕ) (s : Store) : Type 0 where
    pub live : select_live (slots_in f) ≡ ok (h, slot)
    pub backed : Backed c f h s

  abbrev pub loaded : File → String → Header → ℕ → MasterIndex → StorageEngine
  loaded f path h slot idx = record {
    file = f;
    path = path;
    header = h;
    slots = slots_in f;
    live_slot = slot;
    index = idx;
    end = h.log_end;
    dirty = false;
  }

  pub region_slot_0 :
      (f : File)
      → decode_slot c (bytes f.byte 0 log_start) 0 ≡ Header.decode c.hash (slot_bytes f 0) 0
  unfolding decode_slot bytes
  region_slot_0 f = refl

  pub region_slot_1 :
      (f : File)
      → decode_slot c (bytes f.byte 0 log_start) 1 ≡ Header.decode c.hash (slot_bytes f 1) 1
  unfolding decode_slot bytes
  region_slot_1 f = refl

  module _ (lawful : IsLawful c) (f : File) (h : Header) where
    load_index_lem :
        (idx : MasterIndex)
        → h.log_end ≤ f.len
        → h.log_end < 2 ^ 64
        → MasterAt c f.byte h idx
        → load_index c f h ≡ ok idx
    unfolding load_index
    load_index_lem idx inside small (inl (none_yet, fresh)) =
        rw (eq→== h.master_len 0 none_yet, fresh)
    load_index_lem idx inside small (inr (some_yet, payload, at, read_back)) =
        rw (read_record_at_lem c.hash lawful.hash-lt f at inside small)
          (unfold Index.decode in ground arith)

    load_from_lem :
        (path : String) (slot : ℕ) {s : Store} (r : Recoverable f h slot s)
        → load_from c f path (slots_in f) (h, slot) ≡ ok (loaded f path h slot r.backed.idx)
    unfolding load_from
    load_from_lem path slot r = rw (
      le→ltb_false f.len h.log_end r.backed.inside,
      load_index_lem r.backed.idx r.backed.inside r.backed.u64.log_end r.backed.master,
    )

    -- `load` succeeds on such a file, with the header, and with an index that holds the store.
    pub load-Recoverable :
        (path : String) (slot : ℕ) {s : Store} (r : Recoverable f h slot s)
        → load c f path ≡ ok (loaded f path h slot r.backed.idx)
    unfolding load
    load-Recoverable path slot r =
        rw
          (
            le→ltb_false f.len log_start (omega (arith, r.backed.starts, r.backed.inside)),
            read_exact_at_lem f log_start 0 (omega (arith, r.backed.starts, r.backed.inside)),
          )
          (rw (region_slot_0 f, region_slot_1 f) (rw r.live (load_from_lem path slot r)))

module _ (c : Crates) where
  pub slot_at-slots_in :
      (f : File) (i : ℕ) → i < header_slots → slot_at (slots_in c f) i ≡ decoded_at c f i
  slot_at-slots_in f zero h = refl
  slot_at-slots_in f (suc zero) h = refl
  slot_at-slots_in f (suc (suc i)) h = absurd (omega arith)

  -- The engine that `load` makes of a file without unsynced writes meets the invariant.
  pub loaded-Inv :
      (f : File) (path : String) (h : Header) (slot : ℕ) {s : Store} (r : Recoverable c f h slot s)
      → Synced f f
      → Inv c (loaded c f path h slot r.backed.idx) s s []
  loaded-Inv f path h slot r durable =
      let l = select_live-IsLive (slots_in c f) r.live in
      record {
        valid = r.backed.valid;
        holds = r.backed.holds;
        inside = r.backed.inside;
        small = r.backed.u64.log_end;
        records = r.backed.records;
        laid = r.backed.laid;
        live = r.live;
        in_slot = sym (slot_at-slots_in f slot l.in_range) ∙ l.present;
        backed = r.backed;
        behind = omega arith;
        slot_safe =
            Synced-IsSafe durable (omega (arith, l.in_range, r.backed.starts, r.backed.inside));
        log_safe = Synced-IsSafe durable r.backed.inside;
        attempts_ok = tt;
        settled = λ p. (
          sym (slot_at-slots_in f (victim_slot (slots_in c f)) (victim_slot-lt (slots_in c f))),
          Synced-IsSafe durable
              (omega (arith, victim_slot-lt (slots_in c f), r.backed.starts, r.backed.inside)),
        );
        clean = λ p. (refl, refl);
      }

-- Opening the file succeeds, with this header, on an engine that holds the store and has committed it.
abbrev pub Recovers : Crates → File → String → Header × Store → Type 0
Recovers c img path a =
    (e : StorageEngine) × (load c img path ≡ ok e) × Inv c e a.1 a.1 [] × (e.header ≡ a.0)

abbrev pub RecoversOne : Crates → File → String → List (Header × Store) → Type 0
RecoversOne c img path [] = ⊥
RecoversOne c img path (a ∷ rest) = Recovers c img path a ⊎ RecoversOne c img path rest

pub Recoverable-Recovers :
    (c : Crates) (lawful : IsLawful c) (img : File) (path : String) (slot : ℕ) (a : Header × Store)
    → Recoverable c img a.0 slot a.1
    → Synced img img
    → Recovers c img path a
Recoverable-Recovers c lawful img path slot a r durable = (
  loaded c img path a.0 slot r.backed.idx,
  load-Recoverable c lawful img a.0 path slot r,
  loaded-Inv c img path a.0 slot r durable,
  refl,
)
