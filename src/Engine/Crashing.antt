-- ===== src/Engine/Crashing.antt =====
-- What a crash leaves of the file of src/storage/engine.rs, and opening it.
use cndb.Prelude.{
  ◌*◌, ◌≡◌, refl, ◌∙◌, ◌⊎◌, inl, inr, Option, none, some, String, List, [], ◌∷◌, arith, All,
}
use cndb.Header.{Header, header_size, log_start, victim_slot}
use cndb.Header.Slots.{
  slot_at, select_live-IsLive, victim_slot-lt, select_live_keeps, select_live_later,
}
use cndb.File.{File}
use cndb.File.Bytes.{bytes-Agree}
use cndb.File.Writes.{Synced}
use cndb.File.Crash.{Survives, IsSafe, Survives-Agree}
use cndb.Crates.{Crates, IsLawful}
use cndb.Store.{Store}
use cndb.Engine.{StorageEngine}
use cndb.Engine.Layout.{Backed, Backed-Agree}
use cndb.Engine.Invariant.{Inv, Attempt}
use cndb.Engine.Recovery.{
  slots_in, Recoverable, Recovers, RecoversOne, Recoverable-Recovers, slot_at-slots_in,
}

-- A header of one of the attempts was found.
abbrev pub Tried : Option Header → List (Header × Store) → Type 0
Tried found [] = ⊥
Tried found (a ∷ attempts) = (found ≡ some a.0) ⊎ Tried found attempts

-- What a crash may leave in the other slot: nothing valid, the header that was there, or the header
-- of an attempt. A slot that was torn is taken to fail its checksum.
abbrev pub IsTorn : Crates → StorageEngine → List (Header × Store) → File → Type 0
IsTorn c e attempts img =
    let found = slot_at (slots_in c img) (victim_slot e.slots) in
    (found ≡ none) ⊎ (found ≡ slot_at e.slots (victim_slot e.slots)) ⊎ Tried found attempts

module _ (c : Crates) (lawful : IsLawful c) (e : StorageEngine) {old now : Store}
    {attempts : List (Header × Store)} (v : Inv c e old now attempts) (img : File)
    (crash : Survives e.file img) where
  -- The live header survives in its slot.
  live_slot_survives : slot_at (slots_in c img) e.live_slot ≡ some e.header
  live_slot_survives =
      let l = select_live-IsLive e.slots v.live in
      let same =
        bytes-Agree e.file.byte img.byte (e.live_slot * header_size) header_size
          (Survives-Agree crash v.slot_safe) in
      slot_at-slots_in c img e.live_slot l.in_range ∙ rw (← same) v.in_slot

  survives :
      {h : Header} {s : Store}
      → Backed c e.file h s
      → IsSafe e.file log_start h.log_end
      → Backed c img h s
  survives b safe =
      Backed-Agree c (Survives-Agree crash safe) (omega (arith, safe.synced, crash.len)) b

  pub recover_old :
      (slot_at (slots_in c img) (victim_slot e.slots) ≡ none)
        ⊎ (slot_at (slots_in c img) (victim_slot e.slots) ≡ slot_at e.slots (victim_slot e.slots))
      → Recoverable c img e.header e.live_slot old
  recover_old other = record {
    live = select_live_keeps e.slots (slots_in c img) v.live live_slot_survives other;
    backed = survives v.backed v.log_safe;
  }

  pub recover_tried :
      (a : Header × Store)
      → Attempt c e.file e.header e.end a
      → slot_at (slots_in c img) (victim_slot e.slots) ≡ some a.0
      → Recoverable c img a.0 (victim_slot e.slots) a.1
  recover_tried a t found = record {
    live =
        select_live_later e.slots (slots_in c img) v.live live_slot_survives found
          (omega (arith, t.later));
    backed = survives t.backed t.safe;
  }

  pub crash-Recovers :
      (path : String)
      → Synced img img
      → IsTorn c e attempts img
      → RecoversOne c img path ((e.header, old) ∷ attempts)
  crash-Recovers path durable (inl lost) = inl (
      Recoverable-Recovers c lawful img path e.live_slot (e.header, old) (recover_old (inl lost))
        durable)
  crash-Recovers path durable (inr (inl kept)) = inl (
      Recoverable-Recovers c lawful img path e.live_slot (e.header, old) (recover_old (inr kept))
        durable)
  crash-Recovers path durable (inr (inr tried)) = inr (go attempts v.attempts_ok tried)
    where
      go :
          (rest : List (Header × Store))
          → All (Attempt c e.file e.header e.end) rest
          → Tried (slot_at (slots_in c img) (victim_slot e.slots)) rest
          → RecoversOne c img path rest
      go [] t f = f
      go (a ∷ rest) t (inl found) = inl (
          Recoverable-Recovers c lawful img path (victim_slot e.slots) a (recover_tried a t.0 found)
            durable)
      go (a ∷ rest) t (inr found) = inr (go rest t.1 found)

-- Without a commit that failed, a crash loses what was not committed and nothing else: the file opens
-- on the committed store.
module _ (c : Crates) (lawful : IsLawful c) (e : StorageEngine) {old now : Store}
    (v : Inv c e old now []) (img : File) (crash : Survives e.file img) where
  other_slot_survives : IsTorn c e [] img
  other_slot_survives =
      let (same, safe) = v.settled refl in
      let kept =
        bytes-Agree e.file.byte img.byte (victim_slot e.slots * header_size) header_size
          (Survives-Agree crash safe) in
      inr (
        inl (
          slot_at-slots_in c img (victim_slot e.slots) (victim_slot-lt e.slots) ∙ rw (← kept) same))

  -- In a valid state in which no commit has failed since the last one that succeeded, with lawful
  -- crates, the file that a crash leaves can be loaded, with the committed header, on the
  -- committed store and in a valid state. No assumption on torn slots is needed.
  pub crash-committed : (path : String) → Synced img img → Recovers c img path (e.header, old)
  crash-committed path durable =
      elim (crash-Recovers c lawful e v img crash path durable other_slot_survives) [
        | inl r ↦ r
        | inr impossible ↦ absurd impossible
      ]
