-- ===== src/Engine/Alternating.antt =====
-- The header slots before and after `commit` of src/storage/engine.rs.
use cndb.Prelude.{◌≡◌, ◌≢◌, refl, ap, sym, ◌∙◌, some, true, Bytes, List, inl, inr, arith}
use cndb.Result.{ok, StdResult-cases}
use cndb.Error.{RecordKind, master_index}
use cndb.Header.{Header, victim_slot, set_slot}
use cndb.Header.Slots.{
  slot_at, select_live-IsLive, victim_slot-ne-live, victim_slot-lt, slot_at-set_slot,
}
use cndb.Index
use cndb.File.{sync}
use cndb.Crates.{Crates}
use cndb.Store.{Store}
use cndb.Engine.{StorageEngine, append_raw, on_file}
use cndb.Engine.Commit.{commit, commit_dirty, prepare, write_master, write_header}
use cndb.Engine.Invariant.{Inv}

module _ (c : Crates) where
  append_raw-slots :
      (kind : RecordKind) (payload : Bytes) (e : StorageEngine)
      → (append_raw c kind payload e).1.slots ≡ e.slots
  unfolding append_raw on_file
  append_raw-slots kind payload e = ground arith

  write_master-slots : (e : StorageEngine) → (write_master c e).1.slots ≡ e.slots
  unfolding write_master on_file
  write_master-slots e = elim (StdResult-cases (Index.encode c.serialize e.index)) [
    | inr (x, p) ↦ rw p refl
    | inl (payload, p) ↦ elim (StdResult-cases (append_raw c master_index payload e).0) [
      | inr (x, q) ↦ rw (p, q) (append_raw-slots master_index payload e)
      | inl (ptr, q) ↦ rw (p, q) (ground (arith, append_raw-slots master_index payload e))
    ]
  ]

  prepare-slots : (e : StorageEngine) → (prepare c e).1.slots ≡ e.slots
  unfolding prepare on_file
  prepare-slots e = ground (arith, write_master-slots (record e { file = (sync e.file).1 }))

  write_header-turns :
      (next : Header) (e e' : StorageEngine)
      → write_header c next e ≡ (ok tt, e')
      → (e'.slots ≡ set_slot e.slots (victim_slot e.slots) next)
        × (e'.live_slot ≡ victim_slot e.slots)
        × (e'.header ≡ next)
  unfolding write_header on_file
  write_header-turns next e e' h = ground arith

  module _ (e : StorageEngine) {old now : Store} {attempts : List (Header × Store)}
      (v : Inv c e old now attempts) where
    -- In a valid state with changes, after a commit that succeeds the live slot is the one that
    -- was the victim slot, and is not the one that was live; it holds the new header, and the
    -- slot that was live still holds the header that was.
    pub commit-alternates :
        (e' : StorageEngine)
        → e.dirty ≡ true
        → commit c e ≡ (ok tt, e')
        → (e'.live_slot ≡ victim_slot e.slots)
          × (e'.live_slot ≢ e.live_slot)
          × (slot_at e'.slots e'.live_slot ≡ some e'.header)
          × (slot_at e'.slots e.live_slot ≡ some e.header)
    unfolding commit commit_dirty
    commit-alternates e' changed h = elim (StdResult-cases (prepare c e).0) [
      | inr (x, p) ↦ absurd (ground arith)
      | inl (next, p) ↦
          let (slots, live, header) = write_header-turns next (prepare c e).1 e' (ground arith) in
          let at_victim : e'.live_slot ≡ victim_slot e.slots =
            live ∙ ap victim_slot (prepare-slots e) in
          let turned : e'.slots ≡ set_slot e.slots (victim_slot e.slots) next =
            slots ∙ ap (λ t. set_slot t (victim_slot t) next) (prepare-slots e) in
          let l = select_live-IsLive e.slots v.live in
          let lt = victim_slot-lt e.slots in
          let apart = victim_slot-ne-live e.slots v.live in
          (
            at_victim,
            λ p. apart (sym at_victim ∙ p),
            rw (turned, at_victim, header)
                (ground (
                  arith,
                  slot_at-set_slot e.slots next (victim_slot e.slots) (victim_slot e.slots) lt lt,
                )),
            rw turned (
                ground (
                  arith,
                  slot_at-set_slot e.slots next (victim_slot e.slots) e.live_slot lt l.in_range,
                  apart,
                  l.present,
                )),
          )
    ]
