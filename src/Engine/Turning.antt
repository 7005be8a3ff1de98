-- ===== src/Engine/Turning.antt =====
-- Step 3 of `commit` in src/storage/engine.rs: the header goes over the victim slot.
use cndb.Prelude.{
  ℕ, ◌+◌, ◌*◌, ◌<◌, ◌≡◌, refl, sym, ◌∙◌, subst, ap, ◌⊎◌, inl, inr, false, some, List, [], ◌∷◌,
  Bytes, arith,
}
use cndb.Result.{ok, err, StdResult-cases}
use cndb.Error.{IoError, io}
use cndb.Header.{
  Header, Slots, header_size, header_slots, log_start, slot_offset, select_live, victim_slot,
  set_slot,
}
use cndb.Header
use cndb.Header.Codec.{length-encode, decode-encode}
use cndb.Header.Slots.{
  slot_at, select_live-IsLive, victim_slot-ne-live, victim_slot-lt, select_live-set_slot,
  victim_slot-set_slot, slot_at-set_slot,
}
use cndb.File.{File, bytes, sync, write_all_at}
use cndb.File.Bytes.{bytes-Agree}
use cndb.File.Writes.{
  Wrote, Synced, Synced-self, sync-Synced, write_all_at-Wrote, write_all_at-bytes,
}
use cndb.Crates.{Crates, IsLawful}
use cndb.Store.{Store}
use cndb.Engine.{StorageEngine, on_file}
use cndb.Engine.Open.{decoded}
use cndb.Engine.Commit.{write_header}
use cndb.Engine.Layout.{Synced-IsSafe}
use cndb.Engine.Invariant.{Inv, Attempt, slot_bytes, decoded_at}
use cndb.Engine.Kept.{Inv-Synced, Inv-slot, Inv-unsynced}

module _ (c : Crates) (lawful : IsLawful c) where
  -- The engine after step 3, on a file in which the new header has been synced.
  abbrev turned : StorageEngine → File → Header → StorageEngine
  turned e g next = record e {
    file = g;
    header = next;
    slots = set_slot e.slots (victim_slot e.slots) next;
    live_slot = victim_slot e.slots;
    dirty = false;
  }

  module _ (e : StorageEngine) (next : Header) {old now : Store} {attempts : List (Header × Store)}
      (v : Inv c e old now ((next, now) ∷ attempts)) where
    abbrev victim : ℕ
    victim = victim_slot e.slots

    attempt : Attempt c e.file e.header e.end (next, now)
    attempt = v.attempts_ok.0

    later : e.header.generation < next.generation
    later = omega (arith, attempt.later)

    -- The slot that was live holds the header of the last commit, and is the next victim.
    other_slot :
        (g : File)
        → decoded_at c g e.live_slot ≡ some e.header
        → decoded_at c g e.live_slot ≡ slot_at (set_slot e.slots victim next) e.live_slot
    other_slot g in_slot =
        let l = select_live-IsLive e.slots v.live in
        let kept : slot_at (set_slot e.slots victim next) e.live_slot ≡ some e.header = ground (
          arith,
          slot_at-set_slot e.slots next victim e.live_slot (victim_slot-lt e.slots) l.in_range,
          victim_slot-ne-live e.slots v.live,
          l.present,
        ) in
        in_slot ∙ sym kept

    turned-Inv :
        (g : File)
        → Inv c (record e { file = g }) old now ((next, now) ∷ attempts)
        → slot_bytes g victim ≡ Header.encode c.hash next
        → Synced g g
        → Inv c (turned e g next) now now []
    turned-Inv g w in_victim s =
        let l = select_live-IsLive e.slots v.live in
        record {
          valid = w.valid;
          holds = w.holds;
          inside = w.inside;
          small = w.small;
          records = w.records;
          laid = w.laid;
          live = select_live-set_slot e.slots next v.live later;
          in_slot =
              ap (λ b. decoded (Header.decode c.hash b victim)) in_victim
              ∙ ap decoded (decode-encode c.hash lawful.hash-lt next victim attempt.backed.u64);
          backed = w.attempts_ok.0.backed;
          behind = w.attempts_ok.0.behind;
          slot_safe =
              Synced-IsSafe s
                (omega (arith, victim_slot-lt e.slots, w.backed.starts, w.backed.inside));
          log_safe = Synced-IsSafe s w.attempts_ok.0.backed.inside;
          attempts_ok = tt;
          settled = λ none_left. rw (victim_slot-set_slot e.slots next v.live later) (
            other_slot g w.in_slot,
            Synced-IsSafe s (omega (arith, l.in_range, w.backed.starts, w.backed.inside)),
          );
          clean = λ p. (refl, refl);
        }

    abbrev header_bytes : Bytes
    header_bytes = Header.encode c.hash next

    abbrev put : File
    put = (write_all_at header_bytes (slot_offset victim) e.file).1

    put-Wrote : Wrote (victim * header_size) (victim * header_size + header_size) e.file put
    unfolding slot_offset
    put-Wrote =
        subst (λ n. Wrote (victim * header_size) (victim * header_size + n) e.file put)
          (length-encode c.hash next) (write_all_at-Wrote header_bytes (slot_offset victim) e.file)

    put-Inv : Inv c (record e { file = put }) old now ((next, now) ∷ attempts)
    put-Inv = Inv-slot c put v put-Wrote (λ p. cc)

    put-bytes :
        (write_all_at header_bytes (slot_offset victim) e.file).0 ≡ ok tt
        → slot_bytes put victim ≡ header_bytes
    unfolding slot_offset
    put-bytes p =
        subst (λ n. bytes put.byte (victim * header_size) n ≡ header_bytes)
          (length-encode c.hash next)
          (write_all_at-bytes header_bytes (slot_offset victim) e.file p)

    -- Step 3 makes the present store the committed one, or leaves the old one committed.
    pub write_header_cases :
        ((g : File) × (write_header c next e ≡ (ok tt, turned e g next))
          × Inv c (turned e g next) now now [])
        ⊎ ((x : IoError) × (g : File) × (write_header c next e
              ≡ (err (io x), record e { file = g }))
            × Inv c (record e { file = g }) old now ((next, now) ∷ attempts))
    unfolding write_header on_file
    write_header_cases =
        elim (StdResult-cases (write_all_at header_bytes (slot_offset victim) e.file).0) [
          | inr (x, p) ↦ inr (x, put, rw p, put-Inv)
          | inl (u, p) ↦ elim (StdResult-cases (sync put).0) [
            | inr (x, q) ↦ inr (x, (sync put).1, rw (p, q), Inv-unsynced c put-Inv (λ r. cc))
            | inl (w, q) ↦
                let s = sync-Synced put q in
                inl (
                  (sync put).1,
                  rw (p, q),
                  turned-Inv (sync put).1 (Inv-Synced c (sync put).1 put-Inv s)
                      (bytes-Agree _ _ _ _ (λ i l h. s.same i) ∙ put-bytes p) (Synced-self s),
                )
          ]
        ]
