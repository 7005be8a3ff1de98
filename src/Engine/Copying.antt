-- ===== src/Engine/Copying.antt =====
-- A copy of a database file, opened by `load` of src/storage/engine.rs.
use cndb.Prelude.{ℕ, ◌*◌, ◌≤◌, ◌<◌, ◌≡◌, refl, ap, sym, ◌∙◌, inr, String, [], arith}
use cndb.Header.{header_size, log_start, select_live, victim_slot, header_slots}
use cndb.Header
use cndb.Header.Slots.{select_live-IsLive, victim_slot-lt, select_live_keeps}
use cndb.File.{File}
use cndb.File.Bytes.{Agree, bytes-Agree}
use cndb.File.Writes.{Synced}
use cndb.Crates.{Crates, IsLawful}
use cndb.Store.{Store}
use cndb.Engine.{StorageEngine}
use cndb.Engine.Open.{decoded}
use cndb.Engine.Layout.{Backed-Agree}
use cndb.Engine.Invariant.{Inv, decoded_at}
use cndb.Engine.Recovery.{slot_at-slots_in, slots_in, Recoverable, Recovers, Recoverable-Recovers}

-- The file begins with the committed part of the engine's file. What lies behind that is not asked.
pub record Copies (e : StorageEngine) (g : File) : Type 0 where
  pub same : Agree e.file.byte g.byte 0 e.header.log_end
  pub whole : e.header.log_end ≤ g.len
  pub durable : Synced g g

module _ (c : Crates) (e : StorageEngine) {old now : Store} (v : Inv c e old now []) (g : File)
    (copy : Copies e g) where
  slot-Copies : (slot : ℕ) → slot < header_slots → decoded_at c g slot ≡ decoded_at c e.file slot
  slot-Copies slot lt = sym (
      ap (λ b. decoded (Header.decode c.hash b slot))
        (bytes-Agree e.file.byte g.byte (slot * header_size) header_size
          (λ i l h. copy.same i (omega arith) (omega (arith, v.backed.starts)))))

  pub Copies-Recoverable : Recoverable c g e.header e.live_slot old
  Copies-Recoverable =
      let l = select_live-IsLive e.slots v.live in
      record {
        live =
            select_live_keeps e.slots (slots_in c g) v.live
              (slot_at-slots_in c g e.live_slot l.in_range
                ∙ slot-Copies e.live_slot l.in_range
                ∙ v.in_slot)
              (inr (
                slot_at-slots_in c g (victim_slot e.slots) (victim_slot-lt e.slots)
                ∙ slot-Copies (victim_slot e.slots) (victim_slot-lt e.slots)
                ∙ (v.settled refl).0));
        backed = Backed-Agree c (λ i l h. copy.same i (omega arith) h) copy.whole v.backed;
      }

  pub Copies-Recovers : IsLawful c → (path : String) → Recovers c g path (e.header, old)
  Copies-Recovers lawful path =
      Recoverable-Recovers c lawful g path e.live_slot (e.header, old) Copies-Recoverable
        copy.durable
