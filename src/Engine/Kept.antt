-- ===== src/Engine/Kept.antt =====
-- Writes and syncs against the invariant of the engine of src/storage/engine.rs.
use cndb.Prelude.{
  ℕ, ◌+◌, ◌*◌, ◌≤◌, ◌<◌, ◌^◌, ◌≡◌, ◌≢◌, sym, ap, ◌∙◌, subst, ◌⊎◌, inl, inr, Bool, false, List, [],
  arith, All-map,
}
use cndb.Result.{ok}
use cndb.Header.{Header, Slots, log_start, header_size, slot_offset, select_live, victim_slot}
use cndb.Header
use cndb.Header.Slots.{slot_at, victim_slot-lt, victim_slot-ne-live, select_live-IsLive}
use cndb.File.{File, sync}
use cndb.File.Bytes.{bytes-Agree}
use cndb.File.Writes.{Wrote, Synced, sync-Wrote}
use cndb.Crates.{Crates}
use cndb.Record.{Record}
use cndb.Log.Laid.{Laid, Laid-Agree}
use cndb.Store.{Store}
use cndb.Engine.{StorageEngine}
use cndb.Engine.Open.{decoded}
use cndb.Engine.Layout.{Holds-Agree, Backed-Agree, Wrote-Agree, Wrote-IsSafe, Synced-IsSafe}
use cndb.Engine.Invariant.{slot_bytes, slot_bytes-Wrote, Attempt, Attempt-Wrote, Inv, kept-Laid}

module _ (c : Crates) where
  -- Writes behind the end of the log keep the invariant, and the log may end behind them.
  pub Inv-Wrote :
      {e : StorageEngine} {old now : Store} {attempts : List (Header × Store)} (g : File)
      (stop end : ℕ) (dirty : Bool)
      → Inv c e old now attempts
      → Wrote e.end stop e.file g
      → e.end ≤ end
      → end ≤ g.len
      → end < 2 ^ 64
      → (records : List Record) → Laid c.hash g.byte log_start records end
      → (dirty ≡ false → e.dirty ≡ false)
      → Inv c (record e { file = g; end = end; dirty = dirty }) old now attempts
  Inv-Wrote {e} {attempts} g stop end dirty v w grows fits small records laid d = record {
    valid = v.valid;
    holds = Holds-Agree c.hash (Wrote-Agree w (inl (omega arith)) v.inside) grows v.holds;
    inside = fits;
    small = small;
    records = records;
    laid = laid;
    live = v.live;
    in_slot =
        ap (λ b. decoded (Header.decode c.hash b e.live_slot))
          (slot_bytes-Wrote e.live_slot w (inl (omega (arith, slots))) (omega (arith, slots)))
        ∙ v.in_slot;
    backed =
        Backed-Agree c (Wrote-Agree w (inl v.behind) v.backed.inside) (omega (arith, v.behind))
          v.backed;
    behind = omega (arith, v.behind);
    slot_safe = Wrote-IsSafe w (inl (omega (arith, slots))) v.slot_safe;
    log_safe = Wrote-IsSafe w (inl v.behind) v.log_safe;
    attempts_ok = All-map (λ a t. Attempt-Wrote c w v.inside grows t) attempts v.attempts_ok;
    settled = λ none_left.
        let (same, safe) = v.settled none_left in
        (
          subst
              (λ b.
                decoded (Header.decode c.hash b (victim_slot e.slots))
                ≡ slot_at e.slots (victim_slot e.slots))
              (sym (
                slot_bytes-Wrote (victim_slot e.slots) w
                  (inl (omega (arith, slots, victim_slot-lt e.slots)))
                  (omega (arith, slots, victim_slot-lt e.slots))))
              same,
          Wrote-IsSafe w (inl (omega (arith, slots, victim_slot-lt e.slots))) safe,
        );
    clean = λ p. v.clean (d p);
  }
    where
      slots : (e.live_slot * header_size + header_size ≤ log_start) × (log_start ≤ e.end)
      slots =
          let l = select_live-IsLive e.slots v.live in
          omega (arith, l.in_range, v.backed.starts, v.behind)

  Attempt-Synced :
      {f g : File} {h : Header} {limit : ℕ} {a : Header × Store}
      → Synced f g
      → Attempt c f h limit a
      → Attempt c g h limit a
  Attempt-Synced s t = record {
    backed =
        Backed-Agree c (λ i l h. sym (s.same i)) (omega (arith, t.backed.inside, s.len)) t.backed;
    safe = Synced-IsSafe s t.backed.inside;
    later = t.later;
    behind = t.behind;
  }

  -- So does a sync.
  pub Inv-Synced :
      {e : StorageEngine} {old now : Store} {attempts : List (Header × Store)} (g : File)
      → Inv c e old now attempts
      → Synced e.file g
      → Inv c (record e { file = g }) old now attempts
  Inv-Synced {e} {attempts} g v s = record {
    valid = v.valid;
    holds = Holds-Agree c.hash (λ i l h. sym (s.same i)) (omega arith) v.holds;
    inside = omega (arith, v.inside, s.len);
    small = v.small;
    records = v.records;
    laid =
        Laid-Agree c.hash e.file.byte g.byte log_start v.records e.end (λ i l h. sym (s.same i))
          v.laid;
    live = v.live;
    in_slot =
        ap (λ b. decoded (Header.decode c.hash b e.live_slot)) (slot_bytes-Synced e.live_slot)
        ∙ v.in_slot;
    backed =
        Backed-Agree c (λ i l h. sym (s.same i)) (omega (arith, v.backed.inside, s.len)) v.backed;
    behind = v.behind;
    slot_safe = Synced-IsSafe s (omega (arith, slots));
    log_safe = Synced-IsSafe s v.backed.inside;
    attempts_ok = All-map (λ a t. Attempt-Synced s t) attempts v.attempts_ok;
    settled = λ none_left. (
      subst
          (λ b.
            decoded (Header.decode c.hash b (victim_slot e.slots))
            ≡ slot_at e.slots (victim_slot e.slots))
          (sym (slot_bytes-Synced (victim_slot e.slots))) (v.settled none_left).0,
      Synced-IsSafe s (omega (arith, slots, victim_slot-lt e.slots)),
    );
    clean = v.clean;
  }
    where
      slots : (e.live_slot * header_size + header_size ≤ e.file.len) × (log_start ≤ e.file.len)
      slots =
          let l = select_live-IsLive e.slots v.live in
          omega (arith, l.in_range, v.backed.starts, v.backed.inside)

      slot_bytes-Synced : (slot : ℕ) → slot_bytes g slot ≡ slot_bytes e.file slot
      slot_bytes-Synced slot =
          bytes-Agree g.byte e.file.byte (slot * header_size) header_size (λ i l h. s.same i)

  -- Any write to the other slot keeps the invariant, once an attempt is on record.
  pub Inv-slot :
      {e : StorageEngine} {old now : Store} {attempts : List (Header × Store)} (g : File)
      → Inv c e old now attempts
      → Wrote
          (victim_slot e.slots * header_size)
          (victim_slot e.slots * header_size + header_size)
          e.file
          g
      → ¬ (attempts ≡ [])
      → Inv c (record e { file = g }) old now attempts
  Inv-slot {e} {attempts} g v w some_left = record {
    valid = v.valid;
    holds = Holds-Agree c.hash (Wrote-Agree w (inr slots.1) v.inside) (omega arith) v.holds;
    inside = omega (arith, v.inside, w.grows);
    small = v.small;
    records = v.records;
    laid =
        Laid-Agree c.hash e.file.byte g.byte log_start v.records e.end
          (Wrote-Agree w (inr slots.1) v.inside) v.laid;
    live = v.live;
    in_slot =
        ap (λ b. decoded (Header.decode c.hash b e.live_slot))
          (slot_bytes-Wrote e.live_slot w slots.0 (omega (arith, slots)))
        ∙ v.in_slot;
    backed =
        Backed-Agree c (Wrote-Agree w (inr slots.1) v.backed.inside)
          (omega (arith, v.backed.inside, w.grows)) v.backed;
    behind = v.behind;
    slot_safe = Wrote-IsSafe w slots.0 v.slot_safe;
    log_safe = Wrote-IsSafe w (inr slots.1) v.log_safe;
    attempts_ok =
        All-map
          (λ a t. record {
            backed =
                Backed-Agree c (Wrote-Agree w (inr slots.1) t.backed.inside)
                  (omega (arith, t.backed.inside, w.grows)) t.backed;
            safe = Wrote-IsSafe w (inr slots.1) t.safe;
            later = t.later;
            behind = t.behind;
          })
          attempts v.attempts_ok;
    settled = λ none_left. absurd (some_left none_left);
    clean = v.clean;
  }
    where
      slots :
          ((e.live_slot * header_size + header_size ≤ victim_slot e.slots * header_size)
            ⊎ (victim_slot e.slots * header_size + header_size ≤ e.live_slot * header_size))
          × (victim_slot e.slots * header_size + header_size ≤ log_start)
          × (e.live_slot * header_size + header_size ≤ e.file.len)
      slots = ground (
        arith,
        select_live-IsLive e.slots v.live,
        victim_slot-lt e.slots,
        victim_slot-ne-live e.slots v.live,
        v.backed.starts,
        v.backed.inside,
      )

  -- And so does a sync that fails.
  pub Inv-unsynced :
      {e : StorageEngine} {old now : Store} {attempts : List (Header × Store)}
      → Inv c e old now attempts
      → (sync e.file).0 ≢ ok tt
      → Inv c (record e { file = (sync e.file).1 }) old now attempts
  Inv-unsynced {e} v failed =
      let w = sync-Wrote e.end e.end e.file failed in
      Inv-Wrote (sync e.file).1 e.end e.end e.dirty v w (omega arith)
        (omega (arith, v.inside, w.grows)) v.small v.records (kept-Laid c v w) (λ d. d)
