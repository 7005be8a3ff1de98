-- ===== src/File/Writes.antt =====
-- What a write or a sync of src/storage/pos_io.rs leaves of the file, whatever its outcome.
use cndb.Prelude.{
  ℕ, ◌+◌, ◌<◌, ◌≤◌, ◌≡◌, refl, sym, ◌∙◌, ◌⊎◌, false, [], ◌∷◌, Bytes as Buffer, length, take,
  length-take, ◌≢◌, arith,
}
use cndb.Result.{ok}
use cndb.File.{
  File, Outcome, pass, fail, bytes, overwrite, write_bytes, write_all_at, transfer, next_outcome,
  advance, sync, flush, covered,
}
use cndb.File.Bytes.{bytes_of}

-- `g` is `f` after writes to bytes from `start` up to `stop` only.
pub record Wrote (start stop : ℕ) (f g : File) : Type 0 where
  pub spared : (i : ℕ) → i < f.len → (i < start) ⊎ (stop ≤ i) → g.byte i ≡ f.byte i
  pub grows : f.len ≤ g.len
  pub synced : g.synced_len ≡ f.synced_len
  pub clean : (i : ℕ) → (i < start) ⊎ (stop ≤ i) → covered g.unsynced i ≡ covered f.unsynced i

pub Wrote-refl : (start stop : ℕ) (f : File) → Wrote start stop f f
Wrote-refl start stop f = record {
  spared = λ i lt out. refl;
  grows = omega arith;
  synced = refl;
  clean = λ i out. refl;
}

pub Wrote-trans :
    {start stop : ℕ} {f g h : File}
    → Wrote start stop f g
    → Wrote start stop g h
    → Wrote start stop f h
Wrote-trans p q = record {
  spared = λ i lt out. q.spared i (omega (arith, p.grows)) out ∙ p.spared i lt out;
  grows = omega (arith, p.grows, q.grows);
  synced = q.synced ∙ p.synced;
  clean = λ i out. q.clean i out ∙ p.clean i out;
}

pub Wrote-widen :
    {start stop start' stop' : ℕ} {f g : File}
    → start' ≤ start
    → stop ≤ stop'
    → Wrote start stop f g
    → Wrote start' stop' f g
Wrote-widen lo hi w = record {
  spared = λ i lt out. w.spared i lt (omega arith);
  grows = w.grows;
  synced = w.synced;
  clean = λ i out. w.clean i (omega arith);
}

pub write_bytes-Wrote :
    (buf : Buffer) (offset : ℕ) (f : File)
    → Wrote offset (offset + length buf) f (write_bytes buf offset f)
unfolding write_bytes
write_bytes-Wrote [] offset f = Wrote-refl _ _ f
write_bytes-Wrote (b ∷ bs) offset f = record {
  spared = λ i lt out. unfold overwrite in ground arith;
  grows = ground arith;
  synced = refl;
  clean = λ i out. unfold covered in ground arith;
}

pub write_bytes-bytes :
    (buf : Buffer) (offset : ℕ) (f : File)
    → bytes (write_bytes buf offset f).byte offset (length buf) ≡ buf
unfolding write_bytes
write_bytes-bytes [] offset f = unfold bytes in refl
write_bytes-bytes (b ∷ bs) offset f =
    bytes_of _ (b ∷ bs) offset (λ i lo hi. unfold overwrite in ground arith)

pub write_bytes-len :
    (buf : Buffer) (offset : ℕ) (f : File)
    → 0 < length buf
    → offset + length buf ≤ (write_bytes buf offset f).len
unfolding write_bytes
write_bytes-len [] offset f h = absurd (omega arith)
write_bytes-len (b ∷ bs) offset f h = ground arith

Wrote-advance :
    {start stop : ℕ} (f : File) {g : File} → Wrote start stop (advance f) g → Wrote start stop f g
unfolding advance
Wrote-advance f w = record {
  spared = w.spared;
  grows = w.grows;
  synced = w.synced;
  clean = w.clean;
}

transfer-Wrote :
    (o : Outcome) (buf : Buffer) (offset : ℕ) (f : File)
    → Wrote offset (offset + length buf) f (transfer o buf offset f).1
unfolding transfer
transfer-Wrote pass buf offset f = write_bytes-Wrote buf offset f
transfer-Wrote (fail n) buf offset f =
    Wrote-widen (omega arith) (omega (arith, length-take n buf))
      (write_bytes-Wrote (take n buf) offset f)

transfer-ok :
    (o : Outcome) (buf : Buffer) (offset : ℕ) (f : File)
    → (transfer o buf offset f).0 ≡ ok tt
    → transfer o buf offset f ≡ (ok tt, write_bytes buf offset f)
unfolding transfer
transfer-ok pass buf offset f h = refl
transfer-ok (fail n) buf offset f h = cc

-- Whatever its outcome, a write changes no byte of the file outside of its own range, does not
-- shorten the file, does not change what has been synced, and leaves no byte outside of its range
-- waiting for a sync that was not.
pub write_all_at-Wrote :
    (buf : Buffer) (offset : ℕ) (f : File)
    → Wrote offset (offset + length buf) f (write_all_at buf offset f).1
unfolding write_all_at
write_all_at-Wrote [] offset f = Wrote-refl _ _ f
write_all_at-Wrote (b ∷ bs) offset f =
    Wrote-advance f (transfer-Wrote (next_outcome f.schedule) (b ∷ bs) offset (advance f))

-- A write that succeeds has put the whole buffer where it can be read back.
pub write_all_at-bytes :
    (buf : Buffer) (offset : ℕ) (f : File)
    → (write_all_at buf offset f).0 ≡ ok tt
    → bytes (write_all_at buf offset f).1.byte offset (length buf) ≡ buf
unfolding write_all_at
write_all_at-bytes [] offset f h = unfold bytes in refl
write_all_at-bytes (b ∷ bs) offset f h =
    rw (transfer-ok (next_outcome f.schedule) (b ∷ bs) offset (advance f) h)
      (write_bytes-bytes (b ∷ bs) offset (advance f))

pub write_all_at-len :
    (buf : Buffer) (offset : ℕ) (f : File)
    → (write_all_at buf offset f).0 ≡ ok tt
    → 0 < length buf
    → offset + length buf ≤ (write_all_at buf offset f).1.len
unfolding write_all_at
write_all_at-len [] offset f h p = absurd (omega arith)
write_all_at-len (b ∷ bs) offset f h p =
    rw (transfer-ok (next_outcome f.schedule) (b ∷ bs) offset (advance f) h)
      (write_bytes-len (b ∷ bs) offset (advance f) p)

-- What a sync leaves: the bytes as they were, and on success nothing that a crash could lose.
pub record Synced (f g : File) : Type 0 where
  pub same : (i : ℕ) → g.byte i ≡ f.byte i
  pub len : g.len ≡ f.len
  pub synced_len : g.synced_len ≡ f.len
  pub clean : (i : ℕ) → covered g.unsynced i ≡ false

pub Synced-self : {f g : File} → Synced f g → Synced g g
Synced-self s = record {
  same = λ i. refl;
  len = refl;
  synced_len = s.synced_len ∙ sym s.len;
  clean = s.clean;
}

pub sync-Wrote : (start stop : ℕ) (f : File) → (sync f).0 ≢ ok tt → Wrote start stop f (sync f).1
unfolding sync
sync-Wrote start stop f h = flush-Wrote (next_outcome f.schedule) f h
  where
    flush-Wrote :
        (o : Outcome) (f : File)
        → (flush o (advance f)).0 ≢ ok tt
        → Wrote start stop f (flush o (advance f)).1
    flush-Wrote pass f h = unfold flush in absurd (h refl)
    flush-Wrote (fail n) f h = unfold flush in Wrote-advance f (Wrote-refl start stop (advance f))

pub sync-Synced : (f : File) → (sync f).0 ≡ ok tt → Synced f (sync f).1
unfolding sync covered
sync-Synced f h = flush-Synced (next_outcome f.schedule) f h
  where
    flush-Synced :
        (o : Outcome) (f : File)
        → (flush o (advance f)).0 ≡ ok tt
        → Synced f (flush o (advance f)).1
    flush-Synced pass f h =
        unfold flush advance in
        record { same = λ i. refl; len = refl; synced_len = refl; clean = λ i. refl }
    flush-Synced (fail n) f h = unfold flush in cc
