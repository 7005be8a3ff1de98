-- ===== src/File/Windows/Writing.antt =====
-- The writing loop on windows: what it leaves of the file.
use cndb.Prelude.{
  ℕ, zero, suc, ◌+◌, ◌-◌, ◌≤◌, ◌<◌, ◌≡◌, ◌≢◌, ◌⊎◌, inl, inr, refl, sym, ap, ap₂, ◌∙◌, subst, Option,
  some, Bool-cases, List, [], ◌∷◌, ◌++◌, Bytes as Buffer, length, length-take, length-drop, take,
  drop, ltb, ltb→lt, ltb_false→le, arith, min,
}
use cndb.Result.{StdResult, ok, err}
use cndb.Error.{IoError, write_zero, write_failed}
use mathlib.Core.List.{Mem, mem-cons_self, mem-cons_of_mem}
use cndb.File.{File, bytes, write_bytes}
use cndb.File.Bytes.{bytes-Agree}
use cndb.File.Writes.{
  Wrote, Wrote-refl, Wrote-trans, Wrote-widen, write_bytes-Wrote, write_bytes-bytes,
  write_bytes-len,
}
use cndb.File.Windows
use cndb.File.Windows.{
  Seek, Fault, again, moves, interrupted, broken, Put, stalls, does, seek_write, next_put, give_up,
  later_seeks, write_loop,
}
use cndb.File.Windows.Loops.{bytes-append, later_seeks-le}

take-append_drop : (m n : ℕ) (buf : Buffer) → take m buf ++ take n (drop m buf) ≡ take (m + n) buf
take-append_drop zero n buf = let e : 0 + n ≡ n = omega arith in rw e refl
take-append_drop (suc m) zero [] = let e : suc m + 0 ≡ suc m = omega arith in rw e refl
take-append_drop (suc m) (suc n) [] =
    let e : suc m + suc n ≡ suc (m + suc n) = omega arith in rw e refl
take-append_drop (suc m) n (b ∷ buf) =
    let e : suc m + n ≡ suc (m + n) = omega arith in
    rw e (ap (λ l. b ∷ l) (take-append_drop m n buf))

take-all : (n : ℕ) (buf : Buffer) → length buf ≤ n → take n buf ≡ buf
take-all zero [] h = refl
take-all zero (b ∷ buf) h = absurd (omega arith)
take-all (suc n) [] h = refl
take-all (suc n) (b ∷ buf) h = ap (λ l. b ∷ l) (take-all n buf (omega arith))

module _ (buf : Buffer) (offset : ℕ) where
  -- The first `done` bytes lie in the file.
  record Begun (done : ℕ) (f : File) : Type 0 where
    laid : bytes f.byte offset done ≡ take done buf
    fits : done ≤ length buf
    inside : (done ≡ 0) ⊎ (offset + done ≤ f.len)

  abbrev part : ℕ → ℕ → Buffer
  part done n = take n (drop done buf)

  part-length : (done n : ℕ) → n ≤ length buf - done → length (part done n) ≡ n
  part-length done n h = omega (arith, length-take n (drop done buf), length-drop done buf)

  Begun-more :
      (done n : ℕ) (f : File)
      → Begun done f
      → 0 < n
      → n ≤ length buf - done
      → Begun (done + n) (write_bytes (part done n) (offset + done) f)
  Begun-more done n f b some_bytes room =
      let long = part-length done n room in
      let g = write_bytes (part done n) (offset + done) f in
      let w = write_bytes-Wrote (part done n) (offset + done) f in
      record {
        laid =
            sym (bytes-append g.byte offset done n)
            ∙ ap₂ ◌++◌
                (bytes-Agree g.byte f.byte offset done
                    (λ i lo hi. w.spared i (omega (arith, b.inside)) (inl hi))
                  ∙ b.laid)
                (subst (λ m. bytes g.byte (offset + done) m ≡ part done n) long
                  (write_bytes-bytes (part done n) (offset + done) f))
            ∙ take-append_drop done n buf;
        fits = omega (arith, b.fits);
        inside = inr (
            omega
              (arith, long, write_bytes-len (part done n) (offset + done) f (omega (arith, long))));
      }

  -- What a call does: it writes some bytes, or is interrupted, or accepts none, or fails.
  data Step (p : Put) (done : ℕ) (f : File) (out : StdResult Fault ℕ × File) : Type 0 where
    wrote :
        (n : ℕ)
        → out ≡ (ok (suc n), write_bytes (part done (suc n)) (offset + done) f)
        → suc n ≤ length buf - done
        → Step p done f out
    stopped : out ≡ (err again, f) → p ≡ does interrupted → Step p done f out
    stalled : out ≡ (ok 0, f) → p ≡ stalls → Step p done f out
    failed : out ≡ (err give_up, f) → p ≡ does broken → Step p done f out

  seek_write-Step :
      (p : Put) (done : ℕ) (f : File)
      → done < length buf
      → Step p done f (seek_write p (drop done buf) (offset + done) f)
  unfolding seek_write
  seek_write-Step stalls done f short = stalled refl refl
  seek_write-Step (does broken) done f short = failed refl refl
  seek_write-Step (does interrupted) done f short = stopped refl refl
  seek_write-Step (does (moves limit)) done f short =
      go (min (suc limit) (length (drop done buf))) refl
    where
      go :
          (n : ℕ)
          → min (suc limit) (length (drop done buf)) ≡ n
          → Step (does (moves limit)) done f (ok n, write_bytes (part done n) (offset + done) f)
      go zero e = absurd (omega (arith, length-drop done buf))
      go (suc n) e = wrote n refl (omega (arith, length-drop done buf))

  -- How the loop ends with the first `stop` bytes written: with success and the whole buffer, or
  -- before that with the error of a call that is in the list.
  pub data Ends (puts : List Put) (stop : ℕ) : StdResult IoError (Unit {0}) → Type 0 where
    complete : stop ≡ length buf → Ends puts stop (ok tt)
    stuck : stop < length buf → Mem stalls puts → Ends puts stop (err write_zero)
    broke : stop < length buf → Mem (does broken) puts → Ends puts stop (err write_failed)

  -- The first bytes of the buffer, up to some `stop`, lie in the file, and nothing else has changed.
  pub record Landed (puts : List Put) (done : ℕ) (f : File)
      (out : Option (StdResult IoError (Unit {0}) × File)) : Type 0 where
    pub result : StdResult IoError (Unit {0})
    pub after : File
    pub stop : ℕ
    pub returns : out ≡ some (result, after)
    pub ends : Ends puts stop result
    pub later : done ≤ stop
    pub changed : Wrote (offset + done) (offset + stop) f after
    pub laid : bytes after.byte offset stop ≡ take stop buf

  Ends-later :
      (puts : List Put) (stop : ℕ) (r : StdResult IoError (Unit {0}))
      → Ends (later_seeks puts) stop r
      → Ends puts stop r
  Ends-later [] stop r e = e
  Ends-later (p ∷ puts) stop _ (complete e) = complete e
  Ends-later (p ∷ puts) stop _ (stuck short m) = stuck short (mem-cons_of_mem p m)
  Ends-later (p ∷ puts) stop _ (broke short m) = broke short (mem-cons_of_mem p m)

  Landed-later :
      (puts : List Put) (done n : ℕ) (f g : File)
      {out out' : Option (StdResult IoError (Unit {0}) × File)}
      → Wrote (offset + done) (offset + (done + n)) f g
      → out ≡ out'
      → Landed (later_seeks puts) (done + n) g out'
      → Landed puts done f out
  Landed-later puts done n f g w e l = record {
    result = l.result;
    after = l.after;
    stop = l.stop;
    returns = e ∙ l.returns;
    ends = Ends-later puts l.stop l.result l.ends;
    later = omega (arith, l.later);
    changed =
        Wrote-trans (Wrote-widen (omega arith) (omega (arith, l.later)) w)
          (Wrote-widen (omega arith) (omega arith) l.changed);
    laid = l.laid;
  }

  -- An interruption uses up a call of the list.
  next_put-going :
      (puts : List Put) (all : ℕ)
      → next_put puts all ≡ does interrupted
      → length (later_seeks puts) < length puts
  next_put-going [] all e = cc
  next_put-going (p ∷ puts) all e = omega arith

  -- A call that is not one behind the end of the list is in it.
  next_put-Mem :
      (puts : List Put) (all : ℕ) (p : Put)
      → p ≢ does (moves all)
      → next_put puts all ≡ p
      → Mem p puts
  next_put-Mem [] all p other e = absurd (other (sym e))
  next_put-Mem (q ∷ puts) all p other e = subst (λ r. Mem r (q ∷ puts)) e mem-cons_self

  write_loop-Landed :
      (fuel : ℕ) (puts : List Put) (done : ℕ) (f : File)
      → Begun done f
      → length puts + (length buf - done) < fuel
      → Landed puts done f (write_loop fuel puts buf offset done f)
  unfolding write_loop
  write_loop-Landed zero puts done f b enough = absurd (omega arith)
  write_loop-Landed (suc fuel) puts done f b enough = elim (Bool-cases (ltb done (length buf))) [
    | inr full ↦ record {
      result = ok tt;
      after = f;
      stop = done;
      returns = ground arith;
      ends = complete (omega (arith, ltb_false→le done (length buf) full, b.fits));
      later = omega arith;
      changed = Wrote-refl _ _ f;
      laid = b.laid;
    }
    | inl open_yet ↦
        let short = ltb→lt done (length buf) open_yet in
        let now : StdResult IoError (Unit {0}) → Type 0 =
          λ r. write_loop (suc fuel) puts buf offset done f ≡ some (r, f) in
        let stops : (r : StdResult IoError (Unit {0}))
            → Ends puts done r
            → now r
            → Landed puts done f (write_loop (suc fuel) puts buf offset done f) =
          λ r e p. record {
            result = r;
            after = f;
            stop = done;
            returns = p;
            ends = e;
            later = omega arith;
            changed = Wrote-refl _ _ f;
            laid = b.laid;
          } in
        elim (seek_write-Step (next_put puts (length buf)) done f short) [
          | wrote n p room ↦
              Landed-later puts done (suc n) f _
                (Wrote-widen (omega arith) (omega (arith, part-length done (suc n) room))
                  (write_bytes-Wrote (part done (suc n)) (offset + done) f))
                (ground (arith, p))
                (write_loop-Landed fuel (later_seeks puts) (done + suc n)
                  (write_bytes (part done (suc n)) (offset + done) f)
                  (Begun-more done (suc n) f b (omega arith) room)
                  (omega (arith, later_seeks-le puts)))
          | stopped p e ↦ Landed-later puts done 0 f f (Wrote-refl _ _ f) (ground (arith, p)) (
              write_loop-Landed fuel (later_seeks puts) (done + 0) f
                (subst (λ n. Begun n f) (omega arith) b)
                (omega (arith, next_put-going puts (length buf) e)))
          | stalled p e ↦
              stops (err write_zero) (stuck short (next_put-Mem puts _ stalls (λ q. cc) e))
                (ground (arith, p))
          | failed p e ↦
              stops (err write_failed) (broke short (next_put-Mem puts _ (does broken) (λ q. cc) e))
                (ground (arith, p))
        ]
  ]

  -- Whatever the calls of the system do, the writing loop on windows, with more fuel than the
  -- buffer has bytes and the list of calls has entries, ends, and has written the bytes of the
  -- buffer up to some number of them to the offset in the file, changing no other byte of the
  -- file nor what has been synced. It ends with success exactly if that is the whole buffer;
  -- otherwise with `WriteZero`, and then one of the listed calls accepts no byte, or with another
  -- error, and then one of the listed calls fails.
  pub write_all_at-Lands :
      (fuel : ℕ) (puts : List Put) (f : File)
      → length puts + length buf < fuel
      → Landed puts 0 f (Windows.write_all_at fuel puts buf offset f)
  unfolding Windows.write_all_at bytes
  write_all_at-Lands fuel puts f enough =
      write_loop-Landed fuel puts 0 f
        (record { laid = refl; fits = omega arith; inside = inl refl }) (omega arith)
