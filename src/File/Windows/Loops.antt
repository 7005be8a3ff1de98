-- ===== src/File/Windows/Loops.antt =====
-- The loops on windows against the functions on unix.
use cndb.Prelude.{
  ℕ, zero, suc, ◌+◌, ◌-◌, ◌≤◌, ◌<◌, ◌≡◌, ◌≢◌, ◌⊎◌, inl, inr, refl, ap, ◌∙◌, some, Bool-cases, List,
  [], ◌∷◌, ◌++◌, Bytes as Buffer, length, length-append, All, ltb, ltb→lt, ltb_false→le, arith, min,
}
use cndb.Result.{StdResult, ok, err}
use cndb.File.{File, bytes}
use cndb.File
use cndb.File.Bytes.{length-bytes, read_exact_at_lem, read_exact_at-eof}
use cndb.File.Windows
use cndb.File.Windows.{
  Seek, Fault, again, give_up, moves, interrupted, broken, seek_read, next_seek, later_seeks,
  read_loop,
}

pub bytes-append :
    (byte : ℕ → ℕ) (offset m n : ℕ)
    → bytes byte offset m ++ bytes byte (offset + m) n ≡ bytes byte offset (m + n)
unfolding bytes
bytes-append byte offset zero n =
    let e : offset + 0 ≡ offset = omega arith in let e' : 0 + n ≡ n = omega arith in rw (e, e') refl
bytes-append byte offset (suc m) n =
    let e : offset + suc m ≡ suc offset + m = omega arith in
    let e' : suc m + n ≡ suc (m + n) = omega arith in
    rw (e, e') (ap (λ l. byte offset ∷ l) (bytes-append byte (suc offset) m n))

module _ (all : ℕ) where
  pub next_seek-going :
      (seeks : List Seek)
      → All (λ s. s ≢ broken) seeks
      → (next_seek seeks all ≢ broken) × All (λ s. s ≢ broken) (later_seeks seeks)
  next_seek-going [] t = (λ e. cc, tt)
  next_seek-going (s ∷ seeks) t = t

  -- An interruption uses up a call of the list.
  pub next_seek-interrupted :
      (seeks : List Seek)
      → next_seek seeks all ≡ interrupted
      → length (later_seeks seeks) < length seeks
  next_seek-interrupted [] e = cc
  next_seek-interrupted (s ∷ seeks) e = omega arith

pub later_seeks-le : {A : Type 0} (seeks : List A) → length (later_seeks seeks) ≤ length seeks
later_seeks-le [] = omega arith
later_seeks-le (s ∷ seeks) = omega arith

read_nothing :
    (f : File) (len offset : ℕ)
    → len ≡ 0
    → File.read_exact_at f len offset ≡ ok (bytes f.byte offset len)
unfolding File.read_exact_at bytes
read_nothing f zero offset e = refl
read_nothing f (suc len) offset e = absurd (omega arith)

module _ (f : File) (len offset : ℕ) where
  -- The part that has been filled holds the bytes of the file.
  pub record Filled (buf : Buffer) : Type 0 where
    pub same : buf ≡ bytes f.byte offset (length buf)
    pub fits : length buf ≤ len
    pub inside : (length buf ≡ 0) ⊎ (offset + length buf ≤ f.len)

  Filled-more :
      (buf : Buffer) (n : ℕ)
      → Filled buf
      → n ≤ len - length buf
      → n ≤ f.len - (offset + length buf)
      → Filled (buf ++ bytes f.byte (offset + length buf) n)
  Filled-more buf n h room file =
      let long = length-append buf (bytes f.byte (offset + length buf) n) in
      let more = length-bytes f.byte (offset + length buf) n in
      record {
        same =
            ap (λ b. b ++ bytes f.byte (offset + length buf) n) h.same
            ∙ bytes-append f.byte offset (length buf) n
            ∙ ap (bytes f.byte offset) (omega (arith, long, more));
        fits = omega (arith, long, more, h.fits);
        inside = omega (arith, long, more, h.inside);
      }

  -- A call that does not break fills more of the buffer, or is interrupted, or finds the end.
  seek_read-cases :
      (s : Seek) (buf : Buffer)
      → s ≢ broken
      → Filled buf
      → length buf < len
      → ((seek_read s f (len - length buf) (offset + length buf) ≡ ok []) × (f.len < offset + len))
        ⊎ ((b : ℕ) × (bs : Buffer) × (seek_read s f (len - length buf) (offset + length buf)
              ≡ ok (b ∷ bs))
            × Filled (buf ++ b ∷ bs)
            × (length buf < length (buf ++ b ∷ bs)))
        ⊎ ((s ≡ interrupted) × (seek_read s f (len - length buf) (offset + length buf) ≡ err again))
  unfolding seek_read bytes
  seek_read-cases broken buf going h short = absurd (going refl)
  seek_read-cases interrupted buf going h short = inr (inr (refl, refl))
  seek_read-cases (moves limit) buf going h short =
      go (min (suc limit) (min (len - length buf) (f.len - (offset + length buf)))) refl
    where
      go :
          (n : ℕ)
          → min (suc limit) (min (len - length buf) (f.len - (offset + length buf))) ≡ n
          → ((◌≡◌ {A = StdResult Fault Buffer} (ok (bytes f.byte (offset + length buf) n)) (ok []))
              × (f.len < offset + len))
            ⊎ ((b : ℕ) × (bs : Buffer) × (◌≡◌ {A = StdResult Fault Buffer}
                  (ok (bytes f.byte (offset + length buf) n))
                  (ok (b ∷ bs)))
                × Filled (buf ++ b ∷ bs)
                × (length buf < length (buf ++ b ∷ bs)))
            ⊎ ((moves limit ≡ interrupted)
                × (◌≡◌ {A = StdResult Fault Buffer}
                    (ok (bytes f.byte (offset + length buf) n))
                    (err again)))
      go zero e = inl (refl, omega arith)
      go (suc n) e = inr (
          inl (
            _,
            _,
            refl,
            Filled-more buf (suc n) h (omega arith) (omega arith),
            omega (
              arith,
              length-append buf (bytes f.byte (offset + length buf) (suc n)),
              length-bytes f.byte (offset + length buf) (suc n),
            ),
          ))

  read_loop-Filled :
      (fuel : ℕ) (seeks : List Seek) (buf : Buffer)
      → All (λ s. s ≢ broken) seeks
      → Filled buf
      → length seeks + (len - length buf) < fuel
      → read_loop fuel seeks f len offset buf ≡ some (File.read_exact_at f len offset)
  unfolding read_loop
  read_loop-Filled zero seeks buf going h enough = absurd (omega arith)
  read_loop-Filled (suc fuel) seeks buf going h enough = elim (Bool-cases (ltb (length buf) len)) [
    | inr full ↦
        let all_read : length buf ≡ len =
          omega (arith, ltb_false→le (length buf) len full, h.fits) in
        ground (arith, read_filled buf h all_read, h.same ∙ ap (bytes f.byte offset) all_read)
    | inl open_yet ↦
        let short = ltb→lt (length buf) len open_yet in
        let (going1, later) = next_seek-going len seeks going in
        elim (seek_read-cases (next_seek seeks len) buf going1 h short) [
          | inl (p, over) ↦ ground (arith, p, read_exact_at-eof f len offset (omega arith) over)
          | inr (inl (b, bs, p, filled, longer)) ↦ ground (
            arith,
            p,
            read_loop-Filled fuel (later_seeks seeks) (buf ++ b ∷ bs) later filled
                (omega (arith, later_seeks-le seeks, filled.fits)),
          )
          | inr (inr (e, p)) ↦ ground (
            arith,
            p,
            read_loop-Filled fuel (later_seeks seeks) buf later h
                (omega (arith, next_seek-interrupted len seeks e)),
          )
        ]
  ]
    where
      read_filled :
          (buf : Buffer)
          → Filled buf
          → length buf ≡ len
          → File.read_exact_at f len offset ≡ ok (bytes f.byte offset len)
      read_filled buf h e = elim h.inside [
        | inr inside ↦ read_exact_at_lem f len offset (omega arith)
        | inl nothing ↦ read_nothing f len offset (omega arith)
      ]

  -- If no call of the system fails but by interruptions, then the reading loop on windows, with
  -- more fuel than the buffer has bytes and the list of calls has entries, ends with the result
  -- of the function on unix, the error at the end of the file included, however little each call
  -- reads.
  pub read_exact_at_unix :
      (fuel : ℕ) (seeks : List Seek)
      → All (λ s. s ≢ broken) seeks
      → length seeks + len < fuel
      → Windows.read_exact_at fuel seeks f len offset ≡ some (File.read_exact_at f len offset)
  unfolding Windows.read_exact_at bytes
  read_exact_at_unix fuel seeks going enough =
      read_loop-Filled fuel seeks [] going
        (record { same = refl; fits = omega arith; inside = inl refl }) (omega arith)
