-- ===== src/File/Calm.antt =====
-- A file whose calls are all carried out.
use cndb.Prelude.{ℕ, ◌≡◌, refl, [], ◌∷◌, Bytes as Buffer}
use cndb.Result.{ok}
use cndb.File.{File, write_bytes, write_all_at, advance, sync}

abbrev pub IsCalm : File → Type 0
IsCalm f = f.schedule ≡ []

write_bytes-schedule :
    (buf : Buffer) (offset : ℕ) (f : File) → (write_bytes buf offset f).schedule ≡ f.schedule
unfolding write_bytes
write_bytes-schedule [] offset f = refl
write_bytes-schedule (b ∷ bs) offset f = refl

pub write_all_at-IsCalm :
    (buf : Buffer) (offset : ℕ) (f : File)
    → IsCalm f
    → ((write_all_at buf offset f).0 ≡ ok tt) × IsCalm (write_all_at buf offset f).1
unfolding write_all_at
write_all_at-IsCalm [] offset f calm = (refl, calm)
write_all_at-IsCalm (b ∷ bs) offset f calm =
    rw calm (refl, rw write_bytes-schedule (unfold advance in refl))

pub sync-IsCalm : (f : File) → IsCalm f → ((sync f).0 ≡ ok tt) × IsCalm (sync f).1
unfolding sync
sync-IsCalm f calm = rw calm (refl, unfold advance in refl)
