-- ===== src/File/Crash.antt =====
-- The file that is found after a crash: a byte that has been synced, and not written since, is as it
-- was; every other byte, and the length beyond what was synced, may be anything. A write may so be
-- lost, carried out, or torn at any byte.
use cndb.Prelude.{ℕ, ◌≤◌, ◌<◌, ◌≡◌, sym, false, arith}
use cndb.File.{File, covered}
use cndb.File.Bytes.{Agree}

pub record Survives (f img : File) : Type 0 where
  pub len : f.synced_len ≤ img.len
  pub same : (i : ℕ) → i < f.synced_len → covered f.unsynced i ≡ false → img.byte i ≡ f.byte i

-- The bytes from `lo` up to `hi` are synced, and no later write reaches them.
pub record IsSafe (f : File) (lo hi : ℕ) : Type 0 where
  pub synced : hi ≤ f.synced_len
  pub clean : (i : ℕ) → lo ≤ i → i < hi → covered f.unsynced i ≡ false

-- A safe range survives every crash.
pub Survives-Agree :
    {f img : File} {lo hi : ℕ} → Survives f img → IsSafe f lo hi → Agree f.byte img.byte lo hi
Survives-Agree s safe i l h = sym (s.same i (omega (arith, safe.synced)) (safe.clean i l h))
