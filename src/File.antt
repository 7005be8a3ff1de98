-- ===== src/File.antt =====
-- The file under the engine: positioned reads and writes (src/storage/pos_io.rs over std's
-- `FileExt`), `sync_data`, and what may be left of the file after a crash.
pub mod Bytes
pub mod Writes
pub mod Crash
pub mod Calm
pub mod Windows
use cndb.Prelude.{
  ℕ, zero, suc, ◌+◌, ◌-◌, ◌<◌, ◌≤◌, ◌≡◌, Bool, ◌&&◌, ◌||◌, ◌⊎◌, List, [], ◌∷◌, Bytes as Buffer,
  length, get_or, take, ltb, leb, false, if◌then◌else◌, All,
}
use cndb.Result.{StdResult, ok, err}
use cndb.Error.{IoError, unexpected_eof, write_failed, sync_failed}

pub record Span : Type 0 where
  pub start : ℕ
  pub len : ℕ

-- What the operating system does with a call: carry it out, or fail. A failing write has first
-- transferred some bytes.
pub data Outcome : Type 0 where
  pass : Outcome
  fail : (transferred : ℕ) → Outcome

-- `byte` and `len` are what reads see. `unsynced` are the spans written since the last sync, and
-- `synced_len` is the length at that sync. `schedule` holds the outcomes of the coming calls; all
-- calls behind its end are carried out.
pub record File : Type 0 where
  pub len : ℕ
  pub byte : ℕ → ℕ
  pub synced_len : ℕ
  pub unsynced : List Span
  pub schedule : List Outcome

-- `file.metadata()?.len()`
abbrev pub file_len : File → ℕ
file_len f = f.len

-- `n` bytes from `offset` on
unfoldable pub bytes : (ℕ → ℕ) → ℕ → ℕ → Buffer
bytes byte offset zero = []
bytes byte offset (suc n) = byte offset ∷ bytes byte (suc offset) n

-- Filling an empty buffer asks nothing of the file.
unfoldable pub read_exact_at : File → (n offset : ℕ) → StdResult IoError Buffer
read_exact_at f zero offset = ok []
read_exact_at f (suc n) offset =
    if leb (offset + suc n) f.len then ok (bytes f.byte offset (suc n)) else err unexpected_eof

-- A byte behind the old end that the write does not reach reads as 0.
unfoldable pub overwrite : File → Buffer → ℕ → ℕ → ℕ
overwrite f buf offset i =
    if leb offset i && ltb i (offset + length buf)
    then get_or buf (i - offset) 0
    else if ltb i f.len
    then f.byte i
    else 0

unfoldable pub write_bytes : Buffer → ℕ → File → File
write_bytes [] offset f = f
write_bytes (b ∷ bs) offset f =
    let end : ℕ = offset + length (b ∷ bs) in
    record f {
      len = if ltb f.len end then end else f.len;
      byte = overwrite f (b ∷ bs) offset;
      unsynced = record { start = offset; len = length (b ∷ bs) } ∷ f.unsynced;
    }

next_outcome : List Outcome → Outcome
next_outcome [] = pass
next_outcome (o ∷ os) = o

later_outcomes : List Outcome → List Outcome
later_outcomes [] = []
later_outcomes (o ∷ os) = os

unfoldable pub advance : File → File
unfolding later_outcomes
advance f = record f { schedule = later_outcomes f.schedule }

transfer : Outcome → Buffer → ℕ → File → StdResult IoError (Unit {0}) × File
transfer pass buf offset f = (ok tt, write_bytes buf offset f)
transfer (fail n) buf offset f = (err write_failed, write_bytes (take n buf) offset f)

-- Writing an empty buffer makes no call.
unfoldable pub write_all_at : Buffer → ℕ → File → StdResult IoError (Unit {0}) × File
unfolding transfer next_outcome
write_all_at [] offset f = (ok tt, f)
write_all_at (b ∷ bs) offset f = transfer (next_outcome f.schedule) (b ∷ bs) offset (advance f)

flush : Outcome → File → StdResult IoError (Unit {0}) × File
flush pass f = (ok tt, record f { synced_len = f.len; unsynced = [] })
flush (fail n) f = (err sync_failed, f)

-- `sync_data` and `sync_all`
unfoldable pub sync : File → StdResult IoError (Unit {0}) × File
unfolding flush next_outcome
sync f = flush (next_outcome f.schedule) (advance f)

-- Some write since the last sync reaches byte `i`.
unfoldable pub covered : List Span → ℕ → Bool
covered [] i = false
covered (s ∷ ss) i = (leb s.start i && ltb i (s.start + s.len)) || covered ss i
