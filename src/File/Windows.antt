-- ===== src/File/Windows.antt =====
-- src/storage/pos_io.rs on windows, where a call may transfer a part of the buffer only, or be
-- interrupted, and a loop goes on until the buffer has been transferred.
pub mod Loops
pub mod Writing
use cndb.Prelude.{
  ℕ, zero, suc, ◌+◌, ◌-◌, Option, none, some, true, false, List, [], ◌∷◌, ◌++◌, Bytes as Buffer,
  length, take, drop, ltb, min,
}
use cndb.Result.{StdResult, ok, err}
use cndb.Error.{IoError, unexpected_eof, read_failed, write_failed, write_zero}
use cndb.File.{File, bytes, write_bytes}

-- What the system does with a call: move at most `limit + 1` bytes, or fail with the kind
-- `Interrupted`, or fail with another kind.
pub data Seek : Type 0 where
  moves : (limit : ℕ) → Seek
  interrupted broken : Seek

-- The kinds of errors that the loops tell apart.
pub data Fault : Type 0 where
  again give_up : Fault

-- `FileExt::seek_read` into a buffer with `room` bytes: it stops at the end of the file.
unfoldable pub seek_read : Seek → File → (room offset : ℕ) → StdResult Fault Buffer
seek_read (moves limit) f room offset =
    ok (bytes f.byte offset (min (suc limit) (min room (f.len - offset))))
seek_read interrupted f room offset = err again
seek_read broken f room offset = err give_up

-- What the system does with a call that writes: accept no byte of the buffer, or one of the above.
pub data Put : Type 0 where
  stalls : Put
  does : Seek → Put

-- `FileExt::seek_write`, with the number of bytes that it has written.
unfoldable pub seek_write : Put → Buffer → ℕ → File → StdResult Fault ℕ × File
seek_write stalls buf offset f = (ok 0, f)
seek_write (does (moves limit)) buf offset f =
    let n = min (suc limit) (length buf) in (ok n, write_bytes (take n buf) offset f)
seek_write (does interrupted) buf offset f = (err again, f)
seek_write (does broken) buf offset f = (err give_up, f)

-- The calls behind the end of the list move all that there is.
abbrev pub next_seek : List Seek → ℕ → Seek
next_seek [] all = moves all
next_seek (s ∷ seeks) all = s

abbrev pub next_put : List Put → ℕ → Put
next_put [] all = does (moves all)
next_put (p ∷ puts) all = p

abbrev pub later_seeks : {A : Type 0} → List A → List A
later_seeks [] = []
later_seeks (s ∷ seeks) = seeks

-- `buf` is the part of the buffer that has been filled, and its length is `done`. `none` means that
-- the fuel ran out.
unfoldable pub read_loop :
    ℕ → List Seek → File → (len offset : ℕ) → Buffer → Option (StdResult IoError Buffer)
read_loop zero seeks f len offset buf = none
read_loop (suc fuel) seeks f len offset buf =
    let done = length buf in
    elim (ltb done len) [
      | false ↦ some (ok buf)
      | true ↦ elim (seek_read (next_seek seeks len) f (len - done) (offset + done)) [
        | ok [] ↦ some (err unexpected_eof)
        | ok (b ∷ bs) ↦ read_loop fuel (later_seeks seeks) f len offset (buf ++ b ∷ bs)
        | err again ↦ read_loop fuel (later_seeks seeks) f len offset buf
        | err give_up ↦ some (err read_failed)
      ]
    ]

unfoldable pub read_exact_at :
    ℕ → List Seek → File → (len offset : ℕ) → Option (StdResult IoError Buffer)
read_exact_at fuel seeks f len offset = read_loop fuel seeks f len offset []

unfoldable pub write_loop :
    ℕ → List Put → Buffer → (offset done : ℕ) → File → Option (StdResult IoError (Unit {0}) × File)
write_loop zero puts buf offset done f = none
write_loop (suc fuel) puts buf offset done f = elim (ltb done (length buf)) [
  | false ↦ some (ok tt, f)
  | true ↦
      let (r, g) = seek_write (next_put puts (length buf)) (drop done buf) (offset + done) f in
      elim r [
        | ok zero ↦ some (err write_zero, g)
        | ok (suc n) ↦ write_loop fuel (later_seeks puts) buf offset (done + suc n) g
        | err again ↦ write_loop fuel (later_seeks puts) buf offset done g
        | err give_up ↦ some (err write_failed, g)
      ]
]

unfoldable pub write_all_at :
    ℕ → List Put → Buffer → ℕ → File → Option (StdResult IoError (Unit {0}) × File)
write_all_at fuel puts buf offset f = write_loop fuel puts buf offset 0 f
