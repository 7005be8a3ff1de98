-- ===== src/Tests/Windows.antt =====
-- The loops on windows at work: calls that move a byte or two, and one that is interrupted.
use cndb.Prelude.{All, ◌≢◌, ◌≡◌, refl, some, List, [], ◌∷◌, Bytes, ltb→lt}
use cndb.Result.{err}
use cndb.Error.{write_zero}
use cndb.File
use cndb.File.{File, write_bytes}
use cndb.File.Windows
use cndb.File.Windows.{Seek, moves, interrupted, broken, Put, does, stalls, write_loop, seek_write}
use cndb.File.Windows.Loops.{read_exact_at_unix}
use cndb.File.Windows.Writing.{Landed, write_all_at-Lands}

abbrev seeks : List Seek
seeks = moves 0 ∷ interrupted ∷ moves 1 ∷ []

abbrev text : Bytes
text = b'a' ∷ b'b' ∷ b'c' ∷ b'd' ∷ []

-- A file of seven zeros.
abbrev zeros : File
zeros = record { len = 7; byte = λ i. 0; synced_len = 7; unsynced = []; schedule = [] }

seeks_go : All (λ s. s ≢ broken) seeks
seeks_go = (λ e. cc, (λ e. cc, (λ e. cc, tt)))

read_exact_at_unix_example :
    Windows.read_exact_at 9 seeks zeros 5 1 ≡ some (File.read_exact_at zeros 5 1)
read_exact_at_unix_example = read_exact_at_unix zeros 5 1 9 seeks seeks_go (ltb→lt _ _ refl)

-- The third call accepts no byte.
abbrev puts : List Put
puts = does (moves 0) ∷ does interrupted ∷ stalls ∷ []

write_stuck :
    Windows.write_all_at 8 puts text 3 zeros
    ≡ some (err write_zero, write_bytes (b'a' ∷ []) 3 zeros)
unfolding Windows.write_all_at write_loop seek_write
write_stuck = refl

write_all_at-Lands_example : Landed text 3 puts 0 zeros (Windows.write_all_at 8 puts text 3 zeros)
write_all_at-Lands_example = write_all_at-Lands text 3 8 puts zeros (ltb→lt _ _ refl)
