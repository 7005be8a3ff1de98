-- ===== src/Prelude/Octets.antt =====
-- Buffers that hold bytes, and the words that are read from them.
use Prim.Native.Nat.{ℕ, zero, suc, ◌/◌, ◌^◌, ◌<◌}
use mathlib.Core.List.{[], ◌∷◌, ◌++◌}
use native.Mathlib.Omega.{arith}
use cndb.Prelude.Lists.{take, drop, replicate, All}
use cndb.Prelude.Slices.{Bytes, copy_at}
use cndb.Prelude.Words.{to_le_bytes, from_le_bytes}

-- Every number of the buffer is a `u8`.
unfoldable pub IsBytes : Bytes → Type 0
IsBytes = All (λ b. b < 256)

pub append-IsBytes : (xs ys : Bytes) → IsBytes xs → IsBytes ys → IsBytes (xs ++ ys)
unfolding IsBytes
append-IsBytes [] ys h k = k
append-IsBytes (x ∷ xs) ys h k = (h.0, append-IsBytes xs ys h.1 k)

pub take-IsBytes : (n : ℕ) (xs : Bytes) → IsBytes xs → IsBytes (take n xs)
unfolding IsBytes
take-IsBytes zero xs h = tt
take-IsBytes (suc n) [] h = tt
take-IsBytes (suc n) (x ∷ xs) h = (h.0, take-IsBytes n xs h.1)

pub drop-IsBytes : (n : ℕ) (xs : Bytes) → IsBytes xs → IsBytes (drop n xs)
unfolding IsBytes
drop-IsBytes zero xs h = h
drop-IsBytes (suc n) [] h = tt
drop-IsBytes (suc n) (x ∷ xs) h = drop-IsBytes n xs h.1

pub replicate-IsBytes : (n b : ℕ) → b < 256 → IsBytes (replicate n b)
unfolding IsBytes
replicate-IsBytes zero b h = tt
replicate-IsBytes (suc n) b h = (h, replicate-IsBytes n b h)

pub copy_at-IsBytes :
    (buf : Bytes) (lo : ℕ) (src : Bytes) → IsBytes buf → IsBytes src → IsBytes (copy_at buf lo src)
copy_at-IsBytes buf lo src h k =
    append-IsBytes (take lo buf) _ (take-IsBytes lo buf h)
      (append-IsBytes src _ k (drop-IsBytes _ buf h))

pub to_le_bytes-IsBytes : (w n : ℕ) → IsBytes (to_le_bytes w n)
unfolding IsBytes
to_le_bytes-IsBytes zero n = tt
to_le_bytes-IsBytes (suc w) n = (omega arith, to_le_bytes-IsBytes w (n / 256))

pow_pos : (n : ℕ) → 0 < 256 ^ n
pow_pos zero = omega arith
pow_pos (suc n) = omega (arith, pow_pos n)

-- At most `n` bytes make a word of `n` bytes.
pub from_le_bytes-take : (n : ℕ) (xs : Bytes) → IsBytes xs → from_le_bytes (take n xs) < 256 ^ n
unfolding IsBytes
from_le_bytes-take zero xs h = omega arith
from_le_bytes-take (suc n) [] h = pow_pos (suc n)
from_le_bytes-take (suc n) (x ∷ xs) h = omega (arith, from_le_bytes-take n xs h.1)
