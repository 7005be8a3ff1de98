-- ===== src/File/Bytes.antt =====
-- Reading a range back: what it depends on, and what a write to it leaves.
use cndb.Prelude.{
  ℕ, zero, suc, ◌+◌, ◌-◌, ◌<◌, ◌≤◌, ◌≡◌, refl, ap, ap₂, [], ◌∷◌, Bytes as Buffer, length, get_or,
  arith, ◌⊎◌, le→leb,
}
use cndb.Result.{ok, err}
use cndb.Error.{unexpected_eof}
use cndb.File.{File, bytes, read_exact_at}

-- Two files hold the same bytes from `lo` up to `hi`.
abbrev pub Agree : (f g : ℕ → ℕ) → (lo hi : ℕ) → Type 0
Agree f g lo hi = (i : ℕ) → lo ≤ i → i < hi → f i ≡ g i

pub bytes-Agree :
    (f g : ℕ → ℕ) (offset n : ℕ)
    → Agree f g offset (offset + n)
    → bytes f offset n ≡ bytes g offset n
unfolding bytes
bytes-Agree f g offset zero h = refl
bytes-Agree f g offset (suc n) h =
    ap₂ ◌∷◌ (h offset (omega arith) (omega arith))
      (bytes-Agree f g (suc offset) n (λ i lo hi. h i (omega arith) (omega arith)))

pub length-bytes : (f : ℕ → ℕ) (offset n : ℕ) → length (bytes f offset n) ≡ n
unfolding bytes
length-bytes f offset zero = refl
length-bytes f offset (suc n) = ap suc (length-bytes f (suc offset) n)

-- A range that a function of the position fills is the buffer of its values.
pub bytes_of :
    (f : ℕ → ℕ) (buf : Buffer) (offset : ℕ)
    → ((i : ℕ) → offset ≤ i → i < offset + length buf → f i ≡ get_or buf (i - offset) 0)
    → bytes f offset (length buf) ≡ buf
unfolding bytes
bytes_of f [] offset h = refl
bytes_of f (b ∷ bs) offset h = ap₂ ◌∷◌ first (bytes_of f bs (suc offset) rest)
  where
    first : f offset ≡ b
    first =
        let e : offset - offset ≡ 0 = omega arith in rw e at (h offset (omega arith) (omega arith))

    rest :
        (i : ℕ) → suc offset ≤ i → i < suc offset + length bs → f i ≡ get_or bs (i - suc offset) 0
    rest i lo hi =
        let e : i - offset ≡ suc (i - suc offset) = omega arith in
        rw e at (h i (omega arith) (omega arith))

pub read_exact_at_lem :
    (f : File) (n offset : ℕ)
    → offset + n ≤ f.len
    → read_exact_at f n offset ≡ ok (bytes f.byte offset n)
unfolding read_exact_at
read_exact_at_lem f zero offset h = unfold bytes in refl
read_exact_at_lem f (suc n) offset h = rw (le→leb _ _ h)

pub read_exact_at-eof :
    (f : File) (n offset : ℕ)
    → 0 < n
    → f.len < offset + n
    → read_exact_at f n offset ≡ err unexpected_eof
unfolding read_exact_at
read_exact_at-eof f zero offset p h = absurd (omega arith)
read_exact_at-eof f (suc n) offset p h = ground arith

pub read_exact_at-eq_ok :
    (f : File) (n offset : ℕ) {buf : Buffer}
    → read_exact_at f n offset ≡ ok buf
    → (buf ≡ bytes f.byte offset n) × (length buf ≡ n) × ((n ≡ 0) ⊎ (offset + n ≤ f.len))
unfolding read_exact_at
read_exact_at-eq_ok f zero offset e = unfold bytes in ground arith
read_exact_at-eq_ok f (suc n) offset e = ground (arith, length-bytes f.byte offset (suc n))
