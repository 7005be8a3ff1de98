-- ===== src/Tests/Words.antt =====
-- Numbers as eight bytes each, for the concrete serializer.
use cndb.Prelude.{
  length-append, ℕ, ◌*◌, ◌<◌, ◌^◌, ◌≡◌, refl, List, [], ◌∷◌, ◌++◌, Bytes, length, All, arith, ap₂,
}
use cndb.Prelude.Words.{to_le_bytes, from_le_bytes, from_le_bytes-to_le_bytes}

abbrev pub put_words : List ℕ → Bytes
put_words [] = []
put_words (n ∷ ns) = to_le_bytes 8 n ++ put_words ns

-- The bytes that make no whole word are left out.
abbrev pub get_words : Bytes → List ℕ
get_words (a ∷ b ∷ c ∷ d ∷ e ∷ f ∷ g ∷ h ∷ bs) =
    from_le_bytes (a ∷ b ∷ c ∷ d ∷ e ∷ f ∷ g ∷ h ∷ []) ∷ get_words bs
get_words _ = []

pub get_words-put_words : (ns : List ℕ) → All (λ n. n < 2 ^ 64) ns → get_words (put_words ns) ≡ ns
get_words-put_words [] h = refl
get_words-put_words (n ∷ ns) h =
    ap₂ (λ m ms. m ∷ ms) (from_le_bytes-to_le_bytes 8 n (omega (arith, h.0)))
      (get_words-put_words ns h.1)

pub length-put_words : (ns : List ℕ) → length (put_words ns) ≡ 8 * length ns
length-put_words [] = refl
length-put_words (n ∷ ns) =
    omega (arith, length-append (to_le_bytes 8 n) (put_words ns), length-put_words ns)
