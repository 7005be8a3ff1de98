-- ===== src/Collections.antt =====
-- The part of Rust's `HashMap` and `HashSet` that src/storage/index.rs uses, at keys that are
-- numbers. A map is a list of entries; the program never relies on the order.
pub mod Laws
use cndb.Prelude.{
  ℕ, zero, suc, ◌≡◌, Option, none, some, Bool, true, false, ◌||◌, List, [], ◌∷◌, ◌==◌,
  if◌then◌else◌,
}

abbrev pub HashSet : Type 0
HashSet = List ℕ

unfoldable pub contains : HashSet → ℕ → Bool
contains [] k = false
contains (j ∷ s) k = j == k || contains s k

-- `HashSet::insert`, without the flag that says whether the key is new
unfoldable pub add : HashSet → ℕ → HashSet
unfolding contains
add s k = if contains s k then s else k ∷ s

module _ {ℓ} {V : Type ℓ} where
  unfoldable pub get : List (ℕ × V) → ℕ → Option V
  get [] k = none
  get ((j, v) ∷ m) k = if j == k then some v else get m k

  unfoldable pub insert : List (ℕ × V) → ℕ → V → List (ℕ × V)
  insert [] k v = (k, v) ∷ []
  insert ((j, w) ∷ m) k v = if j == k then (k, v) ∷ m else (j, w) ∷ insert m k v

  unfoldable pub keys : List (ℕ × V) → List ℕ
  keys [] = []
  keys ((j, _) ∷ m) = j ∷ keys m

  unfoldable pub contains_key : List (ℕ × V) → ℕ → Bool
  contains_key [] k = false
  contains_key ((j, _) ∷ m) k = j == k || contains_key m k

abbrev pub HashMap {ℓ} : Type ℓ → Type ℓ
HashMap V = List (ℕ × V)

-- The entries of `xs` that are not in `s`: `filter(|k| !s.contains(k))`.
unfoldable pub without : HashSet → List ℕ → List ℕ
unfolding contains
without s [] = []
without s (k ∷ ks) = let rest = without s ks in if contains s k then rest else k ∷ rest

-- No key occurs twice.
abbrev pub IsNodup : List ℕ → Type 0
IsNodup [] = Unit
IsNodup (k ∷ ks) = (contains ks k ≡ false) × IsNodup ks
