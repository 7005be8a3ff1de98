-- ===== src/Collections/Laws.antt =====
-- The laws of the maps and sets that the other components rely on.
use cndb.Prelude.{
  ℕ, suc, ◌+◌, ◌≡◌, refl, none, some, true, false, ◌||◌, List, [], ◌∷◌, ◌==◌, if◌then◌else◌, arith,
  length, ap, is_some, Bool-cases, All, inl, inr,
}
use cndb.Collections.{
  HashSet, HashMap, contains, add, get, insert, keys, contains_key, without, IsNodup,
}

pub contains-add : (s : HashSet) (k j : ℕ) → contains (add s k) j ≡ (k == j || contains s j)
unfolding add contains
contains-add s k j = ground (arith, contains_eq s k j)
  where
    contains_eq : (s : HashSet) (k j : ℕ) → k ≡ j → contains s k ≡ contains s j
    contains_eq s k j e = ap (contains s) e

pub add-IsNodup : (s : HashSet) (k : ℕ) → IsNodup s → IsNodup (add s k)
unfolding add
add-IsNodup s k h = ground arith

-- A fresh key makes the set one longer.
pub length-add :
    (s : HashSet) (k : ℕ) → length (add s k) ≡ (if contains s k then length s else suc (length s))
unfolding add
length-add s k = ground arith

module _ {ℓ} {V : Type ℓ} where
  pub get-insert :
      (m : HashMap V) (k j : ℕ) (v : V)
      → get (insert m k v) j ≡ (if k == j then some v else get m j)
  unfolding get insert
  get-insert [] k j v = refl
  get-insert ((i, w) ∷ m) k j v = ground (arith, get-insert m k j v)

  pub contains_key-insert :
      (m : HashMap V) (k j : ℕ) (v : V)
      → contains_key (insert m k v) j ≡ (k == j || contains_key m j)
  unfolding contains_key insert
  contains_key-insert [] k j v = ground arith
  contains_key-insert ((i, w) ∷ m) k j v = ground (arith, contains_key-insert m k j v)

  pub contains-keys : (m : HashMap V) (k : ℕ) → contains (keys m) k ≡ contains_key m k
  unfolding contains keys contains_key
  contains-keys [] k = refl
  contains-keys ((i, w) ∷ m) k = ground (arith, contains-keys m k)

  pub get-none : (m : HashMap V) (k : ℕ) → contains_key m k ≡ false → get m k ≡ none
  unfolding get contains_key
  get-none [] k h = refl
  get-none ((i, w) ∷ m) k h = ground (arith, get-none m k)

  pub get-some : (m : HashMap V) (k : ℕ) → contains_key m k ≡ true → (v : V) × (get m k ≡ some v)
  unfolding get contains_key
  get-some [] k h = cc
  get-some ((i, w) ∷ m) k h = elim (Bool-cases (i == k)) [
    | inl e ↦ (w, rw e)
    | inr e ↦ rw e (get-some m k (ground arith))
  ]

  pub get-some_contains :
      (m : HashMap V) (k : ℕ) (v : V) → get m k ≡ some v → contains_key m k ≡ true
  unfolding get contains_key
  get-some_contains [] k v h = cc
  get-some_contains ((i, w) ∷ m) k v h = ground (arith, get-some_contains m k v)

  pub insert-IsNodup :
      (m : HashMap V) (k : ℕ) (v : V) → IsNodup (keys m) → IsNodup (keys (insert m k v))
  unfolding insert keys contains
  insert-IsNodup [] k v h = ground arith
  insert-IsNodup ((i, w) ∷ m) k v h = ground (
    arith,
    insert-IsNodup m k v,
    contains-keys (insert m k v) i,
    contains-keys m i,
    contains_key-insert m k i v,
  )

pub All-insert {ℓ κ} :
    {V : Type ℓ} (P : ℕ × V → Type κ) (m : HashMap V) (k : ℕ) (v : V)
    → All P m
    → P (k, v)
    → All P (insert m k v)
unfolding insert
All-insert P [] k v h p = (p, tt)
All-insert P ((j, w) ∷ m) k v h p = elim (Bool-cases (j == k)) [
  | inl e ↦ rw e (p, h.1)
  | inr e ↦ rw e (h.0, All-insert P m k v h.1 p)
]

pub All-add {κ} : (P : ℕ → Type κ) (s : HashSet) (k : ℕ) → All P s → P k → All P (add s k)
unfolding add
All-add P s k h p = elim (Bool-cases (contains s k)) [ inl e ↦ rw e h | inr e ↦ rw e (p, h) ]

-- A key occurs exactly where it has a value.
pub contains_key-get {ℓ} :
    {V : Type ℓ} (m : HashMap V) (k : ℕ) → contains_key m k ≡ is_some (get m k)
unfolding contains_key get
contains_key-get [] k = refl
contains_key-get ((j, w) ∷ m) k = ground (arith, contains_key-get m k)

-- Taking one more key away from keys that hold it once makes them one shorter.
without-cons :
    (s : HashSet) (k : ℕ) (ks : List ℕ)
    → IsNodup ks
    → contains s k ≡ false
    → length (without s ks) ≡ length (without (k ∷ s) ks) + (if contains ks k then 1 else 0)
unfolding without contains
without-cons s k [] nd h = refl
without-cons s k (j ∷ ks) nd h = ground (
  arith,
  without-cons s k ks,
  λ (e : k ≡ j). ap (contains s) e,
  λ (e : k ≡ j). ap (contains ks) e,
)

without-nil : (ks : List ℕ) → without [] ks ≡ ks
unfolding without
without-nil [] = refl
without-nil (k ∷ ks) = ap (λ l. k ∷ l) (without-nil ks)

-- A set of keys that all occur leaves as many as the difference of the sizes.
pub length-without :
    (s : HashSet) (ks : List ℕ)
    → IsNodup s
    → IsNodup ks
    → ((k : ℕ) → contains s k ≡ true → contains ks k ≡ true)
    → length (without s ks) + length s ≡ length ks
unfolding contains
length-without [] ks ns nk sub = rw without-nil (omega arith)
length-without (k ∷ s) ks ns nk sub = ground (
  arith,
  without-cons s k ks nk ns.0,
  sub k (ground arith),
  length-without s ks ns.1 nk (λ j p. sub j (ground arith)),
)
