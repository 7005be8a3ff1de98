-- ===== src/Tests/Bincode.antt =====
-- Concrete functions for the crates of the storage engine, and the laws that they meet: a sum for
-- the checksum, and an index as the words that bincode writes.
use cndb.Prelude.{
  length-append, ℕ, suc, ◌+◌, ◌*◌, ◌%◌, ◌<◌, ◌^◌, ◌≡◌, refl, sym, ap, subst, ◌∙◌, ◌↔◌, Option, none,
  some, Bool, true, Bool-cases, ◌&&◌, inl, inr, not, List, [], ◌∷◌, ◌++◌, String, Bytes, length,
  All, ltb, if◌then◌else◌, arith, lt→ltb,
}
use cndb.Result.{StdResult, ok, err}
use cndb.Collections.{contains, keys, IsNodup}
use cndb.Index.{MasterIndex, IsTyped}
use cndb.Index.Equality.{SameIndex-refl}
use cndb.Crates.{Crates, IsLawful}
use cndb.Tests.Words.{put_words, get_words, get_words-put_words, length-put_words}

abbrev pub byte_sum : Bytes → ℕ
byte_sum [] = 0
byte_sum (b ∷ bs) = b + byte_sum bs

abbrev put_pairs : List (ℕ × ℕ) → List ℕ
put_pairs [] = []
put_pairs ((k, v) ∷ m) = k ∷ v ∷ put_pairs m

abbrev pub words_of : MasterIndex → List ℕ
words_of idx =
    idx.next_doc_id ∷ length idx.dead ∷ length idx.offsets ∷ (put_pairs idx.offsets ++ idx.dead)

abbrev get_pairs : ℕ → List ℕ → List (ℕ × ℕ) × List ℕ
get_pairs (suc n) (k ∷ v ∷ ws) = let (m, rest) = get_pairs n ws in ((k, v) ∷ m, rest)
get_pairs _ ws = ([], ws)

-- The tests that make a value of the type.
abbrev nodup : List ℕ → Bool
nodup [] = true
nodup (k ∷ ks) = not (contains ks k) && nodup ks

abbrev pairs_u64 : List (ℕ × ℕ) → Bool
pairs_u64 [] = true
pairs_u64 ((k, v) ∷ m) = (ltb k (2 ^ 64) && ltb v (2 ^ 64)) && pairs_u64 m

abbrev words_u64 : List ℕ → Bool
words_u64 [] = true
words_u64 (k ∷ ks) = ltb k (2 ^ 64) && words_u64 ks

abbrev typed : MasterIndex → Bool
typed idx =
    nodup (keys idx.offsets)
    && (nodup idx.dead
        && (pairs_u64 idx.offsets && (words_u64 idx.dead && ltb idx.next_doc_id (2 ^ 64))))

abbrev index_of : List ℕ → Option MasterIndex
index_of (next ∷ m ∷ n ∷ ws) =
    let (offsets, dead) = get_pairs n ws in
    some (record { offsets = offsets; dead = dead; next_doc_id = next })
index_of _ = none

abbrev checked : Option MasterIndex → StdResult String MasterIndex
checked none = err "too short"
checked (some idx) = if typed idx then ok idx else err "not an index"

abbrev pub serialize : MasterIndex → StdResult String Bytes
serialize idx =
    let bs = put_words (words_of idx) in if ltb (length bs) (2 ^ 64) then ok bs else err "too long"

abbrev pub deserialize : Bytes → StdResult String MasterIndex
deserialize bs = checked (index_of (get_words bs))

abbrev pub crates : Crates
crates = record {
  hash = λ bs. byte_sum bs % 2 ^ 32;
  serialize = serialize;
  deserialize = deserialize;
}

nodup_iff : (ks : List ℕ) → (nodup ks ≡ true) ↔ IsNodup ks
nodup_iff [] = (λ h. tt, λ h. refl)
nodup_iff (k ∷ ks) = ground (arith, nodup_iff ks)

pairs_u64_iff :
    (m : List (ℕ × ℕ)) → (pairs_u64 m ≡ true) ↔ All (λ (k, v). (k < 2 ^ 64) × (v < 2 ^ 64)) m
pairs_u64_iff [] = (λ h. tt, λ h. refl)
pairs_u64_iff ((k, v) ∷ m) = ground (arith, pairs_u64_iff m)

words_u64_iff : (ks : List ℕ) → (words_u64 ks ≡ true) ↔ All (λ k. k < 2 ^ 64) ks
words_u64_iff [] = (λ h. tt, λ h. refl)
words_u64_iff (k ∷ ks) = ground (arith, words_u64_iff ks)

typed→IsTyped : (idx : MasterIndex) → typed idx ≡ true → IsTyped idx
typed→IsTyped idx h = record {
  keys_nodup = (nodup_iff (keys idx.offsets)).0 (ground arith);
  dead_nodup = (nodup_iff idx.dead).0 (ground arith);
  offsets_u64 = (pairs_u64_iff idx.offsets).0 (ground arith);
  dead_u64 = (words_u64_iff idx.dead).0 (ground arith);
  next_u64 = ground arith;
}

IsTyped→typed : (idx : MasterIndex) → IsTyped idx → typed idx ≡ true
IsTyped→typed idx t =
    rw
      (
        (nodup_iff (keys idx.offsets)).1 t.keys_nodup,
        (nodup_iff idx.dead).1 t.dead_nodup,
        (pairs_u64_iff idx.offsets).1 t.offsets_u64,
        (words_u64_iff idx.dead).1 t.dead_u64,
        lt→ltb idx.next_doc_id (2 ^ 64) t.next_u64,
      )
      refl

get_pairs-put_pairs :
    (m : List (ℕ × ℕ)) (rest : List ℕ) → get_pairs (length m) (put_pairs m ++ rest) ≡ (m, rest)
get_pairs-put_pairs [] rest = refl
get_pairs-put_pairs ((k, v) ∷ m) rest = rw (get_pairs-put_pairs m rest) refl

put_pairs_u64 :
    (m : List (ℕ × ℕ)) (rest : List ℕ)
    → All (λ (k, v). (k < 2 ^ 64) × (v < 2 ^ 64)) m
    → All (λ k. k < 2 ^ 64) rest
    → All (λ k. k < 2 ^ 64) (put_pairs m ++ rest)
put_pairs_u64 [] rest h t = t
put_pairs_u64 ((k, v) ∷ m) rest h t = (h.0.0, (h.0.1, put_pairs_u64 m rest h.1 t))

length-put_pairs : (m : List (ℕ × ℕ)) → length (put_pairs m) ≡ 2 * length m
length-put_pairs [] = refl
length-put_pairs ((k, v) ∷ m) = omega (arith, length-put_pairs m)

length-serialized :
    (idx : MasterIndex)
    → length (put_words (words_of idx)) ≡ 8 * (3 + 2 * length idx.offsets + length idx.dead)
length-serialized idx = omega (
  arith,
  length-put_words (words_of idx),
  length-append (put_pairs idx.offsets) idx.dead,
  length-put_pairs idx.offsets,
)

pub serialize-ok :
    (idx : MasterIndex) (bs : Bytes)
    → serialize idx ≡ ok bs
    → (put_words (words_of idx) ≡ bs) × (length bs < 2 ^ 64)
serialize-ok idx bs h = elim (Bool-cases (ltb (length (put_words (words_of idx))) (2 ^ 64))) [
  | inl fits ↦ ground arith
  | inr long ↦ absurd (ground arith)
]

words_of_u64 :
    (idx : MasterIndex)
    → IsTyped idx
    → length (put_words (words_of idx)) < 2 ^ 64
    → All (λ k. k < 2 ^ 64) (words_of idx)
words_of_u64 idx t fits = (
  t.next_u64,
  (
    omega (arith, length-serialized idx),
    (
      omega (arith, length-serialized idx),
      put_pairs_u64 idx.offsets idx.dead t.offsets_u64 t.dead_u64,
    ),
  ),
)

deserialize-put_words :
    (idx : MasterIndex)
    → IsTyped idx
    → length (put_words (words_of idx)) < 2 ^ 64
    → deserialize (put_words (words_of idx)) ≡ ok idx
deserialize-put_words idx t fits =
    ap (λ ws. checked (index_of ws)) (get_words-put_words (words_of idx) (words_of_u64 idx t fits))
    ∙ ap
        (λ (m : List (ℕ × ℕ) × List ℕ).
          checked (some (record { offsets = m.0; dead = m.1; next_doc_id = idx.next_doc_id })))
        (get_pairs-put_pairs idx.offsets idx.dead)
    ∙ rw (IsTyped→typed idx t) refl

pub crates-IsLawful : IsLawful crates
crates-IsLawful = record {
  hash-lt = λ bs. omega arith;
  deserialize-serialize = λ idx bs t h.
      let (same, fits) = serialize-ok idx bs h in
      (
        idx,
        ap deserialize (sym same)
            ∙ deserialize-put_words idx t (subst (λ b. length b < 2 ^ 64) (sym same) fits),
        SameIndex-refl idx,
      );
  deserialize-IsTyped = λ bs idx h. checked-IsTyped (index_of (get_words bs)) idx h;
  serialize-length = λ idx bs h.
      let (same, fits) = serialize-ok idx bs h in
      (omega (arith, length-serialized idx, ap length same), fits);
}
  where
    checked-IsTyped :
        (o : Option MasterIndex) (idx : MasterIndex) → checked o ≡ ok idx → IsTyped idx
    checked-IsTyped none idx h = cc
    checked-IsTyped (some i) idx h = elim (Bool-cases (typed i)) [
      | inl t ↦ typed→IsTyped idx (ground arith)
      | inr t ↦ absurd (ground arith)
    ]
