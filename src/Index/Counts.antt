-- ===== src/Index/Counts.antt =====
-- The counts of src/storage/index.rs against the documents that they count.
use cndb.Prelude.{
  ℕ, zero, suc, ◌+◌, ◌-◌, ◌≤◌, true, ◌↔◌, ◌≡◌, refl, ap, List, [], ◌∷◌, arith, length,
}
use cndb.Collections.{keys, without, contains, IsNodup}
use cndb.Collections.Laws.{contains-keys, length-without}
use cndb.Index.{MasterIndex, live_count, dead_count, live_ids}
use cndb.Index.Validity.{IsValid}

length-keys {ℓ} : {V : Type ℓ} (m : List (ℕ × V)) → length (keys m) ≡ length m
unfolding keys
length-keys [] = refl
length-keys ((j, v) ∷ m) = ap suc (length-keys m)

-- The ids from 1 to `n`.
abbrev up_to : ℕ → List ℕ
up_to zero = []
up_to (suc n) = suc n ∷ up_to n

contains-up_to : (n k : ℕ) → (contains (up_to n) k ≡ true) ↔ ((1 ≤ k) × (k ≤ n))
unfolding contains
contains-up_to zero k = ground arith
contains-up_to (suc n) k = ground (arith, contains-up_to n k)

up_to-IsNodup : (n : ℕ) → IsNodup (up_to n)
up_to-IsNodup zero = tt
up_to-IsNodup (suc n) = ground (arith, contains-up_to n (suc n), up_to-IsNodup n)

length-up_to : (n : ℕ) → length (up_to n) ≡ n
length-up_to zero = refl
length-up_to (suc n) = ap suc (length-up_to n)

module _ (idx : MasterIndex) (v : IsValid idx) where
  -- There are as many entries as ids that have been given out.
  pub length-offsets : length idx.offsets + 1 ≡ idx.next_doc_id
  length-offsets = omega (
    arith,
    v.next_pos,
    length-keys idx.offsets,
    length-up_to (idx.next_doc_id - 1),
    length-without (keys idx.offsets) (up_to (idx.next_doc_id - 1)) v.keys_nodup
        (up_to-IsNodup (idx.next_doc_id - 1)) below,
    length-without (up_to (idx.next_doc_id - 1)) (keys idx.offsets)
        (up_to-IsNodup (idx.next_doc_id - 1)) v.keys_nodup above,
  )
    where
      below :
          (k : ℕ)
          → contains (keys idx.offsets) k ≡ true
          → contains (up_to (idx.next_doc_id - 1)) k ≡ true
      below k h = ground (
        arith,
        contains-keys idx.offsets k,
        v.below_next k,
        contains-up_to (idx.next_doc_id - 1) k,
      )

      above :
          (k : ℕ)
          → contains (up_to (idx.next_doc_id - 1)) k ≡ true
          → contains (keys idx.offsets) k ≡ true
      above k h = ground (
        arith,
        contains-keys idx.offsets k,
        v.dense k,
        v.next_pos,
        contains-up_to (idx.next_doc_id - 1) k,
      )

  -- In a valid index `live_count` is the number of ids that `live_ids` lists, and together with
  -- `dead_count` it is one less than the next id, the number of ids that have been given out: the
  -- subtraction does not wrap around.
  pub live_count-eq_length :
      (live_count idx ≡ length (live_ids idx))
      × (live_count idx + dead_count idx + 1 ≡ idx.next_doc_id)
  unfolding live_count live_ids dead_count
  live_count-eq_length = omega (arith, counted, length-keys idx.offsets, length-offsets, v.next_u64)
    where
      counted :
          length (without idx.dead (keys idx.offsets)) + length idx.dead ≡ length (keys idx.offsets)
      counted =
          length-without idx.dead (keys idx.offsets) v.dead_nodup v.keys_nodup
            (λ k h. rw (contains-keys idx.offsets k) (v.dead_known k h))
