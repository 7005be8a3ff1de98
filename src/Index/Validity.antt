-- ===== src/Index/Validity.antt =====
-- The invariant of the master index of src/storage/index.rs, and what keeps it.
use cndb.Prelude.{ℕ, ◌+◌, ◌≤◌, ◌<◌, ◌^◌, ◌≡◌, true, false, subst, ◌∙◌, arith}
use cndb.Error.{DocId}
use cndb.Collections.{contains, keys, contains_key}
use cndb.Collections.Laws.{
  contains-add, add-IsNodup, contains_key-insert, insert-IsNodup, get-some, get-some_contains,
  All-insert, All-add,
}
use cndb.Index.{MasterIndex, IsTyped, empty, allocate_id, insert_offset, mark_dead}
use cndb.Index.Equality.{SameIndex, SameIndex-sym}

-- Exactly the ids below `next_doc_id` have been given out; only given ids are dead.
pub record IsValid (idx : MasterIndex) : Type 0 where
  pub typed : IsTyped idx
  pub open typed use {keys_nodup, dead_nodup, offsets_u64, dead_u64, next_u64}
  pub dead_known : (k : DocId) → contains idx.dead k ≡ true → contains_key idx.offsets k ≡ true
  pub below_next : (k : DocId) → contains_key idx.offsets k ≡ true → (1 ≤ k) × (k < idx.next_doc_id)
  pub next_pos : 1 ≤ idx.next_doc_id
  pub dense : (k : DocId) → 1 ≤ k → k < idx.next_doc_id → contains_key idx.offsets k ≡ true

pub empty-IsValid : IsValid empty
unfolding keys contains contains_key
empty-IsValid = record {
  typed = record {
    keys_nodup = tt;
    dead_nodup = tt;
    offsets_u64 = tt;
    dead_u64 = tt;
    next_u64 = omega arith;
  };
  dead_known = λ k h. h;
  below_next = λ k h. cc;
  next_pos = omega arith;
  dense = λ k lo hi. absurd (omega arith);
}

-- What `append` does to the index.
abbrev pub assign : MasterIndex → ℕ → MasterIndex
assign idx offset = let (id, idx') = allocate_id idx in insert_offset idx' id offset

module _ (idx : MasterIndex) (v : IsValid idx) where
  -- The id that a valid index gives out names no document, dead or alive.
  pub allocate_id_fresh :
      (contains_key idx.offsets (allocate_id idx).0 ≡ false)
      × (contains idx.dead (allocate_id idx).0 ≡ false)
  unfolding allocate_id
  allocate_id_fresh = ground (arith, v.below_next idx.next_doc_id, v.dead_known idx.next_doc_id)

  -- Giving a valid index a new document, at an offset that is a `u64` and while ids have not run
  -- out, leaves it valid.
  pub assign-IsValid :
      (offset : ℕ) → offset < 2 ^ 64 → idx.next_doc_id + 1 < 2 ^ 64 → IsValid (assign idx offset)
  unfolding allocate_id insert_offset
  assign-IsValid offset low room = record {
    typed = record {
      keys_nodup = insert-IsNodup idx.offsets idx.next_doc_id offset v.keys_nodup;
      dead_nodup = v.dead_nodup;
      offsets_u64 = All-insert _ idx.offsets idx.next_doc_id offset v.offsets_u64 (omega arith);
      dead_u64 = v.dead_u64;
      next_u64 = omega arith;
    };
    dead_known = λ k h.
        ground (arith, v.dead_known k h, contains_key-insert idx.offsets idx.next_doc_id k offset);
    below_next = λ k h. ground (
      arith,
      v.below_next k,
      v.next_pos,
      contains_key-insert idx.offsets idx.next_doc_id k offset,
    );
    next_pos = omega arith;
    dense = λ k lo hi.
        ground (arith, v.dense k lo, contains_key-insert idx.offsets idx.next_doc_id k offset);
  }

  -- Deleting a document that a valid index knows leaves the index valid.
  pub mark_dead-IsValid :
      (id : DocId) → contains_key idx.offsets id ≡ true → IsValid (mark_dead idx id)
  unfolding mark_dead
  mark_dead-IsValid id known = record {
    typed = record {
      keys_nodup = v.keys_nodup;
      dead_nodup = add-IsNodup idx.dead id v.dead_nodup;
      offsets_u64 = v.offsets_u64;
      dead_u64 =
          All-add _ idx.dead id v.dead_u64
            (let b = v.below_next id known in omega (arith, v.next_u64));
      next_u64 = v.next_u64;
    };
    dead_known = λ k h.
        ground
          (arith, v.dead_known k, contains-add idx.dead id k, λ (e : id ≡ k). contains_key-cong e);
    below_next = v.below_next;
    next_pos = v.next_pos;
    dense = v.dense;
  }
    where
      contains_key-cong : {k : DocId} → id ≡ k → contains_key idx.offsets k ≡ true
      contains_key-cong e = rw (← e) known

contains_key-SameIndex :
    {a b : MasterIndex} (k : DocId)
    → SameIndex a b
    → contains_key b.offsets k ≡ true
    → contains_key a.offsets k ≡ true
contains_key-SameIndex {a} {b} k s h =
    let (v, p) = get-some b.offsets k h in get-some_contains a.offsets k v (s.offsets k ∙ p)

-- Validity is a property of the index up to `==`.
pub SameIndex-IsValid : {a b : MasterIndex} → IsValid a → SameIndex a b → IsTyped b → IsValid b
SameIndex-IsValid {a} {b} v s t = record {
  typed = t;
  dead_known = λ k h. contains_key-SameIndex k (SameIndex-sym s) (v.dead_known k (s.dead k ∙ h));
  below_next = λ k h.
      subst (λ n. (1 ≤ k) × (k < n)) s.next_doc_id (v.below_next k (contains_key-SameIndex k s h));
  next_pos = subst (λ n. 1 ≤ n) s.next_doc_id v.next_pos;
  dense = λ k lo hi.
      contains_key-SameIndex k (SameIndex-sym s) (v.dense k lo (omega (arith, s.next_doc_id)));
}
