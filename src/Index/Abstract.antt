-- ===== src/Index/Abstract.antt =====
-- The master index of src/storage/index.rs without the order in which its map and its set hold their
-- entries: what its `==` does not see.
use cndb.Prelude.{ℕ, suc, ◌≡◌, ◌≢◌, refl, ap, [], ◌∷◌, length, if◌then◌else◌, arith}
use mathlib.Core.Quot
use mathlib.Core.Quot.{Quot, Quot-set}
use cndb.Error.{DocId}
use cndb.Collections.{HashMap, contains, insert, add, contains_key}
use cndb.Collections.Laws.{
  contains_key-insert, get-insert, contains-add, length-add, contains_key-get,
}
use cndb.Index.{MasterIndex, insert_offset, mark_dead}
use cndb.Index.Equality.{SameIndex}

abbrev pub AbstractIndex : Type 0
AbstractIndex = Quot SameIndex

-- A new key makes the map one longer.
length-insert :
    (m : HashMap ℕ) (k v : ℕ)
    → length (insert m k v) ≡ (if contains_key m k then length m else suc (length m))
unfolding insert contains_key
length-insert [] k v = refl
length-insert ((j, w) ∷ m) k v = ground (arith, length-insert m k v)

insert_offset-SameIndex :
    (id : DocId) (offset : ℕ) (a b : MasterIndex)
    → SameIndex a b
    → SameIndex (insert_offset a id offset) (insert_offset b id offset)
unfolding insert_offset
insert_offset-SameIndex id offset a b s = record {
  offsets_len = rw (
    length-insert a.offsets id offset,
    length-insert b.offsets id offset,
    contains_key-get a.offsets id,
    contains_key-get b.offsets id,
    s.offsets id,
    s.offsets_len,
  );
  offsets =
      λ k. rw (get-insert a.offsets id k offset, get-insert b.offsets id k offset, s.offsets k);
  dead_len = s.dead_len;
  dead = s.dead;
  next_doc_id = s.next_doc_id;
}

mark_dead-SameIndex :
    (id : DocId) (a b : MasterIndex) → SameIndex a b → SameIndex (mark_dead a id) (mark_dead b id)
unfolding mark_dead
mark_dead-SameIndex id a b s = record {
  offsets_len = s.offsets_len;
  offsets = s.offsets;
  dead_len = rw (length-add a.dead id, length-add b.dead id, s.dead id, s.dead_len);
  dead = λ k. rw (contains-add a.dead id k, contains-add b.dead id k, s.dead k);
  next_doc_id = s.next_doc_id;
}

insert_offset_comm :
    (i j : DocId) (o p : ℕ) (a : MasterIndex)
    → i ≢ j
    → SameIndex (insert_offset (insert_offset a i o) j p) (insert_offset (insert_offset a j p) i o)
unfolding insert_offset
insert_offset_comm i j o p a other = record {
  offsets_len = ground (
    arith,
    length-insert (insert a.offsets i o) j p,
    length-insert a.offsets i o,
    contains_key-insert a.offsets i j o,
    length-insert (insert a.offsets j p) i o,
    length-insert a.offsets j p,
    contains_key-insert a.offsets j i p,
  );
  offsets = λ k. ground (
    arith,
    get-insert (insert a.offsets i o) j k p,
    get-insert a.offsets i k o,
    get-insert (insert a.offsets j p) i k o,
    get-insert a.offsets j k p,
  );
  dead_len = refl;
  dead = λ k. refl;
  next_doc_id = refl;
}

mark_dead_comm :
    (i j : DocId) (a : MasterIndex)
    → SameIndex (mark_dead (mark_dead a i) j) (mark_dead (mark_dead a j) i)
unfolding mark_dead
mark_dead_comm i j a = record {
  offsets_len = refl;
  offsets = λ k. refl;
  dead_len = ground (
    arith,
    length-add (add a.dead i) j,
    length-add a.dead i,
    contains-add a.dead i j,
    length-add (add a.dead j) i,
    length-add a.dead j,
    contains-add a.dead j i,
    same_key,
  );
  dead = λ k. ground (
    arith,
    contains-add (add a.dead i) j k,
    contains-add a.dead i k,
    contains-add (add a.dead j) i k,
    contains-add a.dead j k,
  );
  next_doc_id = refl;
}
  where
    same_key : i ≡ j → contains a.dead i ≡ contains a.dead j
    same_key e = ap (contains a.dead) e

-- The operations on abstract indexes.
pub abstract_insert : DocId → ℕ → AbstractIndex → AbstractIndex
abstract_insert id offset =
    Quot.lift Quot-set (λ a. Quot.mk (insert_offset a id offset))
      (λ a b s. Quot.sound (insert_offset-SameIndex id offset a b s))

pub abstract_mark_dead : DocId → AbstractIndex → AbstractIndex
abstract_mark_dead id =
    Quot.lift Quot-set (λ a. Quot.mk (mark_dead a id))
      (λ a b s. Quot.sound (mark_dead-SameIndex id a b s))

abstract_insert_swap :
    (i j : DocId) (o p : ℕ)
    → i ≢ j
    → (x : AbstractIndex)
    → abstract_insert j p (abstract_insert i o x) ≡ abstract_insert i o (abstract_insert j p x)
unfolding abstract_insert
abstract_insert_swap i j o p other =
    Quot.ind (λ x. Quot-set _ _) (λ a. Quot.sound (insert_offset_comm i j o p a other))

abstract_mark_dead_swap :
    (i j : DocId) (x : AbstractIndex)
    → abstract_mark_dead j (abstract_mark_dead i x) ≡ abstract_mark_dead i (abstract_mark_dead j x)
unfolding abstract_mark_dead
abstract_mark_dead_swap i j = Quot.ind (λ x. Quot-set _ _) (λ a. Quot.sound (mark_dead_comm i j a))

-- In the quotient of indexes by the order of their entries, two insertions of different ids may
-- be exchanged, and so may two deletions.
pub abstract_insert_comm :
    (i j : DocId) (o p : ℕ) (x : AbstractIndex)
    → i ≢ j
    → (abstract_insert j p (abstract_insert i o x) ≡ abstract_insert i o (abstract_insert j p x))
      × (abstract_mark_dead j (abstract_mark_dead i x)
          ≡ abstract_mark_dead i (abstract_mark_dead j x))
abstract_insert_comm i j o p x other =
    (abstract_insert_swap i j o p other x, abstract_mark_dead_swap i j x)
