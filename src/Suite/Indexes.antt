-- ===== src/Suite/Indexes.antt =====
-- The tests of src/storage/index.rs.
use cndb.Prelude.{
  ℕ, zero, suc, ◌*◌, ◌/◌, Bool, true, false, ◌&&◌, not, Option, none, some, List, [], ◌∷◌, length,
  take, ◌==◌, is_some, leb, bytes_eq, if◌then◌else◌, ◌^◌,
}
use cndb.Result.{StdResult, ok, err}
use cndb.Result
use cndb.Collections.{contains, get}
use cndb.Index
use cndb.Index.{
  MasterIndex, allocate_id, insert_offset, mark_dead, offset_of, is_live, live_count, dead_count,
  dead_ratio,
}
use cndb.Float.{F64, finite, infinite, nought}
use cndb.Crates.{Crates}
use cndb.Suite.{unwrap, fails, is_corrupt_index}

-- `o == Some(n)`
abbrev is_value : Option ℕ → ℕ → Bool
is_value none n = false
is_value (some m) n = m == n

abbrev pub ids_start_at_one_and_never_repeat : Bool
ids_start_at_one_and_never_repeat =
    let (id1, idx1) = allocate_id Index.empty in
    let (id2, idx2) = allocate_id idx1 in
    let (id3, idx3) = allocate_id (mark_dead (insert_offset idx2 1 128) 1) in
    id1 == 1 && (id2 == 2 && id3 == 3)

abbrev pub tombstones_hide_documents_without_losing_the_offset : Bool
tombstones_hide_documents_without_losing_the_offset =
    let idx1 = insert_offset Index.empty 1 128 in
    let idx2 = mark_dead idx1 1 in
    is_value (offset_of idx1 1) 128
    && (is_live idx1 1
        && (not (is_some (offset_of idx2 1))
            && (not (is_live idx2 1) && is_value (get idx2.offsets 1) 128)))

-- `sort_unstable`
abbrev place : ℕ → List ℕ → List ℕ
place k [] = k ∷ []
place k (j ∷ js) = let rest = place k js in if leb k j then k ∷ j ∷ js else j ∷ rest

abbrev sorted : List ℕ → List ℕ
sorted [] = []
sorted (k ∷ ks) = place k (sorted ks)

-- `a == b`, which no NaN is.
abbrev f64_eq : F64 → F64 → Bool
f64_eq (finite a) (finite b) = a == b
f64_eq infinite infinite = true
f64_eq _ _ = false

-- 0.25
abbrev quarter : F64
quarter = finite (2 ^ 1072)

-- `for i in 1..=n { idx.insert(DocId(i), i * 100); }`
abbrev hundreds : ℕ → MasterIndex
hundreds zero = Index.empty
hundreds (suc n) = insert_offset (hundreds n) (suc n) (suc n * 100)

abbrev pub counts_and_ratio_track_tombstones : Bool
counts_and_ratio_track_tombstones =
    let idx0 = hundreds 4 in
    let idx1 = mark_dead idx0 1 in
    f64_eq (dead_ratio Index.empty) nought
    && ((live_count idx0 == 4 && dead_count idx0 == 0)
        && ((live_count idx1 == 3 && dead_count idx1 == 1)
            && (f64_eq (dead_ratio idx1) quarter
                && bytes_eq (sorted (Index.live_ids idx1)) (2 ∷ 3 ∷ 4 ∷ []))))

-- `a == b` on maps: as many entries, and each entry of the one is one of the other.
abbrev same_entries : List (ℕ × ℕ) → List (ℕ × ℕ) → Bool
same_entries [] m = true
same_entries ((k, v) ∷ n) m = is_value (get m k) v && same_entries n m

abbrev same_keys : List ℕ → List ℕ → Bool
same_keys [] s = true
same_keys (k ∷ ks) s = contains s k && same_keys ks s

abbrev index_eq : MasterIndex → MasterIndex → Bool
index_eq a b =
    (length a.offsets == length b.offsets && same_entries a.offsets b.offsets)
    && ((length a.dead == length b.dead && same_keys a.dead b.dead)
        && a.next_doc_id == b.next_doc_id)

-- `for i in 1..=n { let id = idx.allocate_id(); idx.insert(id, i * 137); }`
abbrev filled : ℕ → MasterIndex
filled zero = Index.empty
filled (suc n) = let (id, idx) = allocate_id (filled n) in insert_offset idx id (suc n * 137)

module _ (c : Crates) where
  abbrev pub roundtrips_through_bincode : Bool
  roundtrips_through_bincode =
      let idx = mark_dead (filled 32) 3 in
      unwrap (Result.◌>>=◌ (Index.encode c.serialize idx) (Index.decode c.deserialize))
        (index_eq idx)

  abbrev pub rejects_a_truncated_blob : Bool
  rejects_a_truncated_blob =
      unwrap (Index.encode c.serialize Index.empty) (λ bytes.
        fails is_corrupt_index (Index.decode c.deserialize (take (length bytes / 2) bytes)))
