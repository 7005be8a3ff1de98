-- ===== src/Index.antt =====
-- src/storage/index.rs: the master index, which maps each document to its offset in the log.
pub mod Validity
pub mod Equality
pub mod Counts
pub mod Ratio
pub mod Lookup
pub mod Abstract
use cndb.Prelude.{
  ℕ, ◌+◌, ◌-◌, ◌%◌, ◌<◌, All, ◌^◌, Option, none, some, Bool, ◌&&◌, not, String, List, [], Bytes,
  length, if◌then◌else◌, ◌==◌,
}
use cndb.Float.{F64, nought, of_usize, div}
use cndb.Prelude.Words.{u64}
use cndb.Result.{StdResult, map_err}
use cndb.Error.{DocId, Result, corrupt_index, bincode_error}
use cndb.Collections.{
  HashMap, HashSet, contains, add, get, insert, keys, contains_key, without, IsNodup,
}

pub record MasterIndex : Type 0 where
  pub offsets : HashMap ℕ
  pub dead : HashSet
  pub next_doc_id : ℕ

-- What the types of the fields guarantee in Rust: the keys of a map and the elements of a set are
-- distinct, and each number is a `u64`.
pub record IsTyped (idx : MasterIndex) : Type 0 where
  pub keys_nodup : IsNodup (keys idx.offsets)
  pub dead_nodup : IsNodup idx.dead
  pub offsets_u64 : All (λ (k, v). (k < 2 ^ 64) × (v < 2 ^ 64)) idx.offsets
  pub dead_u64 : All (λ k. k < 2 ^ 64) idx.dead
  pub next_u64 : idx.next_doc_id < 2 ^ 64

abbrev pub empty : MasterIndex
empty = record { offsets = []; dead = []; next_doc_id = 1 }

unfoldable pub allocate_id : MasterIndex → DocId × MasterIndex
allocate_id idx = (idx.next_doc_id, record idx { next_doc_id = u64 (idx.next_doc_id + 1) })

unfoldable pub insert_offset : MasterIndex → DocId → ℕ → MasterIndex
insert_offset idx id offset = record idx { offsets = insert idx.offsets id offset }

-- `index.dead.insert(id)`, which the engine calls
unfoldable pub mark_dead : MasterIndex → DocId → MasterIndex
mark_dead idx id = record idx { dead = add idx.dead id }

unfoldable pub offset_of : MasterIndex → DocId → Option ℕ
offset_of idx id = if contains idx.dead id then none else get idx.offsets id

unfoldable pub is_live : MasterIndex → DocId → Bool
is_live idx id = contains_key idx.offsets id && not (contains idx.dead id)

-- The subtraction of two `usize`, with its wrap-around.
unfoldable pub live_count : MasterIndex → ℕ
live_count idx = (length idx.offsets + 2 ^ 64 - length idx.dead) % 2 ^ 64

unfoldable pub dead_count : MasterIndex → ℕ
dead_count idx = length idx.dead

unfoldable pub dead_ratio : MasterIndex → F64
dead_ratio idx =
    if length idx.offsets == 0
    then nought
    else div (of_usize (length idx.dead)) (of_usize (length idx.offsets))

unfoldable pub live_ids : MasterIndex → List DocId
live_ids idx = without idx.dead (keys idx.offsets)

-- `bincode::serialize` and `bincode::deserialize` are the parameters.
unfoldable pub encode : (MasterIndex → StdResult String Bytes) → MasterIndex → Result Bytes
encode serialize idx = map_err (λ e. corrupt_index (bincode_error e)) (serialize idx)

unfoldable pub decode : (Bytes → StdResult String MasterIndex) → Bytes → Result MasterIndex
decode deserialize bytes = map_err (λ e. corrupt_index (bincode_error e)) (deserialize bytes)
