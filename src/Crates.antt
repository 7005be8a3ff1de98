-- ===== src/Crates.antt =====
-- The third-party crates that the storage engine calls: `crc32fast::hash`, and `bincode::serialize`
-- and `bincode::deserialize` at the type `MasterIndex`. Their code is not the program's, so they
-- are parameters, and `IsLawful` states what their documentation promises.
use cndb.Prelude.{ℕ, ◌≤◌, ◌<◌, ◌^◌, ◌≡◌, String, Bytes, length}
use cndb.Result.{StdResult, ok}
use cndb.Index.{MasterIndex, IsTyped}
use cndb.Index.Equality.{SameIndex}

pub record Crates : Type 0 where
  pub hash : Bytes → ℕ
  pub serialize : MasterIndex → StdResult String Bytes
  pub deserialize : Bytes → StdResult String MasterIndex

pub record IsLawful (c : Crates) : Type 0 where
  -- The checksum is a `u32`.
  pub hash-lt : (bs : Bytes) → c.hash bs < 2 ^ 32
  -- What is serialized is deserialized to an equal index; the order of a map's entries may differ.
  pub deserialize-serialize :
      (idx : MasterIndex) (bs : Bytes)
      → IsTyped idx
      → c.serialize idx ≡ ok bs
      → (idx' : MasterIndex) × (c.deserialize bs ≡ ok idx') × SameIndex idx idx'
  -- Whatever is deserialized is a value of the type.
  pub deserialize-IsTyped :
      (bs : Bytes) (idx : MasterIndex) → c.deserialize bs ≡ ok idx → IsTyped idx
  -- The map and the set are written with their lengths, and then `next_doc_id`: three `u64` of eight
  -- bytes at least. The length of a `Vec` is a `usize`.
  pub serialize-length :
      (idx : MasterIndex) (bs : Bytes)
      → c.serialize idx ≡ ok bs
      → (24 ≤ length bs) × (length bs < 2 ^ 64)
