-- ===== src/Engine/Accessors.antt =====
-- The accessors of `StorageEngine` in src/storage/engine.rs.
use cndb.Prelude.{ℕ, Bool, String}
use cndb.Index.{MasterIndex}
use cndb.Engine.{StorageEngine}

unfoldable pub generation : StorageEngine → ℕ
generation e = e.header.generation

unfoldable pub live_slot : StorageEngine → ℕ
live_slot e = e.live_slot

unfoldable pub is_dirty : StorageEngine → Bool
is_dirty e = e.dirty

unfoldable pub path : StorageEngine → String
path e = e.path

unfoldable pub index : StorageEngine → MasterIndex
index e = e.index
