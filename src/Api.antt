-- ===== src/Api.antt =====
-- src/api.rs: the handle of a database, which stores JSON objects in the engine.
pub mod Handles
pub mod Contents
pub mod Sessions
pub mod Lives
pub mod Prefixes
pub mod Progress
pub mod Copies
use cndb.Prelude.{ℕ, Option, List, Bool, String, Bytes}
use cndb.Result
use cndb.Result.{ok, err}
use cndb.Error.{DocId, RecordKind, Result}
use cndb.Crates.{Crates}
use cndb.Document.{DocCrates, to_bson_bytes, from_bson_bytes}
use cndb.Exec.{Exec, lift, ◌>>=◌}
use cndb.Engine
use cndb.Engine.Open
use cndb.Engine.Commit
use cndb.Engine.{StorageEngine, Stats}
use cndb.File.{File}

pub record Cndb : Type 0 where
  pub store : StorageEngine

-- A method of the engine on `self.store`.
unfoldable pub on_store : {A : Type 0} → Exec StorageEngine A → Exec Cndb A
on_store method db = let (r, store) = method db.store in (r, record { store = store })

module _ (c : Crates) where
  unfoldable pub open_handle : File → String → Result Cndb × File
  open_handle file path =
      let (r, file') = Open.open_db c file path in
      (Result.◌>>=◌ r (λ store. ok (record { store = store })), file')

  unfoldable pub delete : DocId → Exec Cndb (Unit {0})
  unfolding on_store
  delete id = on_store (Engine.tombstone c id)

  unfoldable pub commit : Exec Cndb (Unit {0})
  unfolding on_store
  commit = on_store (Commit.commit c)

  unfoldable pub verify : Cndb → Option (Result ℕ)
  verify db = Engine.verify c db.store

  module _ (d : DocCrates) where
    unfoldable pub insert : d.Value → Exec Cndb DocId
    unfolding on_store
    insert doc = do
      bytes ← lift (to_bson_bytes d doc)
      on_store (Engine.append c RecordKind.blob bytes)

    unfoldable pub get : Cndb → DocId → Result d.Value
    get db id = Result.◌>>=◌ (Engine.read c db.store id) (from_bson_bytes d)

unfoldable pub len : Cndb → ℕ
len db = Engine.len db.store

unfoldable pub is_empty : Cndb → Bool
is_empty db = Engine.is_empty db.store

unfoldable pub ids : Cndb → List DocId
ids db = Engine.live_ids db.store

unfoldable pub stats : Cndb → Stats
stats db = Engine.stats db.store
