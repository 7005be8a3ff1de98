-- ===== src/Store.antt =====
-- The contract of the storage engine in src/storage/engine.rs, without the file: documents by id, the
-- ids that were deleted, and the next id.
pub mod Reads
pub mod Order
use cndb.Prelude.{ℕ, ◌+◌, Option, none, some, Bool, true, false, ◌==◌, if◌then◌else◌}
use cndb.Result.{ok, err}
use cndb.Error.{DocId, Result, not_found, deleted}
use cndb.Record.{Record}

pub record Store : Type 0 where
  pub docs : DocId → Option Record
  pub dead : DocId → Bool
  pub next : DocId

abbrev pub empty : Store
empty = record { docs = λ k. none; dead = λ k. false; next = 1 }

-- A new document takes the next id.
abbrev pub append : Record → Store → Store
append r s = record s { docs = λ k. if s.next == k then some r else s.docs k; next = s.next + 1 }

abbrev pub delete : DocId → Store → Store
delete id s = record s { dead = λ k. if id == k then true else s.dead k }

abbrev pub found : DocId → Option Record → Result Record
found id none = err (not_found id)
found id (some r) = ok r

abbrev pub read : Store → DocId → Result Record
read s id = if s.dead id then err (deleted id) else found id (s.docs id)
