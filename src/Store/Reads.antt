-- ===== src/Store/Reads.antt =====
-- What a change of the store does to its reads.
use cndb.Prelude.{◌≡◌, ◌≢◌, false, arith}
use cndb.Result.{ok, err}
use cndb.Error.{DocId, deleted}
use cndb.Record.{Record}
use cndb.Store
use cndb.Store.{Store}

pub append-read :
    (s : Store) (r : Record) → s.dead s.next ≡ false → Store.read (Store.append r s) s.next ≡ ok r
append-read s r alive = rw alive (ground arith)

pub append-read_other :
    (s : Store) (r : Record) (k : DocId)
    → k ≢ s.next
    → Store.read (Store.append r s) k ≡ Store.read s k
append-read_other s r k other = ground arith

pub delete-read : (s : Store) (id : DocId) → Store.read (Store.delete id s) id ≡ err (deleted id)
delete-read s id = ground arith

pub delete-read_other :
    (s : Store) (id k : DocId) → k ≢ id → Store.read (Store.delete id s) k ≡ Store.read s k
delete-read_other s id k other = ground arith
