-- ===== src/Tests/Sound.antt =====
-- A database that is created, gets a document, and is committed, and one id that is given out twice.
use cndb.Prelude.{◌≡◌, refl, [], ltb→lt}
use cndb.Result.{ok, err}
use cndb.Error.{DocId, Result}
use cndb.Header
use cndb.Header.{select_live}
use cndb.File.{write_all_at, sync, write_bytes, advance, read_exact_at, bytes, overwrite}
use cndb.Engine.{StorageEngine, append, append_raw, assign_id}
use cndb.Record.{encode_frame}
use cndb.Collections.{insert}
use cndb.Index.{allocate_id, insert_offset}
use cndb.Engine.Commit.{commit}
use cndb.Engine.Open.{open_db, initialize, load}
use cndb.Engine.Sound.{IsSound}
use cndb.Engine.Sound.Calls.{Calls, opened, appended, committed, Calls-IsSound}
use cndb.Tests.Bincode.{crates}
use cndb.Tests.Database.{file, new_db, one_doc, doc_1, image}

open_new : open_db crates (file []) "graph.cndb" ≡ (ok (new_db []), (new_db []).file)
unfolding open_db initialize write_all_at sync write_bytes advance Header.encode
open_new = refl

committed_doc-Calls : Calls crates (commit crates (one_doc [])).1
unfolding append append_raw assign_id write_all_at sync write_bytes advance encode_frame allocate_id
    insert_offset insert Header.encode
committed_doc-Calls =
    committed
      (appended doc_1.kind doc_1.payload
        (opened (file []) (new_db []).file "graph.cndb" (new_db []) open_new))
      (ltb→lt _ _ refl)

Calls-IsSound_example : IsSound (commit crates (one_doc [])).1
Calls-IsSound_example = Calls-IsSound crates committed_doc-Calls

-- An append that is not committed, a crash that loses nothing of the file, and one more append.
abbrev lost_then_new : Result DocId × Result DocId
lost_then_new = (
  (append crates doc_1.kind doc_1.payload (new_db [])).0,
  appended_to (open_db crates (image (one_doc [])) "graph.cndb").0,
)
  where
    appended_to : Result StorageEngine → Result DocId
    appended_to (ok e) = (append crates doc_1.kind doc_1.payload e).0
    appended_to (err x) = err x

lost_id_returns : lost_then_new ≡ (ok 1, ok 1)
unfolding append append_raw assign_id write_all_at sync write_bytes advance encode_frame allocate_id
    insert_offset insert Header.encode Header.decode open_db load select_live read_exact_at bytes
    overwrite
lost_id_returns = refl
