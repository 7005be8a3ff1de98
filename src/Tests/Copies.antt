-- ===== src/Tests/Copies.antt =====
-- A copy of a database file with other bytes behind the committed end.
use cndb.Prelude.{◌≡◌, refl, [], false, ltb, lt→ltb, if◌then◌else◌, ◌+◌, arith}
use cndb.Result.{ok}
use cndb.Error.{DocId}
use cndb.Record.{encode_frame}
use cndb.Header
use cndb.Header.{victim_slot, set_slot}
use cndb.Collections.{contains, contains_key, insert, add}
use cndb.Index
use cndb.Index.{allocate_id, insert_offset, mark_dead}
use cndb.File.{File, write_all_at, sync, write_bytes, advance, covered}
use cndb.File.Writes.{Synced}
use cndb.Engine.{append_raw, append, assign_id, tombstone, delete_record}
use cndb.Engine.Commit.{commit, commit_dirty, prepare, write_master, write_header}
use cndb.Engine.Copying.{Copies}
use cndb.Api.{Cndb, open_handle, get}
use cndb.Api.Copies.{open_handle_copy}
use cndb.Tests.Bincode.{crates, crates-IsLawful}
use cndb.Tests.Json.{doc_crates}
use cndb.Tests.Clients.{handle}
use cndb.Tests.Database.{saved}
use cndb.Tests.Storage.{saved-Inv}

-- The committed part, and then 100 bytes of something else.
abbrev copied : File
copied = record {
  len = saved.header.log_end + 100;
  byte = λ i. if ltb i saved.header.log_end then saved.file.byte i else 7;
  synced_len = saved.header.log_end + 100;
  unsynced = [];
  schedule = [];
}

copied-Synced : Synced copied copied
unfolding covered
copied-Synced = record { same = λ i. refl; len = refl; synced_len = refl; clean = λ i. refl }

copied-Copies : Copies saved copied
copied-Copies = record {
  same = λ i l h. rw (lt→ltb i saved.header.log_end h) refl;
  whole = omega arith;
  durable = copied-Synced;
}

saved-clean : saved.dirty ≡ false
unfolding append append_raw write_all_at sync write_bytes advance encode_frame allocate_id
    Header.encode assign_id insert_offset contains contains_key insert tombstone delete_record
    commit commit_dirty prepare write_master Index.encode write_header victim_slot set_slot
    mark_dead add
saved-clean = refl

open_handle_copy_example :
    (db2 : Cndb) × (open_handle crates copied "copied.cndb" ≡ (ok db2, copied))
    × ((k : DocId) → get crates doc_crates db2 k ≡ get crates doc_crates (handle saved) k)
open_handle_copy_example =
    open_handle_copy crates crates-IsLawful doc_crates (handle saved) saved-Inv saved-clean copied
      "copied.cndb" copied-Copies
