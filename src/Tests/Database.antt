-- ===== src/Tests/Database.antt =====
-- A database that is created, gets two documents, loses one, and is committed; and one whose commit
-- fails while it writes its header.
use cndb.Prelude.{refl, List, [], ◌∷◌}
use cndb.Error.{RecordKind}
use cndb.Record.{Record}
use cndb.Header.{Header, initial, log_start, victim_slot, set_slot}
use cndb.Header
use cndb.File.{File, Outcome, pass, fail, write_all_at, sync, write_bytes, advance}
use cndb.Store
use cndb.Store.{Store}
use cndb.Engine.{StorageEngine, append, tombstone}
use cndb.Engine.Commit.{commit, prepare, write_header}
use cndb.Engine.Invariant.{Inv}
use cndb.Engine.Opening.{created, laid, initialized-Inv}
use cndb.Tests.Bincode.{crates, crates-IsLawful}

abbrev pub file : List Outcome → File
file schedule = record {
  len = 0;
  byte = λ i. 0;
  synced_len = 0;
  unsynced = [];
  schedule = schedule;
}

-- The coming calls: two that create the file, two for each record, and a commit that fails in the
-- middle of its header.
abbrev pub failing : List Outcome
failing = pass ∷ pass ∷ pass ∷ pass ∷ pass ∷ pass ∷ pass ∷ pass ∷ fail 10 ∷ []

abbrev pub new_db : List Outcome → StorageEngine
new_db schedule = created crates (sync (laid crates (file schedule))).1 "graph.cndb"

pub new_db-Inv : Inv crates (new_db []) Store.empty Store.empty []
unfolding sync write_all_at Header.encode write_bytes advance
new_db-Inv = initialized-Inv crates crates-IsLawful (file []) "graph.cndb" refl refl

pub failing_db-Inv : Inv crates (new_db failing) Store.empty Store.empty []
unfolding sync write_all_at Header.encode write_bytes advance
failing_db-Inv = initialized-Inv crates crates-IsLawful (file failing) "graph.cndb" refl refl

abbrev pub doc_1 : Record
doc_1 = record { kind = RecordKind.blob; payload = b'a' ∷ b'b' ∷ [] }

abbrev pub doc_2 : Record
doc_2 = record { kind = RecordKind.node; payload = [] }

abbrev pub one_doc : List Outcome → StorageEngine
one_doc schedule = (append crates doc_1.kind doc_1.payload (new_db schedule)).1

abbrev pub two_docs : StorageEngine
two_docs = (append crates doc_2.kind doc_2.payload (one_doc [])).1

abbrev pub one_deleted : StorageEngine
one_deleted = (tombstone crates 1 two_docs).1

abbrev pub saved : StorageEngine
saved = (commit crates one_deleted).1

abbrev pub torn_next : Header
torn_next = record { generation = 1; master_ptr = 139; master_len = 40; log_end = 188 }

abbrev pub torn_ready : StorageEngine
torn_ready = (prepare crates (one_doc failing)).1

abbrev pub torn : StorageEngine
torn = (write_header crates torn_next torn_ready).1

-- The file that a crash leaves when everything written has reached the disk.
abbrev pub image : StorageEngine → File
image e = record {
  len = e.file.len;
  byte = e.file.byte;
  synced_len = e.file.len;
  unsynced = [];
  schedule = [];
}
