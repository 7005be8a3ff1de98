-- ===== src/Lib.antt =====
-- cndb, a database in a single file: an append-only log of documents with an index that is committed
-- as a whole, under two header slots that commits overwrite in turn.
--
-- A handle (`Cndb`, src/api.rs) turns JSON objects into BSON bytes (src/document/codec.rs) and calls
-- the storage engine (src/storage/engine.rs). The engine frames payloads as records
-- (src/storage/record.rs), writes them behind the end of its log through positioned I/O
-- (src/storage/pos_io.rs), keeps a map from documents to offsets in memory (src/storage/index.rs),
-- and commits by appending that index to the log and then writing a header with the next generation
-- over the older slot (src/storage/header.rs). Opening reads both slots and follows the later one.
--
-- Which module models what:
--   Error       `CndbError` and `Result` of src/error.rs; Error/Texts has what the errors say.
--   Record      src/storage/record.rs; Record/Framing has its round trip.
--   Header      src/storage/header.rs; Header/Codec, Header/Canonical and Header/Slots.
--   Index       src/storage/index.rs over the maps and sets of Collections. Index/Validity is its
--               invariant, Index/Equality its `==`, Index/Abstract the quotient by it, Index/Counts
--               and Index/Lookup its queries, Index/Ratio its share of deleted documents. Float is
--               what it needs of `f64`, as whole multiples of 2^-1074, infinity and NaN, and
--               Float/Rounding the bounds of that.
--   File        src/storage/pos_io.rs on unix and `sync_data`, on a file that knows which of its
--               bytes have been synced. File/Crash says what a crash may leave of it. File/Windows
--               has the loops on windows.
--   Log         `read_frame_at`, `read_record_at` and the loop of `verify` in src/storage/engine.rs;
--               Log/Scan and Log/Faults are about the loop's ends, Log/Laid about the layout,
--               Log/Canonical about files that something else has written.
--   Engine      the state and the operations of `StorageEngine`: append, read and tombstone here,
--               `open`, `initialize` and `load` in Engine/Open, `commit` in Engine/Commit, the
--               accessors in Engine/Accessors.
--   Document    src/document/codec.rs.
--   Api         src/api.rs, the methods of `Cndb`; Api/Contents is their specification, values by id,
--               Api/Sessions has sequences of calls, Api/Lives a session on a file that others have
--               worked on, Api/Prefixes a file that was cut off at any byte, Api/Copies a copy of
--               the file, Api/Progress calls that no failure of the operating system disturbs.
--   Store       the abstract specification of the engine: documents, deleted ids, the next id.
--               Store/Order orders stores by what they may become.
--   Crates      the parameters of the engine for crc32fast and bincode, with `IsLawful`.
--   Prelude, Result, Exec   shared names, byte buffers and machine words; `?` as the bind of `do`.
--   Suite       the unit tests in the files under src/ and, in Suite/Durability, those of
--               tests/durability.rs, as programs over the model.
--   Tests       concrete crates and databases, each result at work on them, and the runs of Suite.
--
-- Engine/Layout says how a file and an index hold a store; Engine/Invariant holds an engine (with
-- Engine/Kept) against two stores, the committed and the present one, and against the headers of
-- commits that failed while they wrote them. Engine/Appending, Engine/Operations, Engine/Turning
-- and Engine/Committing are about the operations on every outcome of their system calls,
-- Engine/Recovery and Engine/Crashing about opening what a crash leaves, Engine/Runs about
-- sequences of operations, which are a relation, and Engine/Lives, with Engine/Growing, about
-- sequences of sessions, each on the file that the crash of the one before has left. Engine/Bounds
-- relates the numbers that the engine keeps, Engine/Alternating the slots before and after a commit.
-- Engine/Contract is what the handle relies on of the engine, as a record that Api/Sessions takes and
-- the theorems on the engine fill. Engine/Verifying, Engine/Copying, Engine/Truncating and Engine/Damage
-- are about `verify`, about a file that begins like another, about one that is cut off, and about a
-- payload that has changed. Engine/Sound is about
-- an engine on a file that may hold anything; its proofs are triples on calls, with the rules of
-- Exec/Meets.
--
-- How the code is rendered. A method on `&mut self` is a function from the state to a result and
-- a state, so what was changed before an error stays changed (Exec). A `u64` is a number with its
-- wrap-around written out. A file carries the outcomes of its coming calls: a write that fails
-- has first transferred some of its bytes. A crash keeps every byte that was synced and not
-- written since, and may change any other; it may tear a write at any byte. The file that is
-- found then counts as synced. A header slot that is torn so that its checksum still fits is set
-- aside by a hypothesis, since a checksum of 32 bits cannot exclude it. Reads do not fail by
-- themselves. The loop of `verify` runs on fuel, one more than the committed end of the log; each
-- round moves on by nine bytes at least, so this is enough.
--
-- The loops of src/storage/pos_io.rs on windows run on fuel too: a round that is
-- not the last one uses up a call that is interrupted or moves a byte at least, so as many rounds as
-- there are bytes and listed calls are enough. A call that writes may also accept no byte.
--
-- Not modelled: the modules that only pass names on (src/lib.rs, src/storage/mod.rs,
-- src/document/mod.rs), and the texts of I/O errors, which are the operating system's.
--
-- The tests of the document codec and those of tests/durability.rs run on a concrete encoding of
-- values instead of that of the crate `bson`; the test of many commits runs with 6 rounds instead of
-- 25, that of large payloads with 600 bytes instead of 4 MiB, and that of a crash at any byte with 3
-- rounds of two documents instead of 6 of four.
pub mod Prelude
pub mod Result
pub mod Error
pub mod Record
pub mod Header
pub mod Collections
pub mod Float
pub mod Index
pub mod File
pub mod Crates
pub mod Exec
pub mod Log
pub mod Engine
pub mod Store
pub mod Document
pub mod Api
pub mod Suite
pub mod Tests
