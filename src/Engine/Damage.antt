-- ===== src/Engine/Damage.antt =====
-- A payload that has changed in the file, found by `verify` and by `read_record` of
-- src/storage/engine.rs.
use cndb.Prelude.{
  ℕ, ◌+◌, ◌≤◌, ◌<◌, ◌^◌, ◌≡◌, ◌≢◌, sym, ◌∙◌, some, inl, List, ◌∷◌, ◌++◌, Bytes, length, arith,
}
use cndb.Prelude.Words.{u64}
use cndb.Result.{ok, err}
use cndb.Error.{DocId, record_checksum}
use cndb.Record.{Record, Frame, record_header_size, verify_payload}
use cndb.Record.Framing.{decode_frame-encode_frame}
use cndb.Header.{log_start}
use cndb.Index.{offset_of}
use cndb.File.{File, bytes}
use cndb.File.Bytes.{Agree, bytes-Agree, read_exact_at_lem}
use cndb.Log.{read_frame_at, read_record_at}
use cndb.Log.Records.{RecordIn}
use cndb.Log.Laid.{Laid, end_of, Laid-split, Laid-Agree, Laid-Chain}
use cndb.Crates.{Crates, IsLawful}
use cndb.Engine.{StorageEngine, read_record, verify}
use cndb.Engine.Verifying.{verify-err_iff}

-- The file `g` has the frame of the record, but not a payload with its checksum.
pub record Damaged (hash : Bytes → ℕ) (f g : File) (offset : ℕ) (r : Record) : Type 0 where
  pub before : Agree f.byte g.byte log_start (offset + record_header_size)
  pub payload :
      hash (bytes g.byte (offset + record_header_size) (length r.payload)) ≢ hash r.payload

verify_payload-ne :
    (hash : Bytes → ℕ) (frame : Frame) (payload : Bytes) (offset : ℕ)
    → hash payload ≢ frame.crc
    → verify_payload hash frame payload offset ≡ err (record_checksum offset)
unfolding verify_payload
verify_payload-ne hash frame payload offset h = ground (arith, h)

module _ (hash : Bytes → ℕ) (hash-lt : (bs : Bytes) → hash bs < 2 ^ 32) (f g : File) (r : Record)
    {limit offset : ℕ} (at : RecordIn hash f.byte limit offset r) (small : g.len < 2 ^ 64)
    (inside : limit ≤ g.len) (d : Damaged hash f g offset r) where
  frame_read :
      read_frame_at g offset
      ≡ ok (record { len = length r.payload; kind = r.kind; crc = hash r.payload })
  unfolding read_frame_at
  frame_read =
      let same =
        sym (
          bytes-Agree f.byte g.byte offset record_header_size
            (λ i lo hi. d.before i (omega (arith, at.starts)) hi))
        ∙ at.frame in
      rw (read_exact_at_lem g record_header_size offset (omega (arith, at.ends)), same)
        (decode_frame-encode_frame hash hash-lt r.kind r.payload offset at.fits)

  read_record_at-Damaged : read_record_at hash g offset ≡ err (record_checksum offset)
  unfolding read_record_at
  read_record_at-Damaged =
      let e : u64 (offset + record_header_size) ≡ offset + record_header_size =
        omega (arith, at.ends) in
      rw frame_read (
        rw e (
          rw (
            read_exact_at_lem g (length r.payload) (offset + record_header_size)
                (omega (arith, at.ends)),
            verify_payload-ne hash
                (record { len = length r.payload; kind = r.kind; crc = hash r.payload }) _ offset
                d.payload,
          )))

module _ (c : Crates) (lawful : IsLawful c) (e : StorageEngine) (before : List Record) (r : Record)
    (after : List Record)
    (laid : Laid c.hash e.file.byte log_start (before ++ r ∷ after) e.header.log_end) (g : File)
    (small : g.len < 2 ^ 64) (inside : e.header.log_end ≤ g.len) where
  -- With lawful crates, on an engine whose committed log is laid out as a sequence of records: if
  -- another file, shorter than 2^64 bytes and not shorter than the committed log, agrees with
  -- that of the engine from the start of the log up to the payload of one of the records, and has
  -- a payload of another checksum there, then `verify` on it fails with `RecordChecksum` at the
  -- offset of that record, and so does `read_record` of each id that has this offset in the
  -- index.
  pub verify-Damaged :
      Damaged c.hash e.file g (end_of log_start before) r
      → (verify c (record e { file = g }) ≡ some (err (record_checksum (end_of log_start before))))
        × ((id : DocId)
            → offset_of e.index id ≡ some (end_of log_start before)
            → read_record c (record e { file = g }) id
              ≡ err (record_checksum (end_of log_start before)))
  unfolding offset_of read_record
  verify-Damaged d =
      let stop : ℕ = end_of log_start before in
      let (laid_before, at) =
        Laid-split c.hash e.file.byte log_start before r after e.header.log_end laid in
      let unread = read_record_at-Damaged c.hash lawful.hash-lt e.file g r at small inside d in
      let kept =
        Laid-Agree c.hash e.file.byte g.byte log_start before stop
          (λ i lo hi. d.before i lo (omega arith)) laid_before in
      let chain =
        Laid-Chain c.hash lawful.hash-lt g log_start before stop (omega (arith, at.ends))
          (omega (arith, at.ends)) kept in
      (
        (verify-err_iff c (record e { file = g }) small _ (omega (arith, at.starts, at.ends))).1
            (before, stop, chain, omega (arith, at.ends), inl unread),
        λ id p. ground (arith, unread),
      )
