-- ===== src/Log/Records.antt =====
-- Records in the file, and reading them back (src/storage/engine.rs, `read_record_at`).
use cndb.Prelude.{ℕ, ◌+◌, ◌≤◌, ◌<◌, ◌^◌, ◌≡◌, sym, ◌∙◌, Bytes, length, arith}
use cndb.Prelude.Words.{u64}
use cndb.Result.{ok}
use cndb.Record.{Record, record_header_size, max_record_len, encode_frame, verify_payload}
use cndb.Record.Framing.{decode_frame-encode_frame}
use cndb.Header.{log_start}
use cndb.File.{File, bytes}
use cndb.File.Bytes.{Agree, bytes-Agree, read_exact_at_lem}
use cndb.Log.{read_frame_at, read_record_at}

-- The bytes from `offset` on, below `limit` and inside the log, are the record `r`, framed.
pub record RecordIn (hash : Bytes → ℕ) (byte : ℕ → ℕ) (limit offset : ℕ) (r : Record) : Type 0 where
  pub starts : log_start ≤ offset
  pub ends : offset + record_header_size + length r.payload ≤ limit
  pub fits : length r.payload ≤ max_record_len
  pub frame : bytes byte offset record_header_size ≡ encode_frame hash r.kind r.payload
  pub body : bytes byte (offset + record_header_size) (length r.payload) ≡ r.payload

module _ (hash : Bytes → ℕ) where
  -- A record depends on no byte outside of the log below the limit.
  pub RecordIn-Agree :
      {f g : ℕ → ℕ} {limit limit' offset : ℕ} {r : Record}
      → Agree f g log_start limit
      → limit ≤ limit'
      → RecordIn hash f limit offset r
      → RecordIn hash g limit' offset r
  RecordIn-Agree {f} {g} {offset} {r} same le h = record {
    starts = h.starts;
    ends = omega (arith, h.ends);
    fits = h.fits;
    frame =
        sym (
          bytes-Agree f g offset record_header_size
            (λ i lo hi. same i (omega (arith, h.starts)) (omega (arith, h.ends))))
        ∙ h.frame;
    body =
        sym (
          bytes-Agree f g (offset + record_header_size) (length r.payload)
            (λ i lo hi. same i (omega (arith, h.starts)) (omega (arith, h.ends))))
        ∙ h.body;
  }

  verify_payload_lem :
      (len : ℕ) (r : Record) (offset : ℕ)
      → verify_payload hash
          (record { len = len; kind = r.kind; crc = hash r.payload })
          r.payload
          offset
        ≡ ok tt
  unfolding verify_payload
  verify_payload_lem len r offset = ground arith

  module _ (hash-lt : (bs : Bytes) → hash bs < 2 ^ 32) where
    read_frame_at_lem :
        (f : File) {limit offset : ℕ} {r : Record}
        → RecordIn hash f.byte limit offset r
        → limit ≤ f.len
        → read_frame_at f offset
          ≡ ok (record { len = length r.payload; kind = r.kind; crc = hash r.payload })
    unfolding read_frame_at
    read_frame_at_lem f {offset} {r} h inside =
        rw (read_exact_at_lem f record_header_size offset (omega (arith, h.ends)), h.frame)
          (decode_frame-encode_frame hash hash-lt r.kind r.payload offset h.fits)

    -- A record that lies in the file is read back as it is.
    pub read_record_at_lem :
        (f : File) {limit offset : ℕ} {r : Record}
        → RecordIn hash f.byte limit offset r
        → limit ≤ f.len
        → limit < 2 ^ 64
        → read_record_at hash f offset ≡ ok r
    unfolding read_record_at
    read_record_at_lem f {offset} {r} h inside small =
        let e : u64 (offset + record_header_size) ≡ offset + record_header_size =
          omega (arith, h.ends) in
        rw (read_frame_at_lem f h inside) (
          rw e (
            rw (
              read_exact_at_lem f (length r.payload) (offset + record_header_size)
                  (omega (arith, h.ends)),
              h.body,
              verify_payload_lem (length r.payload) r offset,
            )))
