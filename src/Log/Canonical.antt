-- ===== src/Log/Canonical.antt =====
-- What `read_record_at` of src/storage/engine.rs reads, in a file that was not written by the engine.
use cndb.Prelude.{
  ℕ, ◌+◌, ◌≤◌, ◌<◌, ◌^◌, ◌≡◌, refl, sym, ap, ◌∙◌, inl, inr, List, [], ◌∷◌, Bytes, length, arith,
  subst,
}
use cndb.Prelude.Words.{u64}
use cndb.Result.{ok}
use cndb.Record.{
  Record, Frame, record_header_size, max_record_len, decode_frame, encode_frame, verify_payload,
}
use cndb.Record.Canonical.{encode_frame-decode_frame}
use cndb.Header.{log_start}
use cndb.File.{File, bytes}
use cndb.File.Bytes.{read_exact_at_lem, read_exact_at-eq_ok}
use cndb.Log.{read_frame_at, read_record_at}
use cndb.Log.Records.{RecordIn, RecordIn-Agree}
use cndb.Log.Laid.{Laid}
use cndb.Log.Scan.{Fetched-cases, Fetched-both, Chain, Chain-length}

module _ (hash : Bytes → ℕ) (f : File) (byte-lt : (i : ℕ) → f.byte i < 256) where
  frame_bytes :
      (offset : ℕ) {frame : Frame}
      → offset + record_header_size ≤ f.len
      → read_frame_at f offset ≡ ok frame
      → decode_frame (bytes f.byte offset record_header_size) offset ≡ ok frame
  unfolding read_frame_at
  frame_bytes offset below h = rw (read_exact_at_lem f record_header_size offset below) at h

  crc-eq :
      (frame : Frame) (payload : Bytes) (offset : ℕ)
      → verify_payload hash frame payload offset ≡ ok tt
      → hash payload ≡ frame.crc
  unfolding verify_payload
  crc-eq frame payload offset h = ground arith

  frame_canonical :
      (offset : ℕ) (payload : Bytes) (frame : Frame)
      → decode_frame (bytes f.byte offset record_header_size) offset ≡ ok frame
      → length payload ≡ frame.len
      → hash payload ≡ frame.crc
      → (bytes f.byte offset record_header_size ≡ encode_frame hash frame.kind payload)
        × (frame.len ≤ max_record_len)
  unfolding bytes
  frame_canonical offset payload frame h len crc =
      let (same, fits) =
        encode_frame-decode_frame hash _ _ _ _ _ _ _ _ _ offset payload frame
          (byte-lt _, byte-lt _, byte-lt _, byte-lt _, byte-lt _, byte-lt _, byte-lt _, byte-lt _) h
          len crc in
      (sym same, fits)

  module _ (small : f.len < 2 ^ 64) where
    pub read_record_at-RecordIn :
        (offset : ℕ) (r : Record)
        → log_start ≤ offset
        → read_record_at hash f offset ≡ ok r
        → RecordIn hash f.byte (offset + record_header_size + length r.payload) offset r
          × (offset + record_header_size + length r.payload ≤ f.len)
    read_record_at-RecordIn offset r starts h = elim (Fetched-cases hash f offset) [
      | inr (x, p, q) ↦ cc
      | inl (frame, payload, p) ↦
          let is_r : record { kind = frame.kind; payload = payload } ≡ r =
            ground (arith, Fetched-both hash f small p) in
          let (filled, len, fits) = read_exact_at-eq_ok f frame.len _ p.filled in
          let (same, short) =
            frame_canonical offset payload frame (frame_bytes offset p.below p.framed) len
              (crc-eq frame payload offset p.intact) in
          let no_wrap : u64 (offset + record_header_size) ≡ offset + record_header_size =
            omega (arith, p.below) in
          subst
            (λ r.
              RecordIn hash f.byte (offset + record_header_size + length r.payload) offset r
              × (offset + record_header_size + length r.payload ≤ f.len))
            is_r
            (
              record {
                starts = starts;
                ends = omega arith;
                fits = omega (arith, len, short);
                frame = same;
                body =
                    ap (λ n. bytes f.byte (offset + record_header_size) n) len
                    ∙ ap (λ o. bytes f.byte o frame.len) (sym no_wrap)
                    ∙ sym filled;
              },
              omega (arith, fits, len, p.below),
            )
    ]

    -- Records that can be read one behind the other lie so.
    pub Chain-Laid :
        (offset : ℕ) (rs : List Record) (stop : ℕ)
        → log_start ≤ offset
        → Chain hash f offset rs stop
        → offset ≤ f.len
        → Laid hash f.byte offset rs stop × (stop ≤ f.len)
    Chain-Laid offset [] stop starts h inside = (h, omega (arith, h))
    Chain-Laid offset (r ∷ rs) stop starts h inside =
        let next : ℕ = offset + record_header_size + length r.payload in
        let (at, ends) = read_record_at-RecordIn offset r starts h.0 in
        let (rest, below) = Chain-Laid next rs stop (omega arith) h.1 ends in
        (
          (
            RecordIn-Agree hash (λ i l u. refl)
                (omega (arith, Chain-length hash f next rs stop h.1)) at,
            rest,
          ),
          below,
        )
