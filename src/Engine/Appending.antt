-- ===== src/Engine/Appending.antt =====
-- What `append_raw` of src/storage/engine.rs does to the engine and the file, on every outcome.
use cndb.Prelude.{
  ℕ, ◌+◌, ◌≤◌, ◌<◌, ◌^◌, ◌≡◌, refl, ◌∙◌, subst, Bytes, length, arith, ltb, ltb→lt, ltb_false→le,
  Bool-cases, inl, inr, true,
}
use cndb.Prelude.Words.{u64}
use cndb.Result.{ok, err, StdResult-cases}
use cndb.Error.{RecordKind, Result, IoError, io, record_too_large}
use cndb.Record.{record_header_size, max_record_len, encode_frame}
use cndb.Header.{log_start}
use cndb.File.{File, write_all_at, bytes}
use cndb.File.Bytes.{bytes-Agree}
use cndb.File.Writes.{
  Wrote, Wrote-trans, Wrote-widen, write_all_at-Wrote, write_all_at-bytes, write_all_at-len,
}
use native.Mathlib.Decide.{dec_lt}
use cndb.Crates.{Crates}
use cndb.Log.Records.{RecordIn}
use cndb.Engine.{StorageEngine, append_raw}

-- The size of a record in the log.
abbrev pub size : Bytes → ℕ
size payload = record_header_size + length payload

-- The end of the log is inside the file, and one more record of any length can follow.
pub record HasRoom (e : StorageEngine) : Type 0 where
  pub starts : log_start ≤ e.end
  pub inside : e.end ≤ e.file.len
  pub room : e.end + record_header_size + max_record_len < 2 ^ 64

module _ (c : Crates) (kind : RecordKind) (payload : Bytes) (e : StorageEngine) where
  -- A payload that is too long changes nothing. A write that fails has touched bytes behind the end
  -- of the log only, and the engine is as it was. Otherwise the record lies at the old end.
  pub data Appended (out : Result ℕ × StorageEngine) : Type 0 where
    refused :
        max_record_len < length payload
        → out ≡ (err (record_too_large e.end (u64 (length payload)) max_record_len), e)
        → Appended out
    failed :
        (x : IoError) (g : File)
        → length payload ≤ max_record_len
        → Wrote e.end (e.end + size payload) e.file g
        → out ≡ (err (io x), record e { file = g })
        → Appended out
    landed :
        (g : File)
        → length payload ≤ max_record_len
        → Wrote e.end (e.end + size payload) e.file g
        → RecordIn c.hash g.byte
            (e.end + size payload)
            e.end
            (record { kind = kind; payload = payload })
        → e.end + size payload ≤ g.len
        → out ≡ (ok e.end, record e { file = g; end = e.end + size payload; dirty = true })
        → Appended out

pub length-encode_frame :
    (hash : Bytes → ℕ) (kind : RecordKind) (payload : Bytes)
    → length (encode_frame hash kind payload) ≡ record_header_size
unfolding encode_frame
length-encode_frame hash kind payload = refl

module _ (c : Crates) (kind : RecordKind) (payload : Bytes) (e : StorageEngine) (room : HasRoom e)
    (word : length payload < 2 ^ 64) where
  abbrev frame_bytes : Bytes
  frame_bytes = encode_frame c.hash kind payload

  abbrev framed : File
  framed = (write_all_at frame_bytes e.end e.file).1

  abbrev body_offset : ℕ
  body_offset = u64 (e.end + record_header_size)

  abbrev written : File
  written = (write_all_at payload body_offset framed).1

  body_offset_lem : body_offset ≡ e.end + record_header_size
  body_offset_lem = omega (arith, room.room)

  framed-Wrote : Wrote e.end (e.end + record_header_size) e.file framed
  framed-Wrote =
      subst (λ n. Wrote e.end (e.end + n) e.file framed) (length-encode_frame c.hash kind payload)
        (write_all_at-Wrote frame_bytes e.end e.file)

  body-Wrote : Wrote (e.end + record_header_size) (e.end + size payload) framed written
  body-Wrote =
      Wrote-widen (omega (arith, body_offset_lem)) (omega (arith, body_offset_lem))
        (write_all_at-Wrote payload body_offset framed)

  written-Wrote : Wrote e.end (e.end + size payload) e.file written
  written-Wrote =
      Wrote-trans (Wrote-widen (omega arith) (omega arith) framed-Wrote)
        (Wrote-widen (omega arith) (omega arith) body-Wrote)

  module _ (fits : length payload ≤ max_record_len)
      (wrote_frame : (write_all_at frame_bytes e.end e.file).0 ≡ ok tt)
      (wrote_body : (write_all_at payload body_offset framed).0 ≡ ok tt) where
    framed-len : e.end + record_header_size ≤ framed.len
    framed-len =
        let n = length-encode_frame c.hash kind payload in
        omega (arith, write_all_at-len frame_bytes e.end e.file wrote_frame (omega arith))

    written-len : e.end + size payload ≤ written.len
    written-len = elim (dec_lt 0 (length payload)) [
      | yes p ↦
          omega (arith, body_offset_lem, write_all_at-len payload body_offset framed wrote_body p)
      | no p ↦ omega (arith, framed-len, body-Wrote.grows)
    ]

    framed-bytes : bytes framed.byte e.end record_header_size ≡ frame_bytes
    framed-bytes =
        subst (λ n. bytes framed.byte e.end n ≡ frame_bytes)
          (length-encode_frame c.hash kind payload)
          (write_all_at-bytes frame_bytes e.end e.file wrote_frame)

    written-RecordIn :
        RecordIn c.hash written.byte
          (e.end + size payload)
          e.end
          (record { kind = kind; payload = payload })
    written-RecordIn = record {
      starts = room.starts;
      ends = omega arith;
      fits = fits;
      frame =
          bytes-Agree written.byte framed.byte e.end record_header_size
            (λ i lo hi. body-Wrote.spared i (omega (arith, framed-len)) (inl hi))
          ∙ framed-bytes;
      body =
          subst (λ o. bytes written.byte o (length payload) ≡ payload) body_offset_lem
            (write_all_at-bytes payload body_offset framed wrote_body);
    }

  new_end :
      length payload ≤ max_record_len
      → u64 (e.end + record_header_size + u64 (length payload)) ≡ e.end + size payload
  new_end fits = omega (arith, room.room)

  -- If the log has room for a record and the length of the payload is a `u64`, `append_raw`
  -- either refuses a payload over 64 MiB and changes nothing; or fails with an I/O error, having
  -- written behind the end of the log only and changed nothing but the file; or returns the old
  -- end of the log, where the framed record now lies, with `end` moved behind it and the engine
  -- dirty.
  pub append_raw-Appended : Appended c kind payload e (append_raw c kind payload e)
  unfolding append_raw
  append_raw-Appended = elim (Bool-cases (ltb max_record_len (u64 (length payload)))) [
    | inl long ↦
        refused (omega (arith, ltb→lt max_record_len (u64 (length payload)) long)) (rw long)
    | inr short ↦
        let fits : length payload ≤ max_record_len =
          omega (arith, ltb_false→le max_record_len (u64 (length payload)) short) in
        elim (StdResult-cases (write_all_at frame_bytes e.end e.file).0) [
          | inr (x, p) ↦
              failed x framed fits (Wrote-widen (omega arith) (omega arith) framed-Wrote)
                (rw (short, p))
          | inl (u, p) ↦ elim (StdResult-cases (write_all_at payload body_offset framed).0) [
            | inr (x, q) ↦ failed x written fits written-Wrote (rw (short, p, q))
            | inl (v, q) ↦
                landed written fits written-Wrote (written-RecordIn fits p q) (written-len fits p q)
                  (rw (short, p, q)
                    (λ i.
                      (ok e.end, record e { file = written; end = new_end fits i; dirty = true })))
          ]
        ]
  ]
