-- ===== src/Record.antt =====
-- src/storage/record.rs: the framing of records in the log, `[len][kind][crc32][payload]`.
pub mod Framing
pub mod Canonical
use cndb.Prelude.{
  ℕ, ◌+◌, ◌*◌, Bool, true, false, [], ◌∷◌, Bytes, slice, copy_at, length, get_or, replicate, ltb,
  ◌==◌, not, if◌then◌else◌,
}
use cndb.Prelude.Words.{u32, to_le_bytes, from_le_bytes}
use cndb.Result.{ok, err, ◌>>=◌}
use cndb.Error.{
  RecordKind, node, edge, blob, tombstone, master_index, Result, record_too_large,
  unknown_record_kind, record_checksum,
}

abbrev pub record_header_size : ℕ
record_header_size = 9

abbrev pub max_record_len : ℕ
max_record_len = 64 * 1024 * 1024

-- `kind as u8`
unfoldable pub tag : RecordKind → ℕ
tag node = 0
tag edge = 1
tag blob = 2
tag tombstone = 3
tag master_index = 4

unfoldable pub from_tag : ℕ → ℕ → Result RecordKind
from_tag t offset =
    if t == 0
    then ok node
    else if t == 1
    then ok edge
    else if t == 2
    then ok blob
    else if t == 3
    then ok tombstone
    else if t == 4
    then ok master_index
    else err (unknown_record_kind t offset)

unfoldable pub is_document : RecordKind → Bool
is_document node = true
is_document edge = true
is_document blob = true
is_document tombstone = false
is_document master_index = false

pub record Record : Type 0 where
  pub kind : RecordKind
  pub payload : Bytes

pub record Frame : Type 0 where
  pub len : ℕ
  pub kind : RecordKind
  pub crc : ℕ

unfoldable pub total_len : Frame → ℕ
total_len frame = record_header_size + frame.len

unfoldable pub decode_frame : Bytes → ℕ → Result Frame
unfolding from_tag
decode_frame buf offset =
    let len = from_le_bytes (slice 0 4 buf) in
    if ltb max_record_len len then err (record_too_large offset len max_record_len) else do
      kind ← from_tag (get_or buf 4 0) offset
      ok (record { len = len; kind = kind; crc = from_le_bytes (slice 5 9 buf) })

-- `hash` is `crc32fast::hash`.
module _ (hash : Bytes → ℕ) where
  unfoldable pub encode_frame : RecordKind → Bytes → Bytes
  unfolding tag
  encode_frame kind payload =
      let frame0 = replicate record_header_size 0 in
      let frame1 = copy_at frame0 0 (to_le_bytes 4 (u32 (length payload))) in
      let frame2 = copy_at frame1 4 (tag kind ∷ []) in
      copy_at frame2 5 (to_le_bytes 4 (hash payload))

  unfoldable pub verify_payload : Frame → Bytes → ℕ → Result (Unit {0})
  verify_payload frame payload offset =
      if not (hash payload == frame.crc) then err (record_checksum offset) else ok tt
