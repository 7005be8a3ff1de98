-- ===== src/Record/Canonical.antt =====
-- `decode_frame` of src/storage/record.rs on bytes that were not written by `encode_frame`.
use cndb.Prelude.{ℕ, ◌≤◌, ◌<◌, ◌≡◌, [], ◌∷◌, Bytes, length, arith}
use cndb.Result.{ok}
use cndb.Error.{RecordKind, node, edge, blob, tombstone, master_index}
use cndb.Record.{Frame, tag, from_tag, decode_frame, encode_frame, max_record_len}

from_tag-eq_ok : (t offset : ℕ) (k : RecordKind) → from_tag t offset ≡ ok k → tag k ≡ t
unfolding from_tag tag
from_tag-eq_ok t offset node h = ground arith
from_tag-eq_ok t offset edge h = ground arith
from_tag-eq_ok t offset blob h = ground arith
from_tag-eq_ok t offset tombstone h = ground arith
from_tag-eq_ok t offset master_index h = ground arith

module _ (hash : Bytes → ℕ) where
  -- A frame that decodes to the length, the kind and the checksum of a payload is the frame of that
  -- payload.
  pub encode_frame-decode_frame :
      (b0 b1 b2 b3 b4 b5 b6 b7 b8 offset : ℕ) (payload : Bytes) (frame : Frame)
      → (b0 < 256)
        × (b1 < 256)
        × (b2 < 256)
        × (b3 < 256)
        × (b5 < 256)
        × (b6 < 256)
        × (b7 < 256)
        × (b8 < 256)
      → decode_frame (b0 ∷ b1 ∷ b2 ∷ b3 ∷ b4 ∷ b5 ∷ b6 ∷ b7 ∷ b8 ∷ []) offset ≡ ok frame
      → length payload ≡ frame.len
      → hash payload ≡ frame.crc
      → (encode_frame hash frame.kind payload ≡ b0 ∷ b1 ∷ b2 ∷ b3 ∷ b4 ∷ b5 ∷ b6 ∷ b7 ∷ b8 ∷ [])
        × (frame.len ≤ max_record_len)
  unfolding decode_frame encode_frame
  encode_frame-decode_frame b0 b1 b2 b3 b4 b5 b6 b7 b8 offset payload frame u h len crc =
      ground (arith, from_tag-eq_ok b4 offset frame.kind)
