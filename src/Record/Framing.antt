-- ===== src/Record/Framing.antt =====
-- `encode_frame` and `decode_frame` of src/storage/record.rs against each other.
use cndb.Prelude.{ℕ, ◌≤◌, ◌<◌, ◌^◌, ◌≡◌, refl, Bytes, length, arith}
use cndb.Result.{ok}
use cndb.Error.{RecordKind, node, edge, blob, tombstone, master_index}
use cndb.Record.{tag, from_tag, decode_frame, encode_frame, max_record_len}

-- Every kind survives its tag.
pub from_tag-tag : (k : RecordKind) (offset : ℕ) → from_tag (tag k) offset ≡ ok k
unfolding from_tag tag
from_tag-tag node offset = refl
from_tag-tag edge offset = refl
from_tag-tag blob offset = refl
from_tag-tag tombstone offset = refl
from_tag-tag master_index offset = refl

module _ (hash : Bytes → ℕ) (hash-lt : (bs : Bytes) → hash bs < 2 ^ 32) where
  -- If the checksum is a `u32` and the payload has at most 64 MiB, then the frame of a record
  -- decodes to the length of the payload, the kind and the checksum of the payload.
  pub decode_frame-encode_frame :
      (kind : RecordKind) (payload : Bytes) (offset : ℕ)
      → length payload ≤ max_record_len
      → decode_frame (encode_frame hash kind payload) offset
        ≡ ok (record { len = length payload; kind = kind; crc = hash payload })
  unfolding decode_frame encode_frame
  decode_frame-encode_frame kind payload offset fits =
      ground (arith, from_tag-tag kind offset, hash-lt payload)
