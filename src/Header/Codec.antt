-- ===== src/Header/Codec.antt =====
-- `Header::encode` and `Header::decode` of src/storage/header.rs against each other.
use cndb.Prelude.{
  ℕ, ◌<◌, ◌^◌, ◌≡◌, refl, ap, Bytes, length, arith, slice, copy_at, replicate, bytes_eq_refl,
  bytes_eq→eq, bytes_eq, sym, ◌∙◌,
}
use cndb.Prelude.Words.{from_le_bytes-to_le_bytes, from_le_bytes}
use cndb.Result.{ok}
use cndb.Header.{Header, unsigned, fields, encode, decode, magic, header_size, format_version}

-- Each field is a `u64`.
pub record IsU64 (h : Header) : Type 0 where
  pub generation : h.generation < 2 ^ 64
  pub master_ptr : h.master_ptr < 2 ^ 64
  pub master_len : h.master_len < 2 ^ 64
  pub log_end : h.log_end < 2 ^ 64

fields-encode : (hash : Bytes → ℕ) (h : Header) → IsU64 h → fields (encode hash h) ≡ h
unfolding fields encode
fields-encode hash h u = λ i. record {
  generation = from_le_bytes-to_le_bytes 8 h.generation (omega arith) i;
  master_ptr = from_le_bytes-to_le_bytes 8 h.master_ptr (omega arith) i;
  master_len = from_le_bytes-to_le_bytes 8 h.master_len (omega arith) i;
  log_end = from_le_bytes-to_le_bytes 8 h.log_end (omega arith) i;
}

probe-encode :
    (hash : Bytes → ℕ) (h : Header) → copy_at (encode hash h) 40 (replicate 4 0) ≡ unsigned h
unfolding encode
probe-encode hash h = refl

pub length-encode : (hash : Bytes → ℕ) (h : Header) → length (encode hash h) ≡ header_size
unfolding encode
length-encode hash h = refl

-- What `decode` asks of a slot before it reads the fields.
pub record IsSigned (hash : Bytes → ℕ) (buf : Bytes) : Type 0 where
  pub magic_ok : slice 0 4 buf ≡ magic
  pub crc_ok : hash (copy_at buf 40 (replicate 4 0)) ≡ from_le_bytes (slice 40 44 buf)
  pub version_ok : from_le_bytes (slice 4 8 buf) ≡ format_version

decode_lem :
    (hash : Bytes → ℕ) (buf : Bytes) (slot : ℕ)
    → IsSigned hash buf
    → decode hash buf slot ≡ ok (fields buf)
unfolding decode
decode_lem hash buf slot s =
    ground (arith, s.magic_ok, bytes_eq_refl magic, ap (λ b. bytes_eq b magic) s.magic_ok)

pub decode-IsSigned :
    (hash : Bytes → ℕ) (buf : Bytes) (slot : ℕ) {h : Header}
    → decode hash buf slot ≡ ok h
    → IsSigned hash buf × (fields buf ≡ h)
unfolding decode
decode-IsSigned hash buf slot e = ground (arith, bytes_eq→eq (slice 0 4 buf) magic)

encode-IsSigned :
    (hash : Bytes → ℕ) (h : Header) → hash (unsigned h) < 2 ^ 32 → IsSigned hash (encode hash h)
unfolding encode unsigned
encode-IsSigned hash h lt = record {
  magic_ok = refl;
  crc_ok = sym (from_le_bytes-to_le_bytes 4 (hash (unsigned h)) lt);
  version_ok = refl;
}

module _ (hash : Bytes → ℕ) (hash-lt : (bs : Bytes) → hash bs < 2 ^ 32) where
  -- If the checksum is a `u32` and the fields of a header are `u64`, then its encoding decodes to
  -- it, in either slot.
  pub decode-encode : (h : Header) (slot : ℕ) → IsU64 h → decode hash (encode hash h) slot ≡ ok h
  decode-encode h slot u =
      decode_lem hash (encode hash h) slot (encode-IsSigned hash h (hash-lt _))
      ∙ ap ok (fields-encode hash h u)
