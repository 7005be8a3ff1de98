-- ===== src/Header/Octets.antt =====
-- What `Header::encode` of src/storage/header.rs returns is bytes.
use cndb.Prelude.{ℕ, Bytes, copy_at, arith}
use cndb.Prelude.Words.{to_le_bytes}
use cndb.Prelude.Octets.{IsBytes, copy_at-IsBytes, to_le_bytes-IsBytes, replicate-IsBytes}
use cndb.Header.{Header, header_size, magic, format_version, unsigned, encode}

magic-IsBytes : IsBytes magic
unfolding IsBytes
magic-IsBytes = (omega arith, (omega arith, (omega arith, (omega arith, tt))))

put_word : (buf : Bytes) (lo w n : ℕ) → IsBytes buf → IsBytes (copy_at buf lo (to_le_bytes w n))
put_word buf lo w n h = copy_at-IsBytes buf lo (to_le_bytes w n) h (to_le_bytes-IsBytes w n)

unsigned-IsBytes : (h : Header) → IsBytes (unsigned h)
unfolding unsigned
unsigned-IsBytes h = put_word _ 32 8 h.log_end (
    put_word _ 24 8 h.master_len (
      put_word _ 16 8 h.master_ptr (
        put_word _ 8 8 h.generation (
          put_word _ 4 4 format_version (
            copy_at-IsBytes _ 0 magic (replicate-IsBytes header_size 0 (omega arith))
              magic-IsBytes)))))

pub encode-IsBytes : (hash : Bytes → ℕ) (h : Header) → IsBytes (encode hash h)
unfolding encode
encode-IsBytes hash h = put_word (unsigned h) 40 4 (hash (unsigned h)) (unsigned-IsBytes h)
