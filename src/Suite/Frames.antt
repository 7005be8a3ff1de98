-- ===== src/Suite/Frames.antt =====
-- The tests of src/storage/record.rs. `hash` is `crc32fast::hash`.
use cndb.Prelude.{
  ℕ, ◌-◌, ◌+◌, ◌%◌, ◌^◌, Bool, true, false, ◌&&◌, not, List, [], ◌∷◌, Bytes, length, get_or,
  copy_at, ◌==◌, if◌then◌else◌,
}
use cndb.Prelude.Words.{to_le_bytes}
use cndb.Error.{CndbError, RecordKind}
use cndb.Record.{
  record_header_size, encode_frame, decode_frame, verify_payload, total_len, is_document,
}
use cndb.Suite.{
  as_bytes, set_byte, all_below, unwrap, fails, kind_eq, is_record_checksum, is_record_too_large,
}

-- `Err(CndbError::UnknownRecordKind { kind: 5, offset: 64 })`
abbrev is_unknown_kind : ℕ → ℕ → CndbError → Bool
is_unknown_kind kind offset (CndbError.unknown_record_kind k o) = k == kind && o == offset
is_unknown_kind kind offset _ = false

-- `b ^ 0x01`
abbrev flip_low_bit : ℕ → ℕ
flip_low_bit b = if b % 2 == 0 then b + 1 else b - 1

abbrev every : List RecordKind → (RecordKind → Bool) → Bool
every [] p = true
every (k ∷ ks) p = p k && every ks p

module _ (hash : Bytes → ℕ) where
  abbrev pub frame_roundtrips : Bool
  frame_roundtrips =
      let payload = as_bytes "the quick brown fox" in
      unwrap (decode_frame (encode_frame hash RecordKind.blob payload) 128) (λ decoded.
        decoded.len == length payload
        && (kind_eq decoded.kind RecordKind.blob
            && (total_len decoded == record_header_size + length payload
                && unwrap (verify_payload hash decoded payload 128) (λ _. true))))

  abbrev pub empty_payload_is_legal : Bool
  empty_payload_is_legal =
      unwrap (decode_frame (encode_frame hash RecordKind.tombstone []) 0)
        (λ decoded. decoded.len == 0 && unwrap (verify_payload hash decoded [] 0) (λ _. true))

  abbrev pub detects_a_single_flipped_bit_in_the_payload : Bool
  detects_a_single_flipped_bit_in_the_payload =
      let payload = as_bytes "cndb storage core" in
      unwrap (decode_frame (encode_frame hash RecordKind.blob payload) 0) (λ frame.
        all_below (length payload) (λ i.
          let corrupt = set_byte payload i (flip_low_bit (get_or payload i 0)) in
          fails is_record_checksum (verify_payload hash frame corrupt 0)))

  abbrev pub every_kind_survives_its_tag : Bool
  every_kind_survives_its_tag =
      every
        (RecordKind.node ∷ RecordKind.edge ∷ RecordKind.blob ∷ RecordKind.tombstone
          ∷ RecordKind.master_index ∷ [])
        (λ kind.
          unwrap (decode_frame (encode_frame hash kind (as_bytes "x")) 0)
            (λ frame. kind_eq frame.kind kind))

  abbrev pub rejects_unknown_kinds : Bool
  rejects_unknown_kinds =
      let frame = set_byte (encode_frame hash RecordKind.blob (as_bytes "x")) 4 5 in
      fails (is_unknown_kind 5 64) (decode_frame frame 64)

  abbrev pub rejects_absurd_lengths_before_allocating : Bool
  rejects_absurd_lengths_before_allocating =
      let frame =
        copy_at (encode_frame hash RecordKind.blob (as_bytes "x")) 0 (to_le_bytes 4 (2 ^ 32 - 1)) in
      fails is_record_too_large (decode_frame frame 0)

abbrev pub only_user_data_counts_as_a_document : Bool
only_user_data_counts_as_a_document =
    is_document RecordKind.node
    && (is_document RecordKind.edge
        && (is_document RecordKind.blob
            && (not (is_document RecordKind.tombstone)
                && not (is_document RecordKind.master_index))))
