-- ===== src/Tests/Formats.antt =====
-- The theorems on headers, records, the master index, files and documents, at work on values.
use cndb.Prelude.{
  ℕ, ◌≤◌, ◌<◌, ◌^◌, ◌↔◌, ◌≡◌, ◌≢◌, refl, none, some, [], ◌∷◌, Bytes, ltb→lt, leb→le, arith,
}
use cndb.Result.{ok, err}
use cndb.Error.{RecordKind, CndbError}
use cndb.Record.{encode_frame, decode_frame}
use cndb.Record.Framing.{decode_frame-encode_frame}
use cndb.Header
use cndb.Header.{
  Header, Slots, header_slots, log_start, initial, select_live, victim_slot, set_slot,
}
use cndb.Header.Codec.{decode-encode}
use cndb.Header.Canonical.{encode-decode}
use cndb.Header.Octets.{encode-IsBytes}
use cndb.Prelude.{drop, replicate}
use cndb.Header.Slots.{victim_slot-ne-live}
use cndb.Collections.{contains, contains_key, add, insert}
use cndb.Index
use cndb.Index.{
  MasterIndex, allocate_id, insert_offset, is_live, offset_of, live_ids, live_count, dead_count,
  dead_ratio, mark_dead,
}
use cndb.Index.Validity.{IsValid, empty-IsValid, assign, assign-IsValid, mark_dead-IsValid}
use cndb.Float.{finite, unity}
use cndb.Index.Ratio.{dead_ratio_bounds}
use cndb.Tests.Bincode.{crates, crates-IsLawful}

abbrev later : Header
later = record { generation = 7; master_ptr = 128; master_len = 40; log_end = 300 }

abbrev payload : Bytes
payload = b'x' ∷ b'y' ∷ b'z' ∷ []

-- A database after its first commits: slot 0 holds generation 0, slot 1 generation 7.
abbrev both : Slots
both = (some initial, some later)

decode-encode_example : Header.decode crates.hash (Header.encode crates.hash later) 1 ≡ ok later
decode-encode_example = decode-encode crates.hash crates-IsLawful.hash-lt later 1 (omega arith)

later_bytes : drop 44 (Header.encode crates.hash later) ≡ replicate 20 0
unfolding Header.encode
later_bytes = refl

encode-decode_example : Header.encode crates.hash later ≡ Header.encode crates.hash later
encode-decode_example =
    encode-decode crates.hash (Header.encode crates.hash later) 1 later
      (encode-IsBytes crates.hash later) later_bytes decode-encode_example

both-live : select_live both ≡ ok (later, 1)
unfolding select_live
both-live = refl

victim_slot-ne-live_example : victim_slot both ≢ 1
victim_slot-ne-live_example = victim_slot-ne-live both both-live

none-live : select_live (none, none) ≡ err CndbError.no_valid_header
unfolding select_live
none-live = refl

decode_frame-encode_frame_example :
    decode_frame (encode_frame crates.hash RecordKind.edge payload) 500
    ≡ ok (record { len = 3; kind = RecordKind.edge; crc = crates.hash payload })
decode_frame-encode_frame_example =
    decode_frame-encode_frame crates.hash crates-IsLawful.hash-lt RecordKind.edge payload 500
      (leb→le _ _ refl)

-- The index after two documents, and after one of them has been deleted.
abbrev two : MasterIndex
two = record { offsets = (1, 128) ∷ (2, 139) ∷ []; dead = []; next_doc_id = 3 }

abbrev one_dead : MasterIndex
one_dead = record { offsets = (1, 128) ∷ (2, 139) ∷ []; dead = 1 ∷ []; next_doc_id = 3 }

two-IsValid : IsValid two
unfolding allocate_id insert_offset insert
two-IsValid =
    assign-IsValid (assign Index.empty 128)
      (assign-IsValid Index.empty empty-IsValid 128 (ltb→lt _ _ refl) (ltb→lt _ _ refl)) 139
      (ltb→lt _ _ refl) (ltb→lt _ _ refl)

one_dead-IsValid : IsValid one_dead
unfolding mark_dead add contains contains_key
one_dead-IsValid = mark_dead-IsValid two two-IsValid 1 refl

dead_ratio_bounds_example :
    (share : ℕ) × (dead_ratio one_dead ≡ finite share)
    × (share ≤ unity)
    × ((share ≡ 0) ↔ (dead_count one_dead ≡ 0))
    × (0 < dead_count one_dead → live_count one_dead ≡ 0 → share ≡ unity)
dead_ratio_bounds_example = dead_ratio_bounds one_dead one_dead-IsValid (leb→le 3 (2 ^ 53) refl)
