-- ===== src/Tests/HandleSuite.antt =====
-- The unit tests of src/api.rs, on the model with the concrete crates, and one of
-- src/document/codec.rs, with any.
use cndb.Prelude.{◌≡◌, refl, true, false, Bool, [], ◌∷◌, bytes_eq}
use cndb.Record.{encode_frame, decode_frame, verify_payload, total_len}
use cndb.Header
use cndb.Header.{select_live, victim_slot, set_slot, slot_offset}
use cndb.Collections.{contains, get, insert, keys, contains_key, add, without}
use cndb.Index
use cndb.Index.{allocate_id, insert_offset, mark_dead, live_count}
use cndb.File.{write_all_at, sync, write_bytes, advance, read_exact_at, bytes, overwrite}
use cndb.Log.{scan_loop, scan_record, read_record_at, read_frame_at}
use cndb.Engine
use cndb.Engine.{append, append_raw, assign_id, read, read_record, tombstone, delete_record}
use cndb.Engine.Open.{open_db, load}
use cndb.Engine.Commit.{commit, commit_dirty, prepare, write_master, write_header}
use cndb.Document.{ValueKind, DocCrates, IsDocLawful, to_bson_bytes, from_bson_bytes, type_name}
use cndb.Document.Codec.{to_bson_bytes-refused}
use cndb.Api
use cndb.Api.{open_handle, on_store, ids}
use cndb.Suite.{all_pass, as_bytes}
use cndb.Suite.Handles
use cndb.Tests.Bincode.{crates}
use cndb.Tests.Json.{Json, nothing, fields, doc_crates}

abbrev named_commit : Json → Bool
named_commit nothing = false
named_commit (fields bs) = bytes_eq bs (as_bytes "commit")

handle_tests :
    all_pass (
      Handles.documents_roundtrip_across_a_reopen crates doc_crates
        (fields (as_bytes "commit"))
        (fields (as_bytes "gone"))
        named_commit
      ∷ Handles.dropping_without_committing_discards_writes crates doc_crates
          (fields (as_bytes "never committed"))
      ∷ Handles.non_objects_are_refused_before_anything_is_written crates doc_crates nothing
      ∷ [])
    ≡ true
unfolding open_db load write_all_at sync write_bytes advance read_exact_at bytes overwrite
    Header.encode Header.decode select_live victim_slot set_slot slot_offset Engine.is_empty
    Engine.len live_count Engine.live_ids Index.live_ids without Engine.verify scan_loop scan_record
    read_record_at read_frame_at decode_frame encode_frame verify_payload total_len append
    append_raw assign_id allocate_id insert_offset mark_dead insert get keys contains contains_key
    add commit commit_dirty prepare write_master write_header Index.encode Index.decode read
    read_record tombstone delete_record open_handle on_store ids Api.insert Api.get Api.delete
    Api.commit Api.verify Api.len Api.is_empty to_bson_bytes from_bson_bytes type_name
handle_tests = refl

codec_tests :
    (d : DocCrates) {Storable : d.Value → Type 0} (lawful : IsDocLawful d Storable)
    (a b n s l : d.Value)
    → d.kind_of a ≡ ValueKind.null
    → d.kind_of b ≡ ValueKind.bool
    → d.kind_of n ≡ ValueKind.number
    → d.kind_of s ≡ ValueKind.string
    → d.kind_of l ≡ ValueKind.array
    → Handles.non_objects_are_refused_with_their_type_named d a b n s l ≡ true
unfolding type_name
codec_tests d lawful a b n s l pa pb pn ps pl =
    rw
      (
        to_bson_bytes-refused d lawful a (λ p. cc),
        to_bson_bytes-refused d lawful b (λ p. cc),
        to_bson_bytes-refused d lawful n (λ p. cc),
        to_bson_bytes-refused d lawful s (λ p. cc),
        to_bson_bytes-refused d lawful l (λ p. cc),
      )
      (rw (pa, pb, pn, ps, pl) refl)
