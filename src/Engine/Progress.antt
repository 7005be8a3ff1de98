-- ===== src/Engine/Progress.antt =====
-- The operations of src/storage/engine.rs where no call of the operating system fails.
use cndb.Prelude.{
  ◌+◌, ◌≤◌, ◌<◌, ◌^◌, ◌≡◌, refl, ap, ◌∙◌, Bool, true, false, not, if◌then◌else◌, Bytes, length,
  arith, le→ltb_false, lt→ltb,
}
use cndb.Prelude.Words.{u64}
use cndb.Result.{ok, err}
use cndb.Error.{RecordKind, master_index, record_too_large}
use cndb.Record.{max_record_len, record_header_size, encode_frame}
use cndb.Header
use cndb.Header.{Header, victim_slot, slot_offset}
use cndb.Index
use cndb.Index.{allocate_id}
use cndb.Index.Validity.{assign}
use cndb.File.{write_all_at, sync}
use cndb.File.Calm.{IsCalm, write_all_at-IsCalm, sync-IsCalm}
use cndb.Crates.{Crates}
use cndb.Engine.{StorageEngine, append_raw, append, assign_id, on_file}
use cndb.Engine.Commit.{write_master, write_header, prepare, commit_dirty, commit}

module _ (c : Crates) where
  append_raw-IsCalm :
      (kind : RecordKind) (payload : Bytes) (e : StorageEngine)
      → IsCalm e.file
      → length payload ≤ max_record_len
      → ((append_raw c kind payload e).0 ≡ ok e.end)
        × IsCalm (append_raw c kind payload e).1.file
        × ((append_raw c kind payload e).1.index ≡ e.index)
  unfolding append_raw
  append_raw-IsCalm kind payload e calm fits =
      let (p, calm1) = write_all_at-IsCalm (encode_frame c.hash kind payload) e.end e.file calm in
      let (q, calm2) =
        write_all_at-IsCalm payload (u64 (e.end + record_header_size))
          (write_all_at (encode_frame c.hash kind payload) e.end e.file).1 calm1 in
      rw (le→ltb_false max_record_len (u64 (length payload)) (omega arith), p, q)
        (refl, calm2, refl)

  -- If every call of the operating system is carried out, and the payload has at most 64 MiB,
  -- then `append` returns the next id of the index.
  pub append-IsCalm :
      (kind : RecordKind) (payload : Bytes) (e : StorageEngine)
      → IsCalm e.file
      → length payload ≤ max_record_len
      → (append c kind payload e).0 ≡ ok e.index.next_doc_id
  unfolding append assign_id allocate_id
  append-IsCalm kind payload e calm fits =
      let (done, calm1, same) = append_raw-IsCalm kind payload e calm fits in rw (done, same) refl

  -- And then it has done what it is to do.
  pub append_done :
      (kind : RecordKind) (payload : Bytes) (e : StorageEngine)
      → IsCalm e.file
      → length payload ≤ max_record_len
      → IsCalm (append c kind payload e).1.file
        × ((append c kind payload e).1.index ≡ assign e.index e.end)
        × ((append c kind payload e).1.end
            ≡ u64 (e.end + record_header_size + u64 (length payload)))
        × ((append c kind payload e).1.header ≡ e.header)
  unfolding append append_raw assign_id
  append_done kind payload e calm fits =
      let (p, calm1) = write_all_at-IsCalm (encode_frame c.hash kind payload) e.end e.file calm in
      let (q, calm2) =
        write_all_at-IsCalm payload (u64 (e.end + record_header_size))
          (write_all_at (encode_frame c.hash kind payload) e.end e.file).1 calm1 in
      rw (le→ltb_false max_record_len (u64 (length payload)) (omega arith), p, q)
        (calm2, refl, refl, refl)

  write_header-IsCalm :
      (next : Header) (e : StorageEngine) → IsCalm e.file → (write_header c next e).0 ≡ ok tt
  unfolding write_header on_file
  write_header-IsCalm next e calm =
      let (p, calm1) =
        write_all_at-IsCalm (Header.encode c.hash next) (slot_offset (victim_slot e.slots)) e.file
          calm in
      rw
        (
          p,
          (sync-IsCalm
              (write_all_at (Header.encode c.hash next) (slot_offset (victim_slot e.slots))
                e.file).1
              calm1).0,
        )
        refl

  write_master-IsCalm :
      (e : StorageEngine) (payload : Bytes)
      → IsCalm e.file
      → c.serialize e.index ≡ ok payload
      → length payload ≤ max_record_len
      → (next : Header) × ((write_master c e).0 ≡ ok next) × IsCalm (write_master c e).1.file
  unfolding write_master Index.encode on_file
  write_master-IsCalm e payload calm serialized fits =
      let (done, calm1, same) = append_raw-IsCalm master_index payload e calm fits in
      let (p, calm2) = sync-IsCalm (append_raw c master_index payload e).1.file calm1 in
      let next : Header = record {
        generation = u64 ((append_raw c master_index payload e).1.header.generation + 1);
        master_ptr = e.end;
        master_len = u64 (length payload);
        log_end = (append_raw c master_index payload e).1.end;
      } in
      (next, rw (serialized, done, p) refl, rw (serialized, done, p) calm2)

  commit_dirty-IsCalm :
      (e : StorageEngine) (payload : Bytes)
      → IsCalm e.file
      → c.serialize e.index ≡ ok payload
      → length payload ≤ max_record_len
      → (commit_dirty c e).0 ≡ ok tt
  unfolding commit_dirty prepare on_file
  commit_dirty-IsCalm e payload calm serialized fits =
      let (p, calm1) = sync-IsCalm e.file calm in
      let (next, q, calm2) =
        write_master-IsCalm (record e { file = (sync e.file).1 }) payload calm1 serialized fits in
      rw (p, q) (write_header-IsCalm next _ calm2)

  -- If every call of the operating system is carried out, and the index serializes to at most 64
  -- MiB, then a commit succeeds.
  pub commit-IsCalm :
      (e : StorageEngine) (payload : Bytes)
      → IsCalm e.file
      → c.serialize e.index ≡ ok payload
      → length payload ≤ max_record_len
      → (commit c e).0 ≡ ok tt
  unfolding commit
  commit-IsCalm e payload calm serialized fits = go e.dirty
    where
      go : (b : Bool) → (if not b then (ok tt, e) else commit_dirty c e).0 ≡ ok tt
      go true = commit_dirty-IsCalm e payload calm serialized fits
      go false = refl

  commit_dirty-too_long :
      (e : StorageEngine) (payload : Bytes)
      → IsCalm e.file
      → c.serialize e.index ≡ ok payload
      → max_record_len < length payload
      → length payload < 2 ^ 64
      → (commit_dirty c e).0 ≡ err (record_too_large e.end (length payload) max_record_len)
  unfolding commit_dirty prepare write_master Index.encode append_raw on_file
  commit_dirty-too_long e payload calm serialized long word =
      let (p, calm1) = sync-IsCalm e.file calm in
      let same : u64 (length payload) ≡ length payload = omega arith in
      rw (p, serialized, same, lt→ltb max_record_len (length payload) long) refl

  -- If every call of the operating system is carried out, there is something to commit, and the
  -- index serializes to more than 64 MiB, of a length that is a `u64`, then a commit fails with
  -- `RecordTooLarge` at the end of the log.
  pub commit-too_long :
      (e : StorageEngine) (payload : Bytes)
      → IsCalm e.file
      → e.dirty ≡ true
      → c.serialize e.index ≡ ok payload
      → max_record_len < length payload
      → length payload < 2 ^ 64
      → (commit c e).0 ≡ err (record_too_large e.end (length payload) max_record_len)
  unfolding commit
  commit-too_long e payload calm changed serialized long word =
      ap (λ b. (if not b then (ok tt, e) else commit_dirty c e).0) changed
      ∙ commit_dirty-too_long e payload calm serialized long word
