-- ===== src/Engine/Sound.antt =====
-- What holds of an engine of src/storage/engine.rs whatever file it was opened on and whatever the
-- operating system does with its calls.
pub mod Commits
pub mod Calls
use cndb.Prelude.{
  ℕ, ◌+◌, ◌≤◌, ◌<◌, ◌^◌, ◌≡◌, refl, subst, sym, Bytes, length, arith, ltb, Bool-cases, inl, inr,
  if◌then◌else◌, not, true,
}
use native.Mathlib.Decide.{dec_lt}
use cndb.Prelude.Words.{u64, to_le_bytes}
use cndb.Result.{StdResult, ok, err, map_err, StdResult-cases}
use cndb.Error.{DocId, RecordKind, IoError, io, record_too_large}
use cndb.Exec.{Exec, gets, modify, pure, raise, ◌>>=◌, ◌>>◌}
use cndb.Exec.Meets.{Meets, Meets-ok, Meets-err, Meets-if, Meets-branch, Meets-bind}
use cndb.Record.{record_header_size, max_record_len, encode_frame}
use cndb.Header.{Header, Slots, log_start, select_live}
use cndb.Index.{MasterIndex, mark_dead}
use cndb.Collections.{contains, contains_key}
use cndb.File.{File, write_all_at}
use cndb.File.Writes.{write_all_at-Wrote, write_all_at-len}
use cndb.Crates.{Crates}
use cndb.Engine.Appending.{length-encode_frame}
use cndb.Engine.{StorageEngine, on_file, append_raw, assign_id, append, delete_record, tombstone}

-- The live header is the one that the slots say; both header slots, the committed log and the
-- pending log lie inside the file.
pub record IsSound (e : StorageEngine) : Type 0 where
  pub live : select_live e.slots ≡ ok (e.header, e.live_slot)
  pub region : log_start ≤ e.file.len
  pub committed : e.header.log_end ≤ e.file.len
  pub pending : e.end ≤ e.file.len

longer-IsSound :
    (e : StorageEngine) (g : File)
    → IsSound e
    → e.file.len ≤ g.len
    → IsSound (record e { file = g })
longer-IsSound e g s le = record {
  live = s.live;
  region = omega (arith, s.region);
  committed = omega (arith, s.committed);
  pending = omega (arith, s.pending);
}

-- A call on the file.
on_file-Meets :
    {A : Type 0} (P : StorageEngine → Type 0) (call : File → StdResult IoError A × File)
    (e : StorageEngine)
    → P (record e { file = (call e.file).1 })
    → Meets P
        (λ v e'. (e' ≡ record e { file = (call e.file).1 }) × ((call e.file).0 ≡ ok v))
        (on_file call e)
unfolding on_file
on_file-Meets P call e s = elim (StdResult-cases (call e.file).0) [
  | inl (v, p) ↦ rw p (Meets-ok P _ v _ s (refl, refl))
  | inr (x, p) ↦ rw p (Meets-err P _ (io x) _ s)
]

-- A call on the file, and then `rest`.
pub call-then :
    {A T : Type 0} (P : StorageEngine → Type 0) (Q : T → StorageEngine → Type 0)
    (call : File → StdResult IoError A × File) (rest : A → Exec StorageEngine T) (e : StorageEngine)
    → P (record e { file = (call e.file).1 })
    → ((v : A) → (call e.file).0 ≡ ok v → Meets P Q (rest v (record e { file = (call e.file).1 })))
    → Meets P Q ((on_file call >>= rest) e)
call-then P Q call rest e h k =
    Meets-bind P _ Q (on_file call) rest e (on_file-Meets P call e h)
      (λ v e1 _ (p, q). subst (λ x. Meets P Q (rest v x)) (sym p) (k v q))

-- A call that does not shorten the file, and then `rest`.
pub on_file-then :
    {A T : Type 0} (Q : T → StorageEngine → Type 0) (call : File → StdResult IoError A × File)
    (rest : A → Exec StorageEngine T) (e : StorageEngine)
    → IsSound e
    → e.file.len ≤ (call e.file).1.len
    → ((v : A)
        → (call e.file).0 ≡ ok v
        → IsSound (record e { file = (call e.file).1 })
        → Meets IsSound Q (rest v (record e { file = (call e.file).1 })))
    → Meets IsSound Q ((on_file call >>= rest) e)
on_file-then Q call rest e s grows k =
    let longer = longer-IsSound e (call e.file).1 s grows in
    call-then IsSound Q call rest e longer (λ v q. k v q longer)

-- The end of a record that two calls have written is inside the file, also where `u64` wraps around.
module _ (c : Crates) (kind : RecordKind) (payload : Bytes) (end : ℕ) (f : File) where
  abbrev frame_bytes : Bytes
  frame_bytes = encode_frame c.hash kind payload

  abbrev framed : File
  framed = (write_all_at frame_bytes end f).1

  abbrev body_offset : ℕ
  body_offset = u64 (end + record_header_size)

  abbrev written : File
  written = (write_all_at payload body_offset framed).1

  new_end-le :
      (write_all_at frame_bytes end f).0 ≡ ok tt
      → (write_all_at payload body_offset framed).0 ≡ ok tt
      → u64 (end + record_header_size + u64 (length payload)) ≤ written.len
  new_end-le p q = elim (dec_lt 0 (length payload)) [
    | yes some_bytes ↦ omega (arith, write_all_at-len payload body_offset framed q some_bytes)
    | no nothing ↦
        let n = length-encode_frame c.hash kind payload in
        omega (
          arith,
          n,
          write_all_at-len frame_bytes end f p (omega (arith, n)),
          (write_all_at-Wrote payload body_offset framed).grows,
        )
  ]

module _ (c : Crates) where
  -- The header stays what it was.
  abbrev pub KeepsHeader : {T : Type 0} → Header → T → StorageEngine → Type 0
  KeepsHeader h v e = e.header ≡ h

  pub append_raw-Meets :
      (kind : RecordKind) (payload : Bytes) (e : StorageEngine)
      → IsSound e
      → Meets IsSound (KeepsHeader e.header) (append_raw c kind payload e)
  unfolding append_raw
  append_raw-Meets kind payload e s =
      let len = u64 (length payload) in
      let done : Exec StorageEngine ℕ =
        modify (λ e'. record e' { end = u64 (e.end + record_header_size + len); dirty = true })
        >> pure e.end in
      let write_body : Exec StorageEngine ℕ =
        on_file (write_all_at payload (u64 (e.end + record_header_size))) >> done in
      let write_frame : Exec StorageEngine ℕ =
        on_file (write_all_at (encode_frame c.hash kind payload) e.end) >> write_body in
      let f = framed c kind payload e.end e.file in
      Meets-branch IsSound _ (ltb max_record_len len)
        (raise (record_too_large e.end len max_record_len)) (write_frame) e
        (Meets-err IsSound _ _ e s)
        (on_file-then _ (write_all_at (encode_frame c.hash kind payload) e.end) (λ _. write_body) e
          s (write_all_at-Wrote _ e.end e.file).grows
          (λ _ p s1.
            on_file-then _ (write_all_at payload (u64 (e.end + record_header_size))) (λ _. done)
              (record e { file = f }) s1 (write_all_at-Wrote payload _ f).grows
              (λ _ q s2.
                Meets-ok IsSound _ _ _
                  (record {
                    live = s2.live;
                    region = s2.region;
                    committed = s2.committed;
                    pending = new_end-le c kind payload e.end e.file p q;
                  })
                  refl)))

  -- The index may be any.
  index-IsSound :
      (e : StorageEngine) (index : MasterIndex) → IsSound e → IsSound (record e { index = index })
  index-IsSound e index s = record {
    live = s.live;
    region = s.region;
    committed = s.committed;
    pending = s.pending;
  }

  pub append-IsSound :
      (kind : RecordKind) (payload : Bytes) (e : StorageEngine)
      → IsSound e
      → IsSound (append c kind payload e).1
  unfolding append assign_id
  append-IsSound kind payload e s =
      (Meets-bind IsSound _ (λ _ _. Unit) (append_raw c kind payload) (assign_id c) e
        (append_raw-Meets kind payload e s)
        (λ offset e1 s1 _. Meets-ok IsSound _ _ _ (index-IsSound e1 _ s1) tt)).state

  pub tombstone-IsSound :
      (id : DocId) (e : StorageEngine) → IsSound e → IsSound (tombstone c id e).1
  unfolding tombstone delete_record
  tombstone-IsSound id e s =
      (Meets-if IsSound (λ _ _. Unit) (contains e.index.dead id) _ _ (Meets-err IsSound _ _ e s)
        (Meets-if IsSound _ (not (contains_key e.index.offsets id)) _ _ (Meets-err IsSound _ _ e s)
          (Meets-bind IsSound _ _ (append_raw c RecordKind.tombstone (to_le_bytes 8 id))
            (λ _. modify (λ e. record e { index = mark_dead e.index id })) e
            (append_raw-Meets RecordKind.tombstone (to_le_bytes 8 id) e s)
            (λ offset e1 s1 _. Meets-ok IsSound _ _ _ (index-IsSound e1 _ s1) tt)))).state
