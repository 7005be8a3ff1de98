-- ===== src/Engine/Sound/Commits.antt =====
-- `commit` of src/storage/engine.rs on an engine that is sound.
use cndb.Prelude.{
  ◌+◌, ◌≤◌, ◌<◌, ◌^◌, ◌≡◌, refl, ◌∙◌, ap, sym, inl, inr, ℕ, not, false, arith, Bytes, length,
}
use cndb.Prelude.Words.{u64}
use cndb.Result.{StdResult-cases}
use cndb.Error.{master_index}
use cndb.Exec.{Exec, gets, modify, ◌>>=◌, ◌>>◌}
use cndb.Exec.Meets.{Meets, Meets-ok, Meets-err, Meets-if, Meets-bind}
use cndb.Header.{Header, victim_slot, set_slot, slot_offset, select_live}
use cndb.Header
use cndb.Header.Slots.{select_live-set_slot}
use cndb.Index
use cndb.File.{File, write_all_at, sync}
use cndb.File.Writes.{write_all_at-Wrote, sync-Wrote, sync-Synced}
use cndb.Crates.{Crates}
use cndb.Engine.{StorageEngine, on_file, append_raw}
use cndb.Engine.Commit.{commit, commit_dirty, prepare, write_master, write_header}
use cndb.Engine.Sound.{IsSound, on_file-then, append_raw-Meets, KeepsHeader}

pub sync-grows : (f : File) → f.len ≤ (sync f).1.len
sync-grows f = elim (StdResult-cases (sync f).0) [
  | inl (v, p) ↦ omega (arith, (sync-Synced f p).len)
  | inr (x, p) ↦ omega (arith, (sync-Wrote 0 0 f (λ q. cc)).grows)
]

module _ (c : Crates) where
  -- The header of the next generation, for a log that lies inside the file.
  record IsNext (h next : Header) (e : StorageEngine) : Type 0 where
    generation : next.generation ≡ u64 (h.generation + 1)
    log_end : next.log_end ≤ e.file.len
    header : e.header ≡ h

  write_master-Meets :
      (e : StorageEngine) → IsSound e → Meets IsSound (IsNext e.header) (write_master c e)
  unfolding write_master
  write_master-Meets e s =
      let next : Bytes → ℕ → StorageEngine → Header = λ payload master_ptr e. record {
        generation = u64 (e.header.generation + 1);
        master_ptr = master_ptr;
        master_len = u64 (length payload);
        log_end = e.end;
      } in
      let synced : Bytes → ℕ → Exec StorageEngine Header =
        λ payload ptr. on_file sync >> gets (next payload ptr) in
      Meets-bind IsSound (KeepsHeader c e.header) _ (λ e. (Index.encode c.serialize e.index, e))
        (λ payload. append_raw c master_index payload >>= synced payload) e (encoded e s)
        (λ payload e1 s1 h1.
          Meets-bind IsSound (KeepsHeader c e1.header) _ (append_raw c master_index payload)
            (synced payload) e1 (append_raw-Meets c master_index payload e1 s1)
            (λ ptr e2 s2 h2.
              on_file-then _ sync (λ _. gets (next payload ptr)) e2 s2 (sync-grows e2.file)
                (λ _ p s3. Meets-ok IsSound _ _ _ s3 (record {
                  generation = ap (λ h. u64 (h.generation + 1)) (h2 ∙ h1);
                  log_end = s3.pending;
                  header = h2 ∙ h1;
                }))))
    where
      encoded :
          (e : StorageEngine)
          → IsSound e
          → Meets IsSound (KeepsHeader c e.header) (Index.encode c.serialize e.index, e)
      encoded e s = elim (StdResult-cases (Index.encode c.serialize e.index)) [
        | inl (v, p) ↦ rw p (Meets-ok IsSound _ v e s refl)
        | inr (x, p) ↦ rw p (Meets-err IsSound _ x e s)
      ]

  prepare-Meets : (e : StorageEngine) → IsSound e → Meets IsSound (IsNext e.header) (prepare c e)
  unfolding prepare
  prepare-Meets e s =
      on_file-then _ sync (λ _. write_master c) e s (sync-grows e.file)
        (λ _ p s1. write_master-Meets (record e { file = (sync e.file).1 }) s1)

  write_header-Meets :
      (next : Header) (e : StorageEngine)
      → IsSound e
      → IsNext e.header next e
      → e.header.generation + 1 < 2 ^ 64
      → Meets IsSound (λ _ _. Unit) (write_header c next e)
  unfolding write_header
  write_header-Meets next e s n more =
      let slot = victim_slot e.slots in
      let turn : Exec StorageEngine Unit = modify (λ e. record e {
        header = next;
        slots = set_slot e.slots slot next;
        live_slot = slot;
        dirty = false;
      }) in
      let image = Header.encode c.hash next in
      let g = (write_all_at image (slot_offset slot) e.file).1 in
      let grown = (write_all_at-Wrote image (slot_offset slot) e.file).grows in
      on_file-then _ (write_all_at image (slot_offset slot)) (λ _. on_file sync >> turn) e s grown
        (λ _ p s1.
          on_file-then _ sync (λ _. turn) (record e { file = g }) s1 (sync-grows g)
            (λ _ q s2.
              Meets-ok IsSound _ _ _
                (record {
                  live = select_live-set_slot e.slots next s.live (omega (arith, n.generation));
                  region = s2.region;
                  committed = omega (arith, n.log_end, grown, sync-grows g);
                  pending = s2.pending;
                })
                tt))

  pub commit-IsSound :
      (e : StorageEngine) → IsSound e → e.header.generation + 1 < 2 ^ 64 → IsSound (commit c e).1
  unfolding commit commit_dirty
  commit-IsSound e s more =
      (Meets-if IsSound (λ _ _. Unit) (not e.dirty) _ _ (Meets-ok IsSound _ tt e s tt)
        (Meets-bind IsSound _ _ (prepare c) (write_header c) e (prepare-Meets e s) (λ next e1 s1 n.
          write_header-Meets next e1 s1
            (record {
              generation =
                  n.generation ∙ ap (λ (h : Header). u64 (h.generation + 1)) (sym n.header);
              log_end = n.log_end;
              header = refl;
            })
            (omega (arith, ap (λ (h : Header). h.generation) n.header))))).state
