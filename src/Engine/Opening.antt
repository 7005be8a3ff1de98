-- ===== src/Engine/Opening.antt =====
-- `open` of src/storage/engine.rs on a new file, and on files that are no database.
use cndb.Prelude.{
  ℕ, ◌≤◌, ◌<◌, ◌≡◌, refl, ◌∙◌, subst, ap, ◌⊎◌, inl, inr, none, some, String, [], Bytes, length,
  arith, slice, copy_at, replicate, lt→ltb, le→ltb_false,
}
use cndb.Result.{ok, err, StdResult-cases}
use cndb.Error.{CndbError, IoError, io, unexpected_eof_at}
use cndb.Header.{Header, Slots, header_size, log_start, initial, select_live, victim_slot}
use cndb.Header
use cndb.Header.Codec.{IsU64, decode-encode}
use cndb.Index
use cndb.Index.Validity.{empty-IsValid}
use cndb.File.{File, bytes, write_all_at, sync}
use cndb.File.Bytes.{bytes-Agree, read_exact_at_lem}
use cndb.File.Writes.{Synced, Synced-self, sync-Synced, write_all_at-bytes, write_all_at-len}
use cndb.Crates.{Crates, IsLawful}
use cndb.Store
use cndb.Store.{Store}
use cndb.Engine.{StorageEngine, on_file}
use cndb.Engine.Open.{decoded, decode_slot, fresh, open_db}
use cndb.Engine.Layout.{empty-Holds, Synced-IsSafe}
use cndb.Engine.Invariant.{Inv, slot_bytes}

pub initial-IsU64 : IsU64 initial
initial-IsU64 = omega arith

module _ (c : Crates) where
  abbrev pub region : Bytes
  region = copy_at (replicate log_start 0) 0 (Header.encode c.hash initial)

  region-slot_0 : slice 0 header_size region ≡ Header.encode c.hash initial
  unfolding Header.encode
  region-slot_0 = refl

  region-slot_1 : slice header_size log_start region ≡ replicate header_size 0
  unfolding Header.encode
  region-slot_1 = refl

  pub length-region : length region ≡ log_start
  unfolding Header.encode
  length-region = refl

  -- The second slot of a new file decodes to nothing.
  decode-zeros : (slot : ℕ) → decoded (Header.decode c.hash (replicate header_size 0) slot) ≡ none
  unfolding Header.decode
  decode-zeros slot = refl

  abbrev pub created : File → String → StorageEngine
  created g path = record (fresh g path) { slots = (some initial, none) }

  abbrev pub laid : File → File
  laid f = (write_all_at region 0 f).1

module _ (c : Crates) (lawful : IsLawful c) where
  created-Inv :
      (g : File) (path : String)
      → Synced g g
      → log_start ≤ g.len
      → bytes g.byte 0 log_start ≡ region c
      → Inv c (created c g path) Store.empty Store.empty []
  unfolding bytes
  created-Inv g path s fits laid = record {
    valid = empty-IsValid;
    holds = empty-Holds c.hash g.byte log_start;
    inside = fits;
    small = omega arith;
    records = [];
    laid = refl;
    live = unfold select_live in refl;
    in_slot =
        ap (λ b. decoded (Header.decode c.hash b 0)) (slot_0 ∙ region-slot_0 c)
        ∙ ap decoded (decode-encode c.hash lawful.hash-lt initial 0 initial-IsU64);
    backed = record {
      idx = Index.empty;
      u64 = initial-IsU64;
      starts = omega arith;
      inside = fits;
      master = inl (refl, refl);
      valid = empty-IsValid;
      holds = empty-Holds c.hash g.byte log_start;
      records = [];
      laid = refl;
    };
    behind = omega arith;
    slot_safe = Synced-IsSafe s (omega arith);
    log_safe = Synced-IsSafe s fits;
    attempts_ok = tt;
    settled = λ p.
        unfold victim_slot in
        (
          ap (λ b. decoded (Header.decode c.hash b 1)) (slot_1 ∙ region-slot_1 c)
              ∙ decode-zeros c 1,
          Synced-IsSafe s (omega arith),
        );
    clean = λ p. (refl, refl);
  }
    where
      slot_0 : slot_bytes g 0 ≡ slice 0 header_size (region c)
      slot_0 = ap (slice 0 header_size) laid

      slot_1 : slot_bytes g 1 ≡ slice header_size log_start (region c)
      slot_1 = ap (slice header_size log_start) laid

  module _ (f : File) (path : String) where
    -- The engine of a new file, once `initialize` has succeeded.
    pub initialized-Inv :
        (write_all_at (region c) 0 f).0 ≡ ok tt
        → (sync (laid c f)).0 ≡ ok tt
        → Inv c (created c (sync (laid c f)).1 path) Store.empty Store.empty []
    initialized-Inv p q =
        let s = sync-Synced (laid c f) q in
        let written =
          subst (λ n. bytes (laid c f).byte 0 n ≡ region c) (length-region c)
            (write_all_at-bytes (region c) 0 f p) in
        created-Inv (sync (laid c f)).1 path (Synced-self s)
          (omega (arith, s.len, length-region c, write_all_at-len (region c) 0 f p))
          (bytes-Agree _ _ _ _ (λ i l h. s.same i) ∙ written)

    -- With lawful crates, opening an empty file returns an engine in a valid state whose
    -- committed and present store are empty and whose header is the initial one, or it fails with
    -- an I/O error.
    pub open_db-new :
        f.len ≡ 0
        → ((e : StorageEngine) × (open_db c f path ≡ (ok e, e.file))
            × Inv c e Store.empty Store.empty []
            × (e.header ≡ initial))
          ⊎ ((x : IoError) × ((open_db c f path).0 ≡ err (io x)))
    unfolding open_db on_file
    open_db-new is_new =
        rw (le→ltb_false 0 f.len (omega arith))
          (elim (StdResult-cases (write_all_at (region c) 0 f).0) [
            | inr (x, p) ↦ inr (x, rw p)
            | inl (u, p) ↦ elim (StdResult-cases (sync (laid c f)).0) [
              | inr (x, q) ↦ inr (x, rw (p, q))
              | inl (w, q) ↦
                  inl (created c (sync (laid c f)).1 path, rw (p, q), initialized-Inv p q, refl)
            ]
          ])

-- Opening a file that is no database: shorter than the two slots, or with no valid slot.
module _ (c : Crates) (f : File) (path : String) where
  -- Opening a file that is not empty but shorter than the two header slots fails with
  -- `UnexpectedEof` and leaves the file as it was.
  pub open_db-short :
      0 < f.len → f.len < log_start → open_db c f path ≡ (err (unexpected_eof_at 0 log_start), f)
  unfolding open_db
  open_db-short some_bytes short = rw (lt→ltb 0 f.len some_bytes, lt→ltb f.len log_start short)

  -- If a file has room for both header slots and neither slot decodes, opening it fails with the
  -- error of slot 0 and leaves the file as it was.
  pub open_db-invalid :
      (x y : CndbError)
      → log_start ≤ f.len
      → Header.decode c.hash (slot_bytes f 0) 0 ≡ err x
      → Header.decode c.hash (slot_bytes f 1) 1 ≡ err y
      → open_db c f path ≡ (err x, f)
  unfolding open_db decode_slot bytes select_live
  open_db-invalid x y long p q =
      rw
        (
          lt→ltb 0 f.len (omega arith),
          le→ltb_false f.len log_start long,
          read_exact_at_lem f log_start 0 (omega arith),
        )
        (rw (p, q))
