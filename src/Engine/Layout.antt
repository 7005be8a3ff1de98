-- ===== src/Engine/Layout.antt =====
-- How the file and the index of src/storage/engine.rs stand for a store.
use cndb.Prelude.{
  is_some, ℕ, ◌≤◌, ◌<◌, ◌≡◌, refl, sym, ◌∙◌, subst, ◌⊎◌, inl, inr, List, Option, none, some, Bytes,
  arith,
}
use cndb.Result.{ok}
use cndb.Error.{DocId, master_index}
use cndb.Record.{Record}
use cndb.Header.{Header, log_start}
use cndb.Header.Codec.{IsU64}
use cndb.Collections.Laws.{contains_key-get}
use cndb.Collections.{contains_key, contains, get}
use cndb.Index
use cndb.Index.{MasterIndex, empty}
use cndb.Index.Validity.{IsValid}
use cndb.Index.Equality.{SameIndex}
use cndb.File.{File}
use cndb.File.Bytes.{Agree}
use cndb.File.Writes.{Wrote, Synced}
use cndb.File.Crash.{IsSafe}
use cndb.Crates.{Crates}
use cndb.Log.Records.{RecordIn, RecordIn-Agree}
use cndb.Log.Laid.{Laid, Laid-Agree}
use cndb.Store
use cndb.Store.{Store}

-- An offset in the index leads to the record of the document.
abbrev pub DocAt : (Bytes → ℕ) → (ℕ → ℕ) → ℕ → Option ℕ → Option Record → Type 0
DocAt hash byte limit none none = Unit
DocAt hash byte limit none (some r) = ⊥
DocAt hash byte limit (some offset) none = ⊥
DocAt hash byte limit (some offset) (some r) = RecordIn hash byte limit offset r

-- The index, with the log below `limit`, holds the documents of the store.
pub record Holds (hash : Bytes → ℕ) (byte : ℕ → ℕ) (limit : ℕ) (idx : MasterIndex) (s : Store)
    : Type 0 where
  pub next : idx.next_doc_id ≡ s.next
  pub dead : (k : DocId) → contains idx.dead k ≡ s.dead k
  pub docs : (k : DocId) → DocAt hash byte limit (get idx.offsets k) (s.docs k)

DocAt-Agree :
    (hash : Bytes → ℕ) {f g : ℕ → ℕ} {limit limit' : ℕ}
    → Agree f g log_start limit
    → limit ≤ limit'
    → (o : Option ℕ) (r : Option Record) → DocAt hash f limit o r
    → DocAt hash g limit' o r
DocAt-Agree hash same le none none h = h
DocAt-Agree hash same le none (some r) h = h
DocAt-Agree hash same le (some offset) none h = h
DocAt-Agree hash same le (some offset) (some r) h = RecordIn-Agree hash same le h

-- The log may grow, and bytes outside of it may change.
pub Holds-Agree :
    (hash : Bytes → ℕ) {f g : ℕ → ℕ} {limit limit' : ℕ} {idx : MasterIndex} {s : Store}
    → Agree f g log_start limit
    → limit ≤ limit'
    → Holds hash f limit idx s
    → Holds hash g limit' idx s
Holds-Agree hash {idx} {s} same le h = record {
  next = h.next;
  dead = h.dead;
  docs = λ k. DocAt-Agree hash same le (get idx.offsets k) (s.docs k) (h.docs k);
}

-- Equal indexes hold the same documents.
pub Holds-SameIndex :
    (hash : Bytes → ℕ) {byte : ℕ → ℕ} {limit : ℕ} {a b : MasterIndex} {s : Store}
    → SameIndex a b
    → Holds hash byte limit a s
    → Holds hash byte limit b s
Holds-SameIndex hash {byte} {limit} {s} same h = record {
  next = sym same.next_doc_id ∙ h.next;
  dead = λ k. sym (same.dead k) ∙ h.dead k;
  docs = λ k. subst (λ o. DocAt hash byte limit o (s.docs k)) (same.offsets k) (h.docs k);
}

pub empty-Holds :
    (hash : Bytes → ℕ) (byte : ℕ → ℕ) (limit : ℕ) → Holds hash byte limit Index.empty Store.empty
unfolding contains get
empty-Holds hash byte limit = record { next = refl; dead = λ k. refl; docs = λ k. tt }

module _ (c : Crates) where
  -- The header leads to the serialized index `idx`, or says that there is none.
  abbrev pub MasterAt : (ℕ → ℕ) → Header → MasterIndex → Type 0
  MasterAt byte h idx =
      ((h.master_len ≡ 0) × (idx ≡ Index.empty))
      ⊎ ((0 < h.master_len)
          × (payload : Bytes) × RecordIn c.hash byte h.log_end h.master_ptr
              (record { kind = master_index; payload = payload })
          × (c.deserialize payload ≡ ok idx))

  -- The log up to the end that the header names holds all documents of the store.
  pub record Backed (f : File) (h : Header) (s : Store) : Type 0 where
    pub idx : MasterIndex
    pub u64 : IsU64 h
    pub starts : log_start ≤ h.log_end
    pub inside : h.log_end ≤ f.len
    pub master : MasterAt f.byte h idx
    pub valid : IsValid idx
    pub holds : Holds c.hash f.byte h.log_end idx s
    pub records : List Record
    pub laid : Laid c.hash f.byte log_start records h.log_end

  MasterAt-Agree :
      {f g : ℕ → ℕ} (h : Header) (idx : MasterIndex)
      → Agree f g log_start h.log_end
      → MasterAt f h idx
      → MasterAt g h idx
  MasterAt-Agree h idx same (inl e) = inl e
  MasterAt-Agree h idx same (inr (pos, payload, r, e)) =
      inr (pos, payload, RecordIn-Agree c.hash same (omega arith) r, e)

  -- What backs a header depends on the bytes of the log alone.
  pub Backed-Agree :
      {f g : File} {h : Header} {s : Store}
      → Agree f.byte g.byte log_start h.log_end
      → h.log_end ≤ g.len
      → Backed f h s
      → Backed g h s
  Backed-Agree {f} {g} {h} same inside b = record {
    idx = b.idx;
    u64 = b.u64;
    starts = b.starts;
    inside = inside;
    master = MasterAt-Agree h b.idx same b.master;
    valid = b.valid;
    holds = Holds-Agree c.hash same (omega arith) b.holds;
    records = b.records;
    laid = Laid-Agree c.hash f.byte g.byte log_start b.records h.log_end same b.laid;
  }

-- Ranges that writes behind them leave alone.
pub Wrote-Agree :
    {start stop lo hi : ℕ} {f g : File}
    → Wrote start stop f g
    → hi ≤ start ⊎ stop ≤ lo
    → hi ≤ f.len
    → Agree f.byte g.byte lo hi
Wrote-Agree w (inl before) le i l h = sym (w.spared i (omega arith) (omega arith))
Wrote-Agree w (inr after) le i l h = sym (w.spared i (omega arith) (omega arith))

pub Wrote-IsSafe :
    {start stop lo hi : ℕ} {f g : File}
    → Wrote start stop f g
    → hi ≤ start ⊎ stop ≤ lo
    → IsSafe f lo hi
    → IsSafe g lo hi
Wrote-IsSafe w (inl before) s = record {
  synced = omega (arith, w.synced, s.synced);
  clean = λ i l h. w.clean i (omega arith) ∙ s.clean i l h;
}
Wrote-IsSafe w (inr after) s = record {
  synced = omega (arith, w.synced, s.synced);
  clean = λ i l h. w.clean i (omega arith) ∙ s.clean i l h;
}

-- After a sync everything is safe.
pub Synced-IsSafe : {lo hi : ℕ} {f g : File} → Synced f g → hi ≤ f.len → IsSafe g lo hi
Synced-IsSafe s le = record { synced = omega (arith, s.synced_len); clean = λ i l h. s.clean i }

-- The index knows the documents of the store.
pub contains_key-Holds :
    {hash : Bytes → ℕ} {byte : ℕ → ℕ} {limit : ℕ} {idx : MasterIndex} {s : Store}
    → Holds hash byte limit idx s
    → (id : DocId) → contains_key idx.offsets id ≡ is_some (s.docs id)
contains_key-Holds {hash} {byte} {limit} {idx} {s} h id =
    contains_key-get idx.offsets id ∙ known (get idx.offsets id) (s.docs id) (h.docs id)
  where
    known : (o : Option ℕ) (r : Option Record) → DocAt hash byte limit o r → is_some o ≡ is_some r
    known none none d = refl
    known none (some r) d = absurd d
    known (some o) none d = absurd d
    known (some o) (some r) d = refl
