-- ===== src/Log/Laid.antt =====
-- A stretch of the file that is a sequence of records without gaps, as src/storage/engine.rs lays
-- out its log.
use cndb.Prelude.{
  ℕ, ◌+◌, ◌≤◌, ◌<◌, ◌^◌, ◌≡◌, refl, sym, subst, List, [], ◌∷◌, ◌++◌, Bytes, length, arith,
}
use cndb.Record.{Record, record_header_size}
use cndb.Header.{log_start}
use cndb.File.{File}
use cndb.File.Bytes.{Agree}
use cndb.Log.Records.{RecordIn, RecordIn-Agree, read_record_at_lem}
use cndb.Log.Scan.{Chain}

abbrev pub Laid : (Bytes → ℕ) → (ℕ → ℕ) → ℕ → List Record → ℕ → Type 0
Laid hash byte offset [] stop = offset ≡ stop
Laid hash byte offset (r ∷ rs) stop =
    RecordIn hash byte stop offset r
    × Laid hash byte (offset + record_header_size + length r.payload) rs stop

pub Laid-Agree :
    (hash : Bytes → ℕ) (f g : ℕ → ℕ) (offset : ℕ) (rs : List Record) (stop : ℕ)
    → Agree f g log_start stop
    → Laid hash f offset rs stop
    → Laid hash g offset rs stop
Laid-Agree hash f g offset [] stop same h = h
Laid-Agree hash f g offset (r ∷ rs) stop same h = (
  RecordIn-Agree hash same (omega arith) h.0,
  Laid-Agree hash f g (offset + record_header_size + length r.payload) rs stop same h.1,
)

-- One more record behind the last one.
pub Laid-append :
    (hash : Bytes → ℕ) (byte : ℕ → ℕ) (offset : ℕ) (rs : List Record) (stop next : ℕ) (r : Record)
    → Laid hash byte offset rs stop
    → RecordIn hash byte next stop r
    → next ≡ stop + record_header_size + length r.payload
    → Laid hash byte offset (rs ++ r ∷ []) next
Laid-append hash byte offset [] stop next r h at e =
    (subst (λ o. RecordIn hash byte next o r) (sym h) at, omega arith)
Laid-append hash byte offset (q ∷ rs) stop next r h at e = (
  RecordIn-Agree hash (λ i l u. refl) (omega arith) h.0,
  Laid-append hash byte (offset + record_header_size + length q.payload) rs stop next r h.1 at e,
)

pub Laid-Chain :
    (hash : Bytes → ℕ)
    → ((bs : Bytes) → hash bs < 2 ^ 32)
    → (f : File) (offset : ℕ) (rs : List Record) (stop : ℕ) → stop ≤ f.len
    → stop < 2 ^ 64
    → Laid hash f.byte offset rs stop
    → Chain hash f offset rs stop
Laid-Chain hash lt f offset [] stop inside small h = h
Laid-Chain hash lt f offset (r ∷ rs) stop inside small h = (
  read_record_at_lem hash lt f h.0 inside small,
  Laid-Chain hash lt f (offset + record_header_size + length r.payload) rs stop inside small h.1,
)

-- Where the records end.
abbrev pub end_of : ℕ → List Record → ℕ
end_of offset [] = offset
end_of offset (r ∷ rs) = end_of (offset + record_header_size + length r.payload) rs

-- Each of the records, and those before it, lie where they should.
pub Laid-split :
    (hash : Bytes → ℕ) (byte : ℕ → ℕ) (offset : ℕ) (before : List Record) (r : Record)
    (after : List Record) (stop : ℕ)
    → Laid hash byte offset (before ++ r ∷ after) stop
    → Laid hash byte offset before (end_of offset before)
      × RecordIn hash byte stop (end_of offset before) r
Laid-split hash byte offset [] r after stop h = (refl, h.0)
Laid-split hash byte offset (q ∷ before) r after stop h =
    let (laid, at) =
      Laid-split hash byte (offset + record_header_size + length q.payload) before r after stop
        h.1 in
    (
      (
        record {
          starts = h.0.starts;
          ends = end_of-le (offset + record_header_size + length q.payload) before;
          fits = h.0.fits;
          frame = h.0.frame;
          body = h.0.body;
        },
        laid,
      ),
      at,
    )
  where
    end_of-le : (offset : ℕ) (rs : List Record) → offset ≤ end_of offset rs
    end_of-le offset [] = omega arith
    end_of-le offset (r ∷ rs) =
        omega (arith, end_of-le (offset + record_header_size + length r.payload) rs)
