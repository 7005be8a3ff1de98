-- ===== src/Log/Faults.antt =====
-- Where the loop of `StorageEngine::verify` (src/storage/engine.rs) stops with an error.
use cndb.Prelude.{
  ℕ, zero, suc, ◌+◌, ◌≤◌, ◌<◌, ◌^◌, ◌≡◌, refl, subst, sym, ap, some, List, [], ◌∷◌, Bytes, length,
  arith, ◌⊎◌, ltb, leb, Bool-cases, inl, inr,
}
use cndb.Result.{ok, err, StdResult-cases}
use cndb.Error.{CndbError, corrupt_index, log_ends}
use cndb.Record.{Record, record_header_size}
use cndb.File.{File}
use cndb.Log.{read_record_at, scan_record, scan_loop}
use cndb.Log.Scan.{
  Fetched-cases, Fetched-both, Chain, Chain-length, scan_record-read, read-scan_record,
}

module _ (hash : Bytes → ℕ) (f : File) (log_end : ℕ) where
  -- The record at the offset cannot be read, or it can and ends behind the end of the log.
  abbrev pub Fault : ℕ → CndbError → Type 0
  Fault offset x =
      (read_record_at hash f offset ≡ err x)
      ⊎ ((r : Record) × (read_record_at hash f offset ≡ ok r)
          × (log_end < offset + record_header_size + length r.payload)
          × (x ≡ corrupt_index (log_ends (offset + record_header_size + length r.payload) log_end)))

  -- Some records that can be read, and then the fault.
  abbrev pub FaultFrom : ℕ → CndbError → Type 0
  FaultFrom start x =
      (rs : List Record) × (offset : ℕ) × Chain hash f start rs offset
      × (offset < log_end)
      × Fault offset x

  scan_record-err :
      f.len < 2 ^ 64
      → (offset : ℕ) {x : CndbError} → scan_record hash f offset ≡ err x
      → read_record_at hash f offset ≡ err x
  scan_record-err small offset h = elim (Fetched-cases hash f offset) [
    | inl (frame, payload, p) ↦ absurd (ground (arith, Fetched-both hash f small p))
    | inr (y, p, q) ↦ ground arith
  ]

  read-scan_record_err :
      f.len < 2 ^ 64
      → (offset : ℕ) {x : CndbError} → read_record_at hash f offset ≡ err x
      → scan_record hash f offset ≡ err x
  read-scan_record_err small offset h = elim (Fetched-cases hash f offset) [
    | inl (frame, payload, p) ↦ absurd (ground (arith, Fetched-both hash f small p))
    | inr (y, p, q) ↦ ground arith
  ]

  scan_loop-over :
      (fuel offset count : ℕ) (x : CndbError)
      → log_end < offset
      → scan_loop hash fuel f log_end offset count ≡ some (err x)
      → x ≡ corrupt_index (log_ends offset log_end)
  unfolding scan_loop
  scan_loop-over zero offset count x over h = cc
  scan_loop-over (suc fuel) offset count x over h = ground arith

  over-scan_loop :
      (fuel offset count : ℕ)
      → log_end < offset
      → 0 < fuel
      → scan_loop hash fuel f log_end offset count
        ≡ some (err (corrupt_index (log_ends offset log_end)))
  unfolding scan_loop
  over-scan_loop zero offset count over pos = absurd (omega arith)
  over-scan_loop (suc fuel) offset count over pos = ground arith

  module _ (small : f.len < 2 ^ 64) where
    pub scan_loop-FaultFrom :
        (fuel offset count : ℕ) (x : CndbError)
        → offset ≤ log_end
        → scan_loop hash fuel f log_end offset count ≡ some (err x)
        → FaultFrom offset x
    unfolding scan_loop
    scan_loop-FaultFrom zero offset count x le h = cc
    scan_loop-FaultFrom (suc fuel) offset count x le h = elim (Bool-cases (ltb offset log_end)) [
      | inr e ↦ absurd (ground arith)
      | inl e ↦ elim (StdResult-cases (scan_record hash f offset)) [
        | inr (y, p) ↦
            ([], offset, refl, ground arith, inl (scan_record-err small offset (ground arith)))
        | inl (next, p) ↦
            let (r, q, at_next) = read-scan_record hash f small offset p in
            elim (Bool-cases (leb next log_end)) [
              | inl fits ↦
                  let (rs, o, chain, lt, fault) =
                    scan_loop-FaultFrom fuel next (count + 1) x (ground arith) (ground arith) in
                  (r ∷ rs, o, (q, subst (λ n. Chain hash f n rs o) at_next chain), lt, fault)
              | inr over ↦ (
                [],
                offset,
                refl,
                ground arith,
                inr (
                  r,
                  q,
                  ground arith,
                  subst (λ n. x ≡ corrupt_index (log_ends n log_end)) at_next
                      (scan_loop-over fuel next (count + 1) x (ground arith) (ground arith)),
                ),
              )
            ]
      ]
    ]

    pub FaultFrom-scan_loop :
        (fuel start count : ℕ) (x : CndbError) (rs : List Record) (offset : ℕ)
        → Chain hash f start rs offset
        → offset < log_end
        → Fault offset x
        → length rs + 1 < fuel
        → scan_loop hash fuel f log_end start count ≡ some (err x)
    unfolding scan_loop
    FaultFrom-scan_loop zero start count x rs offset chain lt fault fits = absurd (omega arith)
    FaultFrom-scan_loop (suc fuel) start count x [] offset chain lt (inl unread) fits = ground (
      arith,
      read-scan_record_err small start {x = x}
          (subst (λ o. read_record_at hash f o ≡ err x) (sym chain) unread),
    )
    FaultFrom-scan_loop (suc fuel) start count x [] offset chain lt (inr (r, q, over, same)) fits =
        let stop : ℕ = offset + record_header_size + length r.payload in
        ground (
          arith,
          scan_record-read hash f small offset q,
          ap (scan_record hash f) chain,
          over-scan_loop fuel stop (count + 1) over,
        )
    FaultFrom-scan_loop (suc fuel) start count x (r ∷ rs) offset chain lt fault fits =
        let next : ℕ = start + record_header_size + length r.payload in
        ground (
          arith,
          scan_record-read hash f small start chain.0,
          Chain-length hash f next rs offset chain.1,
          FaultFrom-scan_loop fuel next (count + 1) x rs offset chain.1 lt fault,
        )
