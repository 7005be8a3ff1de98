-- ===== src/Log/Scan.antt =====
-- The loop of `StorageEngine::verify` (src/storage/engine.rs) against a chain of readable records.
use cndb.Prelude.{
  ℕ, zero, suc, ◌+◌, ◌*◌, ◌≤◌, ◌<◌, ◌^◌, ◌≡◌, ◌≢◌, ap, subst, none, some, List, [], ◌∷◌, Bytes,
  length, arith, ◌⊎◌, ltb, Bool-cases, inl, inr,
}
use cndb.Prelude.Words.{u64}
use cndb.Result.{ok, err, StdResult-cases}
use cndb.Error.{io, CndbError}
use cndb.Record.{Record, Frame, record_header_size, verify_payload, total_len}
use cndb.File.{File, read_exact_at}
use cndb.File.Bytes.{read_exact_at-eq_ok}
use cndb.Log.{read_frame_at, read_record_at, scan_record, scan_loop}

module _ (hash : Bytes → ℕ) where
  -- What both `read_record_at` and a round of `verify` have found when they succeed.
  pub record Fetched (f : File) (offset : ℕ) (frame : Frame) (payload : Bytes) : Type 0 where
    pub framed : read_frame_at f offset ≡ ok frame
    pub filled : read_exact_at f frame.len (u64 (offset + record_header_size)) ≡ ok payload
    pub intact : verify_payload hash frame payload offset ≡ ok tt
    pub below : offset + record_header_size ≤ f.len

  read_frame_at-le :
      (f : File) (offset : ℕ) {frame : Frame}
      → read_frame_at f offset ≡ ok frame
      → offset + record_header_size ≤ f.len
  unfolding read_frame_at read_exact_at
  read_frame_at-le f offset h = ground arith

  -- A round of `verify` fails with the error with which the record's reading fails.
  pub Fetched-cases :
      (f : File) (offset : ℕ)
      → ((frame : Frame) × (payload : Bytes) × Fetched f offset frame payload)
        ⊎ ((e : CndbError) × (read_record_at hash f offset ≡ err e)
            × (scan_record hash f offset ≡ err e))
  unfolding read_record_at scan_record
  Fetched-cases f offset = elim (StdResult-cases (read_frame_at f offset)) [
    | inr (e, p) ↦ inr (e, rw p, rw p)
    | inl (frame, p) ↦
        elim (StdResult-cases (read_exact_at f frame.len (u64 (offset + record_header_size)))) [
          | inr (e, q) ↦ inr (io e, rw (p, q), rw (p, q))
          | inl (payload, q) ↦ elim (StdResult-cases (verify_payload hash frame payload offset)) [
            | inr (e, v) ↦ inr (e, rw (p, q, v), rw (p, q, v))
            | inl (u, v) ↦ inl (
              frame,
              payload,
              record { framed = p; filled = q; intact = v; below = read_frame_at-le f offset p },
            )
          ]
        ]
  ]

  module _ (f : File) (small : f.len < 2 ^ 64) where
    -- A record ends where the next one starts, without a wrap-around.
    Fetched-next :
        (offset : ℕ) (frame : Frame) (payload : Bytes)
        → Fetched f offset frame payload
        → u64 (offset + total_len frame) ≡ offset + record_header_size + length payload
    unfolding total_len
    Fetched-next offset frame payload h =
        let (_, n, fits) = read_exact_at-eq_ok f frame.len _ h.filled in omega arith

    pub Fetched-both :
        {offset : ℕ} {frame : Frame} {payload : Bytes}
        → Fetched f offset frame payload
        → (read_record_at hash f offset ≡ ok (record { kind = frame.kind; payload = payload }))
          × (scan_record hash f offset ≡ ok (offset + record_header_size + length payload))
    unfolding read_record_at scan_record
    Fetched-both {offset} {frame} {payload} h = (
      rw (h.framed, h.filled, h.intact),
      rw (h.framed, h.filled, h.intact) (ap ok (Fetched-next offset frame payload h)),
    )

    pub scan_record-read :
        (offset : ℕ) {r : Record}
        → read_record_at hash f offset ≡ ok r
        → scan_record hash f offset ≡ ok (offset + record_header_size + length r.payload)
    scan_record-read offset h = elim (Fetched-cases f offset) [
      | inr (e, p, q) ↦ cc
      | inl (frame, payload, p) ↦ ground (arith, Fetched-both p)
    ]

    pub read-scan_record :
        (offset : ℕ) {next : ℕ}
        → scan_record hash f offset ≡ ok next
        → (r : Record) × (read_record_at hash f offset ≡ ok r)
          × (next ≡ offset + record_header_size + length r.payload)
    read-scan_record offset h = elim (Fetched-cases f offset) [
      | inr (e, p, q) ↦ absurd (ground arith)
      | inl (frame, payload, p) ↦ (
        record { kind = frame.kind; payload = payload },
        (Fetched-both p).0,
        ground (arith, Fetched-both p),
      )
    ]

  -- The records from `offset` to `stop` can be read one behind the other, and are `rs`.
  abbrev pub Chain : File → ℕ → List Record → ℕ → Type 0
  Chain f offset [] stop = offset ≡ stop
  Chain f offset (r ∷ rs) stop =
      (read_record_at hash f offset ≡ ok r)
      × Chain f (offset + record_header_size + length r.payload) rs stop

  pub Chain-length :
      (f : File) (offset : ℕ) (rs : List Record) (stop : ℕ)
      → Chain f offset rs stop
      → offset + record_header_size * length rs ≤ stop
  Chain-length f offset [] stop h = omega arith
  Chain-length f offset (r ∷ rs) stop h =
      omega (arith, Chain-length f (offset + record_header_size + length r.payload) rs stop h.1)

  module _ (f : File) (small : f.len < 2 ^ 64) where
    pub scan_loop-Chain :
        (fuel offset count stop : ℕ) (rs : List Record)
        → Chain f offset rs stop
        → length rs < fuel
        → scan_loop hash fuel f stop offset count ≡ some (ok (count + length rs))
    unfolding scan_loop
    scan_loop-Chain zero offset count stop rs c h = absurd (omega arith)
    scan_loop-Chain (suc fuel) offset count stop [] c h = ground arith
    scan_loop-Chain (suc fuel) offset count stop (r ∷ rs) c h =
        let next : ℕ = offset + record_header_size + length r.payload in
        ground (
          arith,
          scan_record-read f small offset c.0,
          Chain-length f next rs stop c.1,
          scan_loop-Chain fuel next (count + 1) stop rs c.1,
        )

    pub Chain-scan_loop :
        (fuel offset count stop n : ℕ)
        → scan_loop hash fuel f stop offset count ≡ some (ok n)
        → (rs : List Record) × Chain f offset rs stop × (n ≡ count + length rs)
    unfolding scan_loop
    Chain-scan_loop zero offset count stop n h = cc
    Chain-scan_loop (suc fuel) offset count stop n h = elim (Bool-cases (ltb offset stop)) [
      | inr e ↦ ([], ground arith, ground arith)
      | inl e ↦ elim (StdResult-cases (scan_record hash f offset)) [
        | inr (x, p) ↦ absurd (ground arith)
        | inl (next, p) ↦
            let (r, q, at_next) = read-scan_record f small offset p in
            let (rs, c, k) = Chain-scan_loop fuel next (count + 1) stop n (ground arith) in
            (r ∷ rs, (q, subst (λ o. Chain f o rs stop) at_next c), omega arith)
      ]
    ]

    -- Each round moves on by nine bytes at least.
    pub scan_loop-ne-none :
        (fuel log_end offset count : ℕ)
        → log_end < fuel + offset
        → 0 < fuel
        → scan_loop hash fuel f log_end offset count ≢ none
    unfolding scan_loop
    scan_loop-ne-none zero log_end offset count h pos = absurd (omega arith)
    scan_loop-ne-none (suc fuel) log_end offset count h pos =
        elim (StdResult-cases (scan_record hash f offset)) [
          | inr (x, p) ↦ ground arith
          | inl (next, p) ↦
              let (r, q, at_next) = read-scan_record f small offset p in
              ground (arith, scan_loop-ne-none fuel log_end next (count + 1))
        ]
