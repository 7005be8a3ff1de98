-- ===== src/Engine/Verifying.antt =====
-- `verify` of src/storage/engine.rs.
use cndb.Prelude.{
  ℕ, ◌≤◌, suc, ◌<◌, ◌^◌, ◌≡◌, ◌≢◌, ◌↔◌, refl, ap, ◌∙◌, none, some, List, length, arith,
}
use cndb.Result.{ok, err}
use cndb.Error.{CndbError}
use cndb.Log.Faults.{FaultFrom, scan_loop-FaultFrom, FaultFrom-scan_loop}
use cndb.Record.{Record}
use cndb.Header.{Header, log_start}
use cndb.Log.Scan.{Chain, Chain-length, scan_loop-Chain, Chain-scan_loop, scan_loop-ne-none}
use cndb.Log.Canonical.{Chain-Laid}
use cndb.Log.Laid.{Laid, Laid-Chain}
use cndb.Crates.{Crates, IsLawful}
use cndb.Store.{Store}
use cndb.Engine.{StorageEngine, verify}
use cndb.Engine.Invariant.{Inv}

module _ (c : Crates) (e : StorageEngine) (small : e.file.len < 2 ^ 64) where
  -- On an engine whose file is shorter than 2^64 bytes, whatever it holds, the loop of `verify`
  -- ends within the fuel that it is given, one more than the committed end of the log.
  pub verify-ne-none : verify c e ≢ none
  unfolding verify
  verify-ne-none =
      scan_loop-ne-none c.hash e.file small (suc e.header.log_end) e.header.log_end log_start 0
        (omega arith) (omega arith)

  -- On an engine whose file is shorter than 2^64 bytes, `verify` returns `n` exactly if, from the
  -- start of the log on, `n` records follow each other that `read_record_at` can read, and the
  -- last one ends at the committed end of the log.
  pub verify_iff :
      (n : ℕ)
      → (verify c e ≡ some (ok n))
        ↔ ((rs : List Record) × Chain c.hash e.file log_start rs e.header.log_end × (length rs ≡ n))
  unfolding verify
  verify_iff n = (
    λ h.
        let (rs, chain, k) =
          Chain-scan_loop c.hash e.file small (suc e.header.log_end) log_start 0 e.header.log_end n
            h in
        (rs, chain, omega arith),
    λ (rs, chain, k).
        scan_loop-Chain c.hash e.file small (suc e.header.log_end) log_start 0 e.header.log_end rs
          chain (omega (arith, Chain-length c.hash e.file log_start rs e.header.log_end chain))
        ∙ ap (λ (m : ℕ). some (ok m)) (omega arith),
  )

  -- On an engine whose file is shorter than 2^64 bytes and whose committed log does not end
  -- before it starts, `verify` fails with an error exactly if, from the start of the log on, some
  -- records follow each other that `read_record_at` can read, up to an offset below the committed
  -- end of the log at which it fails with that error, or at which it reads a record that ends
  -- behind the committed end, and then the error is the `CorruptIndex` that names both ends.
  pub verify-err_iff :
      (x : CndbError)
      → log_start ≤ e.header.log_end
      → (verify c e ≡ some (err x)) ↔ FaultFrom c.hash e.file e.header.log_end log_start x
  unfolding verify
  verify-err_iff x starts = (
    λ h.
        scan_loop-FaultFrom c.hash e.file e.header.log_end small (suc e.header.log_end) log_start 0
          x starts h,
    λ (rs, offset, chain, lt, fault).
        FaultFrom-scan_loop c.hash e.file e.header.log_end small (suc e.header.log_end) log_start 0
          x rs offset chain lt fault
          (omega (arith, Chain-length c.hash e.file log_start rs offset chain)),
  )

  -- With lawful crates, on an engine whose file is shorter than 2^64 bytes, has room for both
  -- header slots and holds bytes, `verify` returns `n` exactly if the committed log ends inside
  -- of the file and is, byte for byte, the framed form of `n` records without gaps.
  pub verify-Laid_iff :
      IsLawful c
      → ((i : ℕ) → e.file.byte i < 256)
      → log_start ≤ e.file.len
      → (n : ℕ)
      → (verify c e ≡ some (ok n)) ↔ (
          (rs : List Record) × Laid c.hash e.file.byte log_start rs e.header.log_end
          × (e.header.log_end ≤ e.file.len)
          × (length rs ≡ n))
  verify-Laid_iff lawful byte-lt slots_inside n = (
    λ h.
        let (rs, chain, k) = (verify_iff n).0 h in
        let (laid, inside) =
          Chain-Laid c.hash e.file byte-lt small log_start rs e.header.log_end (omega arith) chain
            slots_inside in
        (rs, laid, inside, k),
    λ (rs, laid, inside, k). (verify_iff n).1 (
      rs,
      Laid-Chain c.hash lawful.hash-lt e.file log_start rs e.header.log_end inside (omega arith)
          laid,
      k,
    ),
  )

-- In a valid state, with lawful crates, on a file shorter than 2^64 bytes, `verify` finds no
-- fault and returns the number of records in the committed log.
pub verify-Inv :
    (c : Crates)
    → IsLawful c
    → (e : StorageEngine) {old now : Store} {attempts : List (Header × Store)}
      (v : Inv c e old now attempts)
    → e.file.len < 2 ^ 64
    → verify c e ≡ some (ok (length v.backed.records))
verify-Inv c lawful e v small = (verify_iff c e small (length v.backed.records)).1 (
  v.backed.records,
  Laid-Chain c.hash lawful.hash-lt e.file log_start v.backed.records e.header.log_end
      v.backed.inside v.backed.u64.log_end v.backed.laid,
  refl,
)
