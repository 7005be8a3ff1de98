-- ===== src/Suite/Durability/Sizes.antt =====
-- The tests of tests/durability.rs on the length of the file.
use Prim.Native.String
use cndb.Prelude.{ℕ, zero, suc, ◌*◌, Bool, true, ◌&&◌, [], ◌∷◌, String, ltb, ◌==◌}
use cndb.Crates.{Crates}
use cndb.Document.{DocCrates}
use cndb.Exec.{Exec, pure, gets, ◌>>=◌, ◌>>◌}
use cndb.File.{File}
use cndb.Engine
use cndb.Engine.{StorageEngine}
use cndb.Engine.Open.{open_db}
use cndb.Api.{Cndb, insert, commit, verify, len, stats}
use cndb.Suite.{unwrap}
use cndb.Suite.Durability.{populate}
use cndb.Suite.Codecs.{JsonCrate}
use cndb.Suite.Engines.{verified}
use cndb.Suite.Handles.{on_scratch, reopen}

-- `text.repeat(n)`
abbrev repeat : String → ℕ → String
repeat text zero = ""
repeat text (suc n) = String.◌++◌ text (repeat text n)

module _ (c : Crates) where
  -- `n` times, the engine is opened and verified. It is the length of the file at the end that counts.
  abbrev opened_again : ℕ → ℕ → File → Bool
  opened_again zero size f = f.len == size
  opened_again (suc n) size f =
      unwrap (open_db c f "stable.cndb").0
        (λ e. verified (Engine.verify c e) (λ k. true) && opened_again n size e.file)

  module _ (d : DocCrates) (j : JsonCrate d) where
    abbrev pub reopening_repeatedly_does_not_grow_the_file : Bool
    reopening_repeatedly_does_not_grow_the_file =
        on_scratch c
          (do _ ← populate c d j; f ← gets (λ db. db.store.file); pure (opened_again 10 f.len f))

    abbrev junk : d.Value
    junk = j.object (("discard", j.text (repeat "x" 200)) ∷ [])

    abbrev inserting_junk : ℕ → Exec Cndb (Unit {0})
    inserting_junk zero = pure tt
    inserting_junk (suc n) = do _ ← insert c d junk; inserting_junk n

    abbrev cycle_of : (abandoned cycle : ℕ) → Exec Cndb ℕ
    cycle_of abandoned cycle = do
      _ ← insert c d (j.object (("cycle", j.int cycle) ∷ []))
      commit c
      inserting_junk abandoned
      size ← gets (λ db. db.store.file.len)
      reopen c
      pure size

    -- Each of the later cycles, from the database that has been opened for it.
    abbrev later_cycles : (abandoned cycle n : ℕ) → Exec Cndb (Unit {0})
    later_cycles abandoned cycle zero = pure tt
    later_cycles abandoned cycle (suc n) = do
      _ ← cycle_of abandoned cycle
      later_cycles abandoned (suc cycle) n

    abbrev abandoning : (later abandoned : ℕ) → Bool
    abandoning later abandoned = on_scratch c (do
      high_water ← cycle_of abandoned 0
      later_cycles abandoned 1 later
      db ← gets (λ db. db)
      let final_size : ℕ = db.store.file.len
      pure (
          verified (verify c db) (λ n. true)
          && (len db == suc later
              && (ltb final_size (high_water * 2)
                  && ltb ((stats db).committed_len * 4) final_size))))

    -- 5 cycles, 4 of them later ones.
    abbrev pub abandoned_writes_are_overwritten_rather_than_leaked : Bool
    abandoned_writes_are_overwritten_rather_than_leaked = abandoning 4 50
