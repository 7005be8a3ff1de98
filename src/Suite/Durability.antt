-- ===== src/Suite/Durability.antt =====
-- The tests of tests/durability.rs. What the `json!` macro makes, and what the tests ask of values, is
-- code of `serde_json`, and so a parameter.
pub mod Sizes
use cndb.Prelude.{
  ℕ, zero, suc, ◌+◌, ◌*◌, Bool, true, false, ◌&&◌, List, [], ◌∷◌, ◌++◌, String, Bytes, length, ltb,
  ◌==◌, copy_at, replicate, bytes_eq, if◌then◌else◌,
}
use cndb.Prelude.Words.{to_le_bytes, from_le_bytes}
use cndb.Result.{ok, err}
use cndb.Error.{CndbError, DocId, Result}
use cndb.Error.Texts.{concat, decimal}
use cndb.Header.{format_version}
use cndb.Crates.{Crates}
use cndb.Document.{DocCrates}
use cndb.Exec.{Exec, pure, gets, ◌>>=◌, ◌>>◌}
use cndb.File.{File, bytes}
use cndb.Engine
use cndb.Engine.{StorageEngine}
use cndb.Engine.Open.{open_db}
use cndb.Api.{Cndb, open_handle, insert, get, delete, commit, verify, len, is_empty, ids, stats}
use cndb.Suite.{as_bytes, unwrap, fails, all_below, is_unsupported_version}
use cndb.Suite.Codecs.{JsonCrate}
use cndb.Suite.Engines.{verified}
use cndb.Suite.Engines.Recoveries.{written}
use cndb.Suite.Handles.{on_scratch, reopen}

abbrev every : (DocId → Bool) → List DocId → Bool
every p [] = true
every p (id ∷ ids) = p id && every p ids

-- How many numbers below `n` there are that pass.
abbrev count_below : ℕ → (ℕ → Bool) → ℕ
count_below zero p = 0
count_below (suc n) p = let rest = count_below n p in if p n then suc rest else rest

abbrev is_ok : {A : Type 0} → Result A → Bool
is_ok (ok value) = true
is_ok (err error) = false

-- The first `n` bytes of a file, as a file of their own.
abbrev prefix : ℕ → File → File
prefix n f = record { len = n; byte = f.byte; synced_len = n; unsynced = []; schedule = [] }

abbrev contents : File → Bytes
contents f = bytes f.byte 0 f.len

-- `bytes[a..a + n] == text`
abbrev holds : File → ℕ → String → Bool
holds f a text =
    let expected = as_bytes text in bytes_eq (bytes f.byte a (length expected)) expected

module _ (c : Crates) where
  -- One of the rounds that rewrite the version of a slot and then its checksum.
  abbrev from_future : ℕ → Bytes → Bytes
  from_future base buf =
      let versioned = copy_at buf (base + 4) (to_le_bytes 4 0x00090000) in
      let cleared = copy_at versioned (base + 40) (replicate 4 0) in
      copy_at cleared (base + 40) (to_le_bytes 4 (c.hash (bytes (written cleared).byte base 64)))

  abbrev pub a_zero_length_prefix_is_treated_as_a_new_database_not_a_corrupt_one : Bool
  a_zero_length_prefix_is_treated_as_a_new_database_not_a_corrupt_one =
      unwrap (open_handle c (written []) "empty.cndb").0
        (λ db. is_empty db && (stats db).generation == 0)

  module _ (d : DocCrates) (j : JsonCrate d) where
    abbrev symbol : ℕ → ℕ → d.Value
    symbol round i = j.object (
        ("round", j.int round)
        ∷ ("kind", j.text "Function")
        ∷ (
          "qualified_name",
          j.text (concat ("cndb::round" ∷ decimal round ∷ "::symbol_" ∷ decimal i ∷ [])),
        )
        ∷ (
          "span",
          j.object (
              ("start_line", j.int (round * 10 + i))
              ∷ ("end_line", j.int (round * 10 + i + 5))
              ∷ []),
        )
        ∷ [])

    -- `for i in i..i + n`
    abbrev symbols : ℕ → ℕ → ℕ → List DocId → Exec Cndb (List DocId)
    symbols zero i round live = pure live
    symbols (suc n) i round live = do
      id ← insert c d (symbol round i)
      symbols n (suc i) round (live ++ (id ∷ []))

    -- `live.remove(0)`, which an empty vector panics on, and the deletion.
    abbrev delete_first : List DocId → Exec Cndb (List DocId)
    delete_first [] = λ db. (err (CndbError.not_found 0), db)
    delete_first (victim ∷ live) = do delete c victim; pure live

    abbrev after_round : ℕ → List DocId → Exec Cndb (List DocId)
    after_round zero live = pure live
    after_round (suc round) live = delete_first live

    -- `for round in round..round + n`
    abbrev rounds_of : ℕ → ℕ → ℕ → List DocId → Exec Cndb (List DocId)
    rounds_of per_round zero round live = pure live
    rounds_of per_round (suc n) round live = do
      inserted ← symbols per_round 0 round live
      left ← after_round round inserted
      commit c
      rounds_of per_round n (suc round) left

    abbrev populate_of : (rounds per_round : ℕ) → Exec Cndb (List DocId)
    populate_of rounds per_round = rounds_of per_round rounds 0 []

    abbrev pub populate : Exec Cndb (List DocId)
    populate = populate_of 6 4

    abbrev pub c9_the_file_is_self_contained_and_portable : Bool
    c9_the_file_is_self_contained_and_portable = on_scratch c (do
      live ← populate
      f ← gets (λ db. db.store.file)
      pure (
          unwrap (open_handle c (prefix f.len f) "copied.cndb").0 (λ db.
            len db == length live
            && (verified (verify c db) (λ n. true)
                && every
                    (λ id. unwrap (get c d db id) (λ doc.
                      j.eq (j.at doc "kind") (j.text "Function")
                      && j.starts_with (j.at doc "qualified_name") "cndb::"))
                    live))))

    -- What is opened is intact.
    abbrev intact : Result Cndb → Bool
    intact (err e) = true
    intact (ok db) =
        verified (verify c db) (λ n. true) && every (λ id. is_ok (get c d db id)) (ids db)

    abbrev pub crash_at_any_byte : (rounds per_round : ℕ) → Bool
    crash_at_any_byte rounds per_round = on_scratch c (do
      _ ← populate_of rounds per_round
      f ← gets (λ db. db.store.file)
      let open_prefix : ℕ → Result Cndb = λ n. (open_handle c (prefix n f) "prefix.cndb").0
      pure (
          all_below (suc f.len) (λ n. intact (open_prefix n))
          && ltb 1 (count_below (suc f.len) (λ n. is_ok (open_prefix n)))))

    abbrev pub c8_a_crash_at_any_byte_never_yields_a_corrupt_database : Bool
    c8_a_crash_at_any_byte_never_yields_a_corrupt_database = crash_at_any_byte 6 4

    abbrev x_is_one : Exec Cndb (Unit {0})
    x_is_one = do _ ← insert c d (j.object (("x", j.int 1) ∷ [])); commit c

    abbrev pub the_on_disk_layout_is_stable : Bool
    the_on_disk_layout_is_stable = on_scratch c (do
      x_is_one
      f ← gets (λ db. db.store.file)
      pure (
          holds f 0 "CNDB"
          && (from_le_bytes (bytes f.byte 4 4) == format_version
              && (holds f 64 "CNDB" && ltb 128 f.len))))

    abbrev pub a_database_written_by_a_future_version_is_refused : Bool
    a_database_written_by_a_future_version_is_refused = on_scratch c (do
      x_is_one
      f ← gets (λ db. db.store.file)
      pure (
          fails is_unsupported_version
            (open_handle c (written (from_future 64 (from_future 0 (contents f))))
              "future.cndb").0))
