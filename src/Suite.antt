-- ===== src/Suite.antt =====
-- The tests of the repository, in its files and under tests/, as programs over the model. A test is
-- true where its Rust original passes.
pub mod Slots
pub mod Frames
pub mod Indexes
pub mod Engines
pub mod Handles
pub mod Codecs
pub mod Durability
use Prim.Native.String.{String}
use Prim.Native.String
use Prim.Native.Char.{code}
use cndb.Prelude.{
  ℕ, zero, suc, ◌-◌, ◌+◌, ◌%◌, Bool, true, false, ◌&&◌, List, [], ◌∷◌, ◌++◌, Bytes, bytes_eq,
  get_or, copy_at, ◌==◌, if◌then◌else◌,
}
use cndb.Result.{ok, err}
use cndb.Error.{CndbError, Result, RecordKind}
use cndb.Record.{tag}

-- `b"text"`, of ASCII.
abbrev pub as_bytes : String → Bytes
as_bytes String.[] = []
as_bytes (String.◌∷◌ c s) = code c ∷ as_bytes s

-- `buf[i] = value`
abbrev pub set_byte : Bytes → ℕ → ℕ → Bytes
set_byte buf i value = copy_at buf i (value ∷ [])

-- `for i in 0..n { assert!(p(i)) }`
abbrev pub all_below : ℕ → (ℕ → Bool) → Bool
all_below zero p = true
all_below (suc n) p = all_below n p && p n

-- All of the tests pass.
abbrev pub all_pass : List Bool → Bool
all_pass [] = true
all_pass (test ∷ tests) = test && all_pass tests

-- The assertion holds of the value of `r.unwrap()`.
abbrev pub unwrap {ℓ} : {A : Type ℓ} → Result A → (A → Bool) → Bool
unwrap (ok a) p = p a
unwrap (err e) p = false

-- `matches!(r, Err(..))`
abbrev pub fails {ℓ} : {A : Type ℓ} → (CndbError → Bool) → Result A → Bool
fails p (ok a) = false
fails p (err e) = p e

-- `a == b` on record kinds
abbrev pub kind_eq : RecordKind → RecordKind → Bool
kind_eq a b = tag a == tag b

abbrev pub is_bad_magic : CndbError → Bool
is_bad_magic (CndbError.bad_magic _ _) = true
is_bad_magic _ = false

abbrev pub is_unsupported_version : CndbError → Bool
is_unsupported_version (CndbError.unsupported_version _ _) = true
is_unsupported_version _ = false

abbrev pub is_no_valid_header : CndbError → Bool
is_no_valid_header CndbError.no_valid_header = true
is_no_valid_header _ = false

abbrev pub is_record_checksum : CndbError → Bool
is_record_checksum (CndbError.record_checksum _) = true
is_record_checksum _ = false

abbrev pub is_record_too_large : CndbError → Bool
is_record_too_large (CndbError.record_too_large _ _ _) = true
is_record_too_large _ = false

abbrev pub is_unexpected_eof_at : CndbError → Bool
is_unexpected_eof_at (CndbError.unexpected_eof_at _ _) = true
is_unexpected_eof_at _ = false

abbrev pub is_not_found : CndbError → Bool
is_not_found (CndbError.not_found _) = true
is_not_found _ = false

abbrev pub is_deleted : CndbError → Bool
is_deleted (CndbError.deleted _) = true
is_deleted _ = false

abbrev pub is_corrupt_index : CndbError → Bool
is_corrupt_index (CndbError.corrupt_index _) = true
is_corrupt_index _ = false
