-- ===== src/Tests/Texts.antt =====
-- The texts of some errors.
use cndb.Prelude.{◌≡◌, refl, ◌^◌, ◌-◌}
use cndb.Header.{magic}
use cndb.Error.{RecordKind, IndexFault, CndbError}
use cndb.Error.Texts.{decimal, display}
use cndb.Suite.{as_bytes}

largest : decimal (2 ^ 64 - 1) ≡ "18446744073709551615"
largest = refl

magic_text :
    display (λ e. "") (CndbError.bad_magic magic (as_bytes "zip "))
    ≡ "not a cndb file: expected magic [67, 78, 68, 66], found [122, 105, 112, 32]"
magic_text = refl

version_text :
    display (λ e. "") (CndbError.unsupported_version 0x00090000 0x00030000)
    ≡ "unsupported format version 0x00090000; this build supports 0x00030000"
version_text = refl

deleted_text : display (λ e. "") (CndbError.deleted 40) ≡ "document #40 was deleted"
deleted_text = refl

index_text :
    display (λ e. "") (CndbError.corrupt_index (IndexFault.not_a_master_index 128 RecordKind.blob))
    ≡ "master index is corrupt: record at 128 is Blob, not a master index"
index_text = refl
