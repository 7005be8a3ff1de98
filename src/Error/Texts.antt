-- ===== src/Error/Texts.antt =====
-- What the errors of src/error.rs say, and `Display` of `DocId` in src/storage/record.rs. The text of
-- an I/O error is the operating system's, and so a parameter.
use Prim.Native.String
use Prim.Native.String.{slice}
use cndb.Prelude.{ℕ, zero, suc, ◌/◌, ◌%◌, List, [], ◌∷◌, String, Bytes, if◌then◌else◌, ◌==◌}
use cndb.Error.{IoError, DocId, RecordKind, IndexFault, CndbError}

-- The texts one behind the other, as the pieces of a format string are.
abbrev pub concat : List String → String
concat [] = ""
concat (s ∷ ss) = String.◌++◌ s (concat ss)

abbrev digit : ℕ → String
digit n = slice "0123456789abcdef" n (suc n)

-- The last `width` digits of a number, the leading zeros left out.
abbrev significant : (base width n : ℕ) → String
significant base zero n = ""
significant base (suc width) n =
    let rest = significant base width (n / base) in
    if n == 0 then "" else String.◌++◌ rest (digit (n % base))

-- `{}` of a `u64`, which has at most 20 digits.
abbrev pub decimal : ℕ → String
decimal n = if n == 0 then "0" else significant 10 20 n

-- The last `width` digits of a number, the leading zeros kept.
abbrev padded : (base width n : ℕ) → String
padded base zero n = ""
padded base (suc width) n = String.◌++◌ (padded base width (n / base)) (digit (n % base))

-- `{:#010x}` of a `u32`: ten characters, the first two of them `0x`.
abbrev hexadecimal : ℕ → String
hexadecimal n = String.◌++◌ "0x" (padded 16 8 n)

abbrev after_comma : Bytes → String
after_comma [] = "]"
after_comma (b ∷ bs) = concat (", " ∷ decimal b ∷ after_comma bs ∷ [])

-- `{:?}` of bytes
abbrev debug_bytes : Bytes → String
debug_bytes [] = "[]"
debug_bytes (b ∷ bs) = concat ("[" ∷ decimal b ∷ after_comma bs ∷ [])

-- `{:?}` of a `RecordKind`
abbrev debug_kind : RecordKind → String
debug_kind RecordKind.node = "Node"
debug_kind RecordKind.edge = "Edge"
debug_kind RecordKind.blob = "Blob"
debug_kind RecordKind.tombstone = "Tombstone"
debug_kind RecordKind.master_index = "MasterIndex"

abbrev pub display_id : DocId → String
display_id id = String.◌++◌ "#" (decimal id)

abbrev index_fault : IndexFault → String
index_fault (IndexFault.bincode_error text) = text
index_fault (IndexFault.not_a_master_index master_ptr kind) =
    concat
      ("record at " ∷ decimal master_ptr ∷ " is " ∷ debug_kind kind ∷ ", not a master index" ∷ [])
index_fault (IndexFault.log_ends offset log_end) =
    concat ("log ends at " ∷ decimal offset ∷ ", header says " ∷ decimal log_end ∷ [])

module _ (io_text : IoError → String) where
  -- `to_string` of an error.
  abbrev pub display : CndbError → String
  display (CndbError.io e) = String.◌++◌ "io error: " (io_text e)
  display (CndbError.bad_magic expected found) = concat (
      "not a cndb file: expected magic "
      ∷ debug_bytes expected
      ∷ ", found "
      ∷ debug_bytes found
      ∷ [])
  display (CndbError.unsupported_version found supported) = concat (
      "unsupported format version "
      ∷ hexadecimal found
      ∷ "; this build supports "
      ∷ hexadecimal supported
      ∷ [])
  display CndbError.no_valid_header =
      "no valid header: both slots are corrupt or this is not a cndb database"
  display (CndbError.header_checksum slot) =
      concat ("header slot " ∷ decimal slot ∷ " failed its checksum" ∷ [])
  display (CndbError.record_checksum offset) =
      concat ("record at offset " ∷ decimal offset ∷ " failed its checksum" ∷ [])
  display (CndbError.record_too_large offset len max_len) = concat (
      "record at offset "
      ∷ decimal offset
      ∷ " declares "
      ∷ decimal len
      ∷ " bytes, over the "
      ∷ decimal max_len
      ∷ " byte limit"
      ∷ [])
  display (CndbError.unknown_record_kind tag offset) =
      concat ("unknown record kind " ∷ decimal tag ∷ " at offset " ∷ decimal offset ∷ [])
  display (CndbError.unexpected_eof_at offset needed) = concat (
      "unexpected end of file at offset "
      ∷ decimal offset
      ∷ ": needed "
      ∷ decimal needed
      ∷ " bytes"
      ∷ [])
  display (CndbError.not_found id) = concat ("document " ∷ display_id id ∷ " not found" ∷ [])
  display (CndbError.deleted id) = concat ("document " ∷ display_id id ∷ " was deleted" ∷ [])
  display (CndbError.bson text) = String.◌++◌ "bson: " text
  display (CndbError.not_an_object found) =
      String.◌++◌ "only JSON objects can be stored as documents, found " found
  display (CndbError.corrupt_index fault) =
      String.◌++◌ "master index is corrupt: " (index_fault fault)
