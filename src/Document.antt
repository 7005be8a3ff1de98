-- ===== src/Document.antt =====
-- src/document/codec.rs: JSON documents as BSON bytes. The crates `serde_json` and `bson` are not the
-- program's code: their types and functions are the parameters.
pub mod Codec
use cndb.Prelude.{◌<◌, ◌^◌, length, ◌≡◌, ◌≢◌, ◌↔◌, Bool, true, String, Bytes, not, if◌then◌else◌}
use cndb.Result.{StdResult, ok, err, map_err, ◌>>=◌}
use cndb.Error.{Result, bson, not_an_object}

-- The constructors of `serde_json::Value`, without what they hold.
pub data ValueKind : Type 0 where
  null bool number string array object : ValueKind

-- `out` is what `to_writer` leaves in the empty buffer. Errors are their `to_string`.
pub record DocCrates : Type 1 where
  pub Value : Type 0
  pub Document : Type 0
  pub kind_of : Value → ValueKind
  pub is_object : Value → Bool
  pub to_document : Value → StdResult String Document
  pub to_writer : Document → StdResult String Bytes
  pub from_slice : Bytes → StdResult String Document
  pub from_document : Document → StdResult String Value

-- What the documentation of the two crates says, for values that BSON can express.
pub record IsDocLawful (d : DocCrates) (Storable : d.Value → Type 0) : Type 0 where
  pub is_object_iff : (v : d.Value) → (d.is_object v ≡ true) ↔ (d.kind_of v ≡ object)
  pub to_document-Storable :
      (v : d.Value)
      → Storable v
      → d.kind_of v ≡ object
      → (doc : d.Document) × (d.to_document v ≡ ok doc) × (d.from_document doc ≡ ok v)
  pub to_writer-from_slice :
      (doc : d.Document) (bytes : Bytes) → d.to_writer doc ≡ ok bytes → d.from_slice bytes ≡ ok doc
  -- The length of a `Vec` is a `usize`.
  pub to_writer-length :
      (doc : d.Document) (bytes : Bytes) → d.to_writer doc ≡ ok bytes → length bytes < 2 ^ 64

unfoldable pub type_name : ValueKind → String
type_name null = "null"
type_name bool = "a boolean"
type_name number = "a number"
type_name string = "a string"
type_name array = "an array"
type_name object = "an object"

module _ (d : DocCrates) where
  unfoldable pub to_bson_bytes : d.Value → Result Bytes
  to_bson_bytes value =
      if not (d.is_object value)
      then err (not_an_object (type_name (d.kind_of value)))
      else do doc ← map_err bson (d.to_document value); map_err bson (d.to_writer doc)

  unfoldable pub from_bson_bytes : Bytes → Result d.Value
  from_bson_bytes bytes = do
    doc ← map_err bson (d.from_slice bytes)
    map_err bson (d.from_document doc)
