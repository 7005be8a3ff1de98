-- ===== src/Document/Codec.antt =====
-- `to_bson_bytes` and `from_bson_bytes` of src/document/codec.rs against each other.
use cndb.Prelude.{◌<◌, ◌^◌, length, ◌≡◌, ◌≢◌, Bool-cases, inl, inr, Bytes, arith}
use cndb.Result.{ok, err, StdResult-cases}
use cndb.Error.{not_an_object}
use cndb.Document.{DocCrates, IsDocLawful, object, type_name, to_bson_bytes, from_bson_bytes}

module _ (d : DocCrates) {Storable : d.Value → Type 0} (lawful : IsDocLawful d Storable) where
  -- With lawful crates, if a document that BSON can express encodes to some bytes, then these
  -- bytes decode to it.
  pub from_bson_bytes-to_bson_bytes :
      (v : d.Value) (bytes : Bytes)
      → Storable v
      → to_bson_bytes d v ≡ ok bytes
      → from_bson_bytes d bytes ≡ ok v
  unfolding to_bson_bytes from_bson_bytes
  from_bson_bytes-to_bson_bytes v bytes s h = elim (Bool-cases (d.is_object v)) [
    | inr no_object ↦ absurd (ground arith)
    | inl is_obj ↦
        let (doc, p, q) = lawful.to_document-Storable v s ((lawful.is_object_iff v).0 is_obj) in
        elim (StdResult-cases (d.to_writer doc)) [
          | inr (x, r) ↦ absurd (ground (arith, p))
          | inl (out, r) ↦ ground (arith, p, q, lawful.to_writer-from_slice doc out r)
        ]
  ]

  -- Whatever is not an object is refused, with its type named.
  pub to_bson_bytes-refused :
      (v : d.Value)
      → d.kind_of v ≢ object
      → to_bson_bytes d v ≡ err (not_an_object (type_name (d.kind_of v)))
  unfolding to_bson_bytes
  to_bson_bytes-refused v other = elim (Bool-cases (d.is_object v)) [
    | inl is_obj ↦ absurd (other ((lawful.is_object_iff v).0 is_obj))
    | inr no_object ↦ rw no_object
  ]

  pub to_bson_bytes-length :
      (v : d.Value) (bytes : Bytes) → to_bson_bytes d v ≡ ok bytes → length bytes < 2 ^ 64
  unfolding to_bson_bytes
  to_bson_bytes-length v bytes h = elim (Bool-cases (d.is_object v)) [
    | inr no_object ↦ absurd (ground arith)
    | inl is_obj ↦ elim (StdResult-cases (d.to_document v)) [
      | inr (x, p) ↦ absurd (ground arith)
      | inl (doc, p) ↦ elim (StdResult-cases (d.to_writer doc)) [
        | inr (x, r) ↦ absurd (ground arith)
        | inl (out, r) ↦ ground (arith, lawful.to_writer-length doc out r)
      ]
    ]
  ]
