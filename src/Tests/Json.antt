-- ===== src/Tests/Json.antt =====
-- Concrete functions for the crates of src/document/codec.rs, and the laws that they meet: an object
-- is what its fields encode to.
use cndb.Prelude.{
  ◌<◌, ◌^◌, ◌≡◌, refl, Bool, true, false, Bool-cases, inl, inr, String, Bytes, length, ltb,
  if◌then◌else◌, arith,
}
use cndb.Result.{StdResult, ok, err}
use cndb.Document.{ValueKind, DocCrates, IsDocLawful}

pub data Json : Type 0 where
  nothing : Json
  fields : (encoded : Bytes) → Json

abbrev kind_of : Json → ValueKind
kind_of nothing = ValueKind.null
kind_of (fields bs) = ValueKind.object

abbrev is_object : Json → Bool
is_object nothing = false
is_object (fields bs) = true

abbrev to_document : Json → StdResult String Bytes
to_document nothing = err "not a document"
to_document (fields bs) = ok bs

abbrev from_document : Bytes → StdResult String Json
from_document bs = ok (fields bs)

abbrev to_writer : Bytes → StdResult String Bytes
to_writer bs = if ltb (length bs) (2 ^ 64) then ok bs else err "too long"

abbrev pub doc_crates : DocCrates
doc_crates = record {
  Value = Json;
  Document = Bytes;
  kind_of = kind_of;
  is_object = is_object;
  to_document = to_document;
  to_writer = to_writer;
  from_slice = λ bs. ok bs;
  from_document = from_document;
}

abbrev pub Storable : Json → Type 0
Storable v = Unit

to_writer-ok : (doc bs : Bytes) → to_writer doc ≡ ok bs → (doc ≡ bs) × (length bs < 2 ^ 64)
to_writer-ok doc bs h = elim (Bool-cases (ltb (length doc) (2 ^ 64))) [
  | inl fits ↦ ground arith
  | inr long ↦ absurd (ground arith)
]

is_object-kind :
    (v : Json)
    → ((is_object v ≡ true) → (kind_of v ≡ ValueKind.object))
      × ((kind_of v ≡ ValueKind.object) → (is_object v ≡ true))
is_object-kind nothing = (λ h. cc, λ h. cc)
is_object-kind (fields bs) = (λ h. refl, λ h. refl)

to_document-kind :
    (v : Json)
    → kind_of v ≡ ValueKind.object
    → (doc : Bytes) × (to_document v ≡ ok doc) × (from_document doc ≡ ok v)
to_document-kind nothing h = cc
to_document-kind (fields bs) h = (bs, refl, refl)

pub doc_crates-IsLawful : IsDocLawful doc_crates Storable
doc_crates-IsLawful = record {
  is_object_iff = is_object-kind;
  to_document-Storable = λ v s h. to_document-kind v h;
  to_writer-from_slice = λ doc bs h. let (same, fits) = to_writer-ok doc bs h in rw same refl;
  to_writer-length = λ doc bs h. (to_writer-ok doc bs h).1;
}
