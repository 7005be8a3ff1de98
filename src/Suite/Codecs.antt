-- ===== src/Suite/Codecs.antt =====
-- The tests of src/document/codec.rs. What the `json!` macro makes, and what the tests ask of values,
-- is code of `serde_json`, and so a parameter.
use cndb.Prelude.{
  ℕ, zero, suc, ◌-◌, ◌*◌, ◌^◌, Bool, true, false, ◌&&◌, List, [], ◌∷◌, String, length, take,
}
use cndb.Result
use cndb.Result.{ok, err}
use cndb.Error.{Result}
use cndb.Float.{F64, finite}
use cndb.Document.{DocCrates, to_bson_bytes, from_bson_bytes}
use cndb.Suite.{as_bytes, unwrap}

-- The forms of `json!`: `null`, `true`, `42`, `-7`, `1.5`, `"text"`, `[..]` and `{ "key": .. }`; and
-- `v["key"]`, `is_null`, `is_i64`, `as_str().unwrap().starts_with(prefix)` and `a == b`.
pub record JsonCrate (d : DocCrates) : Type 0 where
  pub null : d.Value
  pub bool : Bool → d.Value
  pub int : ℕ → d.Value
  pub minus : ℕ → d.Value
  pub float : F64 → d.Value
  pub text : String → d.Value
  pub array : List d.Value → d.Value
  pub object : List (String × d.Value) → d.Value
  pub at : d.Value → String → d.Value
  pub is_null : d.Value → Bool
  pub is_i64 : d.Value → Bool
  pub starts_with : d.Value → String → Bool
  pub eq : d.Value → d.Value → Bool

-- 1.5
abbrev one_and_a_half : F64
one_and_a_half = finite (3 * 2 ^ 1073)

-- `r.is_err()`
abbrev is_err : {A : Type 0} → Result A → Bool
is_err (ok value) = false
is_err (err error) = true

module _ (d : DocCrates) (j : JsonCrate d) where
  -- What is behind the two `unwrap` of `roundtrip`.
  abbrev roundtrip : d.Value → (d.Value → Bool) → Bool
  roundtrip value test = unwrap (Result.◌>>=◌ (to_bson_bytes d value) (from_bson_bytes d)) test

  -- `assert_eq!(roundtrip(doc.clone()), doc)`
  abbrev comes_back : d.Value → Bool
  comes_back doc = roundtrip doc (λ out. j.eq out doc)

  abbrev pub flat_objects_roundtrip : Bool
  flat_objects_roundtrip = comes_back (
      j.object
        (("name", j.text "parse_header") ∷ ("line", j.int 42) ∷ ("public", j.bool true) ∷ []))

  abbrev pub nested_objects_and_arrays_roundtrip : Bool
  nested_objects_and_arrays_roundtrip =
      let span =
        j.object
          (("start_line", j.int 231) ∷ ("end_line", j.int 268) ∷ ("start_byte", j.int 7104) ∷ []) in
      let params = j.array (
        j.object (("name", j.text "self") ∷ ("by_ref", j.bool true) ∷ [])
        ∷ j.object (("name", j.text "force") ∷ ("by_ref", j.bool false) ∷ [])
        ∷ []) in
      comes_back (
        j.object (
          ("kind", j.text "Function")
          ∷ ("qualified_name", j.text "cndb::storage::engine::StorageEngine::commit")
          ∷ ("span", span)
          ∷ ("params", params)
          ∷ ("doc", j.null)
          ∷ ("tags", j.array (j.text "storage" ∷ j.text "commit" ∷ j.text "durability" ∷ []))
          ∷ []))

  abbrev pub scalar_types_keep_their_identity : Bool
  scalar_types_keep_their_identity =
      let doc = j.object (
        ("null", j.null)
        ∷ ("true", j.bool true)
        ∷ ("false", j.bool false)
        ∷ ("int", j.int 42)
        ∷ ("negative", j.minus 7)
        ∷ ("zero", j.int 0)
        ∷ ("float", j.float one_and_a_half)
        ∷ ("string", j.text "")
        ∷ ("unicode", j.text "λ → ∀ 日本語")
        ∷ ("empty_object", j.object [])
        ∷ ("empty_array", j.array [])
        ∷ []) in
      roundtrip doc (λ out.
        j.eq out doc
        && (j.is_null (j.at out "null")
            && (j.eq (j.at out "int") (j.int 42)
                && j.eq (j.at out "float") (j.float one_and_a_half))))

  abbrev pub integers_do_not_silently_become_floats : Bool
  integers_do_not_silently_become_floats =
      roundtrip (j.object (("n", j.int 9007199254740993) ∷ []))
        (λ out. j.eq (j.at out "n") (j.int 9007199254740993) && j.is_i64 (j.at out "n"))

  -- `for i in 0..n { doc = json!({ "depth": i, "child": doc }); }`
  abbrev nested : ℕ → d.Value
  nested zero = j.object (("leaf", j.bool true) ∷ [])
  nested (suc n) = j.object (("depth", j.int n) ∷ ("child", nested n) ∷ [])

  abbrev pub deep_nesting_roundtrips : Bool
  deep_nesting_roundtrips = comes_back (nested 32)

  abbrev pub garbage_bytes_do_not_decode : Bool
  garbage_bytes_do_not_decode =
      is_err (from_bson_bytes d (as_bytes "not bson at all")) && is_err (from_bson_bytes d [])

  abbrev pub a_truncated_document_does_not_decode : Bool
  a_truncated_document_does_not_decode =
      unwrap (to_bson_bytes d (j.object (("key", j.text "a value long enough to cut") ∷ [])))
        (λ bytes. is_err (from_bson_bytes d (take (length bytes - 5) bytes)))
