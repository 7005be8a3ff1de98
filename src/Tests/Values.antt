-- ===== src/Tests/Values.antt =====
-- JSON values with their constructors and a concrete encoding of them, to run the tests of
-- src/document/codec.rs on.
use cndb.Prelude.{
  ℕ, zero, suc, ◌+◌, ◌*◌, Option, none, some, Bool, true, false, List, [], ◌∷◌, ◌++◌, String, Bytes,
  length, take, drop, bytes_eq, leb, if◌then◌else◌,
}
use cndb.Prelude.Words.{to_le_bytes, from_le_bytes}
use cndb.Result.{StdResult, ok, err}
use cndb.Float.{F64, finite}
use cndb.Document.{ValueKind, DocCrates}
use cndb.Suite.{as_bytes}
use cndb.Suite.Codecs.{JsonCrate}

mutual
  pub data Value : Type 0 where
    null : Value
    bool : Bool → Value
    int : ℕ → Value
    minus : ℕ → Value
    float : ℕ → Value
    text : Bytes → Value
    array : Values → Value
    object : Fields → Value

  pub data Values : Type 0 where
    nil : Values
    cons : Value → Values → Values

  pub data Fields : Type 0 where
    end : Fields
    field : Bytes → Value → Fields → Fields

abbrev values : List Value → Values
values [] = nil
values (v ∷ vs) = cons v (values vs)

abbrev fields : List (String × Value) → Fields
fields [] = end
fields ((k, v) ∷ fs) = field (as_bytes k) v (fields fs)

-- A text is its length and its code points.
abbrev put_text : Bytes → Bytes
put_text [] = []
put_text (b ∷ bs) = to_le_bytes 4 b ++ put_text bs

abbrev framed : Bytes → Bytes
framed bs = to_le_bytes 4 (length bs) ++ put_text bs

abbrev flag : Bool → ℕ
flag true = 1
flag false = 0

-- A value is a tag and what it holds; the items of an array each have a 1 before them, and a 0 ends
-- them.
abbrev mutual
  encode : Value → Bytes
  encode null = 0 ∷ []
  encode (bool b) = 1 ∷ flag b ∷ []
  encode (int n) = 2 ∷ to_le_bytes 8 n
  encode (minus n) = 3 ∷ to_le_bytes 8 n
  encode (float units) = 4 ∷ to_le_bytes 150 units
  encode (text bs) = 5 ∷ framed bs
  encode (array vs) = 6 ∷ encode_values vs
  encode (object fs) = 7 ∷ encode_fields fs

  encode_values : Values → Bytes
  encode_values nil = 0 ∷ []
  encode_values (cons v vs) = 1 ∷ (encode v ++ encode_values vs)

  encode_fields : Fields → Bytes
  encode_fields end = 0 ∷ []
  encode_fields (field k v fs) = 1 ∷ (framed k ++ (encode v ++ encode_fields fs))

-- Reading from the front of a buffer.
abbrev Parser : Type 0 → Type 0
Parser A = Bytes → Option (A × Bytes)

abbrev and_then : {A B : Type 0} → Option (A × Bytes) → (A → Parser B) → Option (B × Bytes)
and_then none next = none
and_then (some (a, rest)) next = next a rest

abbrev done : {A : Type 0} → A → Parser A
done a rest = some (a, rest)

abbrev word : ℕ → Parser ℕ
word w bs = if leb w (length bs) then some (from_le_bytes (take w bs), drop w bs) else none

abbrev get_text : ℕ → Parser Bytes
get_text zero bs = some ([], bs)
get_text (suc n) bs =
    and_then (word 4 bs) (λ b rest. and_then (get_text n rest) (λ text. done (b ∷ text)))

abbrev get_framed : Parser Bytes
get_framed bs = and_then (word 4 bs) get_text

abbrev truth : ℕ → Bool
truth zero = false
truth (suc n) = true

pub data Tag : Type 0 where
  unit truth_value whole negative real string items entries : Tag

abbrev nth : List Tag → ℕ → Option Tag
nth [] n = none
nth (tag ∷ tags) zero = some tag
nth (tag ∷ tags) (suc n) = nth tags n

abbrev tag_of : ℕ → Option Tag
tag_of = nth (unit ∷ truth_value ∷ whole ∷ negative ∷ real ∷ string ∷ items ∷ entries ∷ [])

-- Each round uses up a byte or hands over to the next one, so that twice the length of the buffer is
-- enough fuel.
abbrev mutual
  decode : ℕ → Parser Value
  decode zero bs = none
  decode (suc fuel) [] = none
  decode (suc fuel) (t ∷ bs) = elim (tag_of t) [ none ↦ none | some tag ↦ decode_as fuel tag bs ]

  decode_as : ℕ → Tag → Parser Value
  decode_as zero tag bs = none
  decode_as (suc fuel) unit bs = done null bs
  decode_as (suc fuel) truth_value bs = and_then (word 1 bs) (λ b. done (bool (truth b)))
  decode_as (suc fuel) whole bs = and_then (word 8 bs) (λ n. done (int n))
  decode_as (suc fuel) negative bs = and_then (word 8 bs) (λ n. done (minus n))
  decode_as (suc fuel) real bs = and_then (word 150 bs) (λ n. done (float n))
  decode_as (suc fuel) string bs = and_then (get_framed bs) (λ s. done (text s))
  decode_as (suc fuel) items bs = and_then (decode_values fuel bs) (λ vs. done (array vs))
  decode_as (suc fuel) entries bs = and_then (decode_fields fuel bs) (λ fs. done (object fs))

  decode_values : ℕ → Parser Values
  decode_values (suc fuel) (zero ∷ bs) = done nil bs
  decode_values (suc fuel) (suc zero ∷ bs) =
      and_then (decode fuel bs)
        (λ v rest. and_then (decode_values fuel rest) (λ vs. done (cons v vs)))
  decode_values _ _ = none

  decode_fields : ℕ → Parser Fields
  decode_fields (suc fuel) (zero ∷ bs) = done end bs
  decode_fields (suc fuel) (suc zero ∷ bs) = and_then (get_framed bs) (λ k rest.
      and_then (decode fuel rest)
        (λ v rest'. and_then (decode_fields fuel rest') (λ fs. done (field k v fs))))
  decode_fields _ _ = none

abbrev kind_of : Value → ValueKind
kind_of null = ValueKind.null
kind_of (bool b) = ValueKind.bool
kind_of (int n) = ValueKind.number
kind_of (minus n) = ValueKind.number
kind_of (float n) = ValueKind.number
kind_of (text s) = ValueKind.string
kind_of (array vs) = ValueKind.array
kind_of (object fs) = ValueKind.object

abbrev is_object : Value → Bool
is_object (object fs) = true
is_object _ = false

abbrev whole_buffer : Option (Value × Bytes) → StdResult String Value
whole_buffer (some (v, [])) = ok v
whole_buffer (some (v, b ∷ bs)) = err "bytes behind the document"
whole_buffer none = err "not a document"

abbrev pub value_crates : DocCrates
value_crates = record {
  Value = Value;
  Document = Value;
  kind_of = kind_of;
  is_object = is_object;
  to_document = λ v. ok v;
  to_writer = λ v. ok (encode v);
  from_slice = λ bs. whole_buffer (decode (2 * length bs + 2) bs);
  from_document = λ v. ok v;
}

abbrev lookup : Fields → Bytes → Value
lookup end key = null
lookup (field k v fs) key = if bytes_eq k key then v else lookup fs key

abbrev at : Value → String → Value
at (object fs) key = lookup fs (as_bytes key)
at _ key = null

abbrev is_null : Value → Bool
is_null null = true
is_null _ = false

abbrev is_i64 : Value → Bool
is_i64 (int n) = true
is_i64 (minus n) = true
is_i64 _ = false

abbrev starts_with : Value → String → Bool
starts_with (text bs) s = bytes_eq (take (length (as_bytes s)) bs) (as_bytes s)
starts_with _ s = false

-- JSON has no infinite number and no NaN.
abbrev number : F64 → Value
number (finite units) = float units
number _ = null

abbrev pub json : JsonCrate value_crates
json = record {
  null = null;
  bool = bool;
  int = int;
  minus = minus;
  float = number;
  text = λ s. text (as_bytes s);
  array = λ vs. array (values vs);
  object = λ fs. object (fields fs);
  at = at;
  is_null = is_null;
  is_i64 = is_i64;
  starts_with = starts_with;
  eq = λ a b. bytes_eq (encode a) (encode b);
}
