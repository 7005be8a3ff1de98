-- ===== src/Header/Canonical.antt =====
-- `Header::decode` of src/storage/header.rs on slots that were not written by `encode`.
use cndb.Prelude.{
  ℕ, zero, suc, ◌+◌, ◌≡◌, refl, sym, ap, ap₂, ◌∙◌, [], ◌∷◌, ◌++◌, Bytes, length, copy_at, replicate,
  take, drop, arith, length-take, length-drop, ◌≤◌, ◌*◌, ◌%◌, ◌/◌,
}
use cndb.Prelude.Words.{to_le_bytes, from_le_bytes}
use cndb.Prelude.Octets.{IsBytes, take-IsBytes, drop-IsBytes}
use cndb.Result.{ok}
use cndb.Header.{Header, header_size, magic, format_version, unsigned, encode, decode, fields}
use cndb.Header.Codec.{IsSigned, decode-IsSigned}

-- The bytes of a word give it, and it gives them.
to_le_bytes-from_le_bytes :
    (w : ℕ) (bs : Bytes) → length bs ≡ w → IsBytes bs → to_le_bytes w (from_le_bytes bs) ≡ bs
unfolding IsBytes
to_le_bytes-from_le_bytes zero [] l h = refl
to_le_bytes-from_le_bytes zero (b ∷ bs) l h = absurd (omega arith)
to_le_bytes-from_le_bytes (suc w) [] l h = absurd (omega arith)
to_le_bytes-from_le_bytes (suc w) (b ∷ bs) l h =
    let rest = to_le_bytes-from_le_bytes w bs (omega arith) h.1 in
    let low : (b + 256 * from_le_bytes bs) % 256 ≡ b = omega (arith, h.0) in
    let high : (b + 256 * from_le_bytes bs) / 256 ≡ from_le_bytes bs = omega (arith, h.0) in
    ap₂ (λ x xs. x ∷ xs) low (ap (to_le_bytes w) high ∙ rest)

drop_nothing : (n : ℕ) → [] ≡ drop {A = ℕ} n []
drop_nothing zero = refl
drop_nothing (suc n) = refl

take-drop : (n : ℕ) (xs : Bytes) → take n xs ++ drop n xs ≡ xs
take-drop zero xs = refl
take-drop (suc n) [] = refl
take-drop (suc n) (x ∷ xs) = ap (λ l. x ∷ l) (take-drop n xs)

drop-drop : (lo n hi : ℕ) (xs : Bytes) → hi ≡ lo + n → drop n (drop lo xs) ≡ drop hi xs
drop-drop zero n hi xs e = ap (λ k. drop k xs) (omega arith)
drop-drop (suc lo) zero hi [] e = drop_nothing hi
drop-drop (suc lo) (suc n) hi [] e = drop_nothing hi
drop-drop (suc lo) n zero (x ∷ xs) e = absurd (omega arith)
drop-drop (suc lo) n (suc hi) (x ∷ xs) e = drop-drop lo n hi xs (omega arith)

take_split :
    (lo n hi : ℕ) (xs : Bytes) → hi ≡ lo + n → take hi xs ≡ take lo xs ++ take n (drop lo xs)
take_split zero n hi xs e = ap (λ k. take k xs) (omega arith)
take_split (suc lo) zero zero [] e = refl
take_split (suc lo) zero (suc hi) [] e = refl
take_split (suc lo) (suc n) zero [] e = refl
take_split (suc lo) (suc n) (suc hi) [] e = refl
take_split (suc lo) n zero (x ∷ xs) e = absurd (omega arith)
take_split (suc lo) n (suc hi) (x ∷ xs) e = ap (λ l. x ∷ l) (take_split lo n hi xs (omega arith))

module _ (buf : Bytes) (octets : IsBytes buf) (reserved : drop 44 buf ≡ replicate 20 0) where
  length-buf : length buf ≡ header_size
  length-buf = omega (arith, length-drop 44 buf, ap length reserved)

  -- A word of the slot is the bytes of its number.
  word_at :
      (lo w : ℕ)
      → lo + w ≤ header_size
      → take w (drop lo buf) ≡ to_le_bytes w (from_le_bytes (take w (drop lo buf)))
  word_at lo w le = sym (
      to_le_bytes-from_le_bytes w (take w (drop lo buf))
        (omega (arith, length-take w (drop lo buf), length-drop lo buf, length-buf))
        (take-IsBytes w (drop lo buf) (drop-IsBytes lo buf octets)))

  -- The first 40 bytes, from the fields.
  abbrev head : Header → Bytes
  head h =
      ((((magic ++ to_le_bytes 4 format_version) ++ to_le_bytes 8 h.generation)
          ++ to_le_bytes 8 h.master_ptr)
        ++ to_le_bytes 8 h.master_len)
      ++ to_le_bytes 8 h.log_end

  next :
      (lo w hi : ℕ) (front : Bytes)
      → hi ≡ lo + w
      → hi ≤ header_size
      → take lo buf ≡ front
      → take hi buf ≡ front ++ to_le_bytes w (from_le_bytes (take w (drop lo buf)))
  next lo w hi front e le h =
      take_split lo w hi buf e ∙ ap₂ (λ xs ys. xs ++ ys) h (word_at lo w (omega arith))

  module _ (hash : Bytes → ℕ) (signed : IsSigned hash buf) where
    take_front : take 40 buf ≡ head (fields buf)
    unfolding fields
    take_front = next 32 8 40 _ (omega arith) (omega arith) (
        next 24 8 32 _ (omega arith) (omega arith) (
          next 16 8 24 _ (omega arith) (omega arith)
            (next 8 8 16 _ (omega arith) (omega arith) version)))
      where
        version : take 8 buf ≡ magic ++ to_le_bytes 4 format_version
        version =
            next 4 4 8 magic (omega arith) (omega arith) signed.magic_ok
            ∙ ap (λ v. magic ++ to_le_bytes 4 v) signed.version_ok

    probe : copy_at buf 40 (replicate 4 0) ≡ unsigned (fields buf)
    unfolding unsigned
    probe = ap₂ (λ xs ys. xs ++ (replicate 4 0 ++ ys)) take_front reserved

    checksum : take 4 (drop 40 buf) ≡ to_le_bytes 4 (hash (unsigned (fields buf)))
    checksum = word_at 40 4 (omega arith) ∙ ap (to_le_bytes 4) (sym signed.crc_ok ∙ ap hash probe)

    encode-fields : encode hash (fields buf) ≡ buf
    unfolding encode
    encode-fields =
        ap₂ (λ xs ys. xs ++ ys) (sym take_front)
          (ap₂ (λ xs ys. xs ++ ys) (sym checksum) (sym reserved))
        ∙ ap (λ ys. take 40 buf ++ ys)
            (ap (λ ys. take 4 (drop 40 buf) ++ ys) (sym (drop-drop 40 4 44 buf (omega arith)))
              ∙ take-drop 4 (drop 40 buf))
        ∙ take-drop 40 buf

-- If a slot holds bytes, of which those from 44 on are the 20 zeros that are reserved, and
-- decodes to a header, in either slot, then the header encodes to exactly these bytes.
pub encode-decode :
    (hash : Bytes → ℕ) (buf : Bytes) (slot : ℕ) (h : Header)
    → IsBytes buf
    → drop 44 buf ≡ replicate 20 0
    → decode hash buf slot ≡ ok h
    → encode hash h ≡ buf
encode-decode hash buf slot h octets reserved p =
    let (signed, same) = decode-IsSigned hash buf slot p in
    ap (encode hash) (sym same) ∙ encode-fields buf octets reserved hash signed
