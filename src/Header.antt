-- ===== src/Header.antt =====
-- src/storage/header.rs: the two header slots, which one is live, and which one a commit overwrites.
pub mod Codec
pub mod Slots
pub mod Octets
pub mod Canonical
use cndb.Prelude.{
  ℕ, zero, suc, ◌+◌, ◌*◌, Option, none, some, true, false, List, [], ◌∷◌, Bytes, slice, copy_at,
  replicate, ltb, leb, ◌==◌, bytes_eq, not, if◌then◌else◌,
}
use cndb.Prelude.Words.{to_le_bytes, from_le_bytes}
use cndb.Result.{ok, err}
use cndb.Error.{Result, bad_magic, header_checksum, unsupported_version, no_valid_header}

-- `*b"CNDB"`
abbrev pub magic : Bytes
magic = b'C' ∷ b'N' ∷ b'D' ∷ b'B' ∷ []

abbrev pub format_version : ℕ
format_version = 0x0003_0000

abbrev pub header_size : ℕ
header_size = 64

abbrev pub header_slots : ℕ
header_slots = 2

abbrev pub log_start : ℕ
log_start = header_size * header_slots

pub record Header : Type 0 where
  pub generation : ℕ
  pub master_ptr : ℕ
  pub master_len : ℕ
  pub log_end : ℕ

abbrev pub initial : Header
initial = record { generation = 0; master_ptr = 0; master_len = 0; log_end = log_start }

-- The slot before its checksum is written: bytes 40..44 are zero.
unfoldable pub unsigned : Header → Bytes
unsigned h =
    let buf0 = replicate header_size 0 in
    let buf1 = copy_at buf0 0 magic in
    let buf2 = copy_at buf1 4 (to_le_bytes 4 format_version) in
    let buf3 = copy_at buf2 8 (to_le_bytes 8 h.generation) in
    let buf4 = copy_at buf3 16 (to_le_bytes 8 h.master_ptr) in
    let buf5 = copy_at buf4 24 (to_le_bytes 8 h.master_len) in
    copy_at buf5 32 (to_le_bytes 8 h.log_end)

unfoldable pub fields : Bytes → Header
fields buf = record {
  generation = from_le_bytes (slice 8 16 buf);
  master_ptr = from_le_bytes (slice 16 24 buf);
  master_len = from_le_bytes (slice 24 32 buf);
  log_end = from_le_bytes (slice 32 40 buf);
}

-- `hash` is `crc32fast::hash`.
module _ (hash : Bytes → ℕ) where
  unfoldable pub encode : Header → Bytes
  unfolding unsigned
  encode h = let buf = unsigned h in copy_at buf 40 (to_le_bytes 4 (hash buf))

  unfoldable pub decode : Bytes → ℕ → Result Header
  unfolding fields
  decode buf slot =
      let found = slice 0 4 buf in
      let stored_crc = from_le_bytes (slice 40 44 buf) in
      let probe = copy_at buf 40 (replicate 4 0) in
      let version = from_le_bytes (slice 4 8 buf) in
      if not (bytes_eq found magic)
      then err (bad_magic magic found)
      else if not (hash probe == stored_crc)
      then err (header_checksum slot)
      else if not (version == format_version)
      then err (unsupported_version version format_version)
      else ok (fields buf)

unfoldable pub slot_offset : ℕ → ℕ
slot_offset slot = slot * header_size

-- `[Option<Header>; HEADER_SLOTS]`
abbrev pub Slots : Type 0
Slots = Option Header × Option Header

abbrev pub iter : Slots → List (Option Header)
iter (a, b) = a ∷ b ∷ []

-- `slots[slot] = Some(header)`
unfoldable pub set_slot : Slots → ℕ → Header → Slots
set_slot (a, b) slot h = if slot == 0 then (some h, b) else (a, some h)

-- `iter().enumerate().filter_map(|(i, h)| h.map(|h| (h, i)))`, from index `i` on
unfoldable pub valid_from : ℕ → List (Option Header) → List (Header × ℕ)
valid_from i [] = []
valid_from i (none ∷ hs) = valid_from (suc i) hs
valid_from i (some h ∷ hs) = (h, i) ∷ valid_from (suc i) hs

-- `max_by_key` on the generation: the last of several maxima.
unfoldable pub max_by_generation : Option (Header × ℕ) → List (Header × ℕ) → Option (Header × ℕ)
max_by_generation best [] = best
max_by_generation none (x ∷ xs) = max_by_generation (some x) xs
max_by_generation (some b) (x ∷ xs) =
    max_by_generation (some (if leb b.0.generation x.0.generation then x else b)) xs

-- `min_by_key` on the generation: the first of several minima.
unfoldable pub min_by_generation : Option (Header × ℕ) → List (Header × ℕ) → Option (Header × ℕ)
min_by_generation best [] = best
min_by_generation none (x ∷ xs) = min_by_generation (some x) xs
min_by_generation (some b) (x ∷ xs) =
    min_by_generation (some (if ltb x.0.generation b.0.generation then x else b)) xs

-- `position(|h| h.is_none())`, from index `i` on
unfoldable pub position_none : ℕ → List (Option Header) → Option ℕ
position_none i [] = none
position_none i (none ∷ hs) = some i
position_none i (some h ∷ hs) = position_none (suc i) hs

unfoldable pub select_live : Slots → Result (Header × ℕ)
unfolding valid_from max_by_generation
select_live slots = elim (max_by_generation none (valid_from 0 (iter slots))) [
  | none ↦ err no_valid_header
  | some best ↦ ok best
]

unfoldable pub victim_slot : Slots → ℕ
unfolding valid_from min_by_generation position_none
victim_slot slots = elim (position_none 0 (iter slots)) [
  | some i ↦ i
  | none ↦ elim (min_by_generation none (valid_from 0 (iter slots))) [ none ↦ 0 | some (_, i) ↦ i ]
]
