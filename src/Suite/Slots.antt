-- ===== src/Suite/Slots.antt =====
-- The tests of src/storage/header.rs. `hash` is `crc32fast::hash`.
use cndb.Prelude.{
  ℕ, ◌-◌, true, Bool, ◌&&◌, none, some, Bytes, length, get_or, copy_at, replicate, ◌==◌,
}
use cndb.Prelude.Words.{to_le_bytes}
use cndb.Header.{Header, header_size, log_start, initial, select_live, victim_slot}
use cndb.Header
use cndb.Suite.{
  set_byte, all_below, unwrap, fails, is_bad_magic, is_unsupported_version, is_no_valid_header,
}

abbrev pub sample : Header
sample = record { generation = 7; master_ptr = 4096; master_len = 512; log_end = 4608 }

-- The derived `==`.
abbrev header_eq : Header → Header → Bool
header_eq a b =
    a.generation == b.generation
    && (a.master_ptr == b.master_ptr && (a.master_len == b.master_len && a.log_end == b.log_end))

abbrev pub old : Header
old = record sample { generation = 3 }

abbrev pub new : Header
new = record sample { generation = 4 }

module _ (hash : Bytes → ℕ) where
  abbrev pub layout_is_exactly_one_slot : Bool
  layout_is_exactly_one_slot = length (Header.encode hash sample) == header_size && log_start == 128

  abbrev pub roundtrips : Bool
  roundtrips = unwrap (Header.decode hash (Header.encode hash sample) 0) (header_eq sample)

  abbrev pub initial_header_points_past_the_header_region : Bool
  initial_header_points_past_the_header_region =
      initial.log_end == log_start
      && (initial.master_len == 0
          && unwrap (Header.decode hash (Header.encode hash initial) 0) (header_eq initial))

  abbrev pub rejects_bad_magic : Bool
  rejects_bad_magic =
      fails is_bad_magic (Header.decode hash (set_byte (Header.encode hash sample) 0 b'X') 0)

  abbrev pub rejects_wrong_version : Bool
  rejects_wrong_version =
      let h1 = copy_at (Header.encode hash sample) 4 (to_le_bytes 4 0x0002_0000) in
      let h2 = copy_at h1 40 (replicate 4 0) in
      let h3 = copy_at h2 40 (to_le_bytes 4 (hash h2)) in
      fails is_unsupported_version (Header.decode hash h3 0)

  -- `buf[i] ^= 0xFF`
  abbrev pub detects_corruption_in_every_field : Bool
  detects_corruption_in_every_field = all_below header_size (λ i.
      let buf = Header.encode hash sample in
      fails (λ e. true) (Header.decode hash (set_byte buf i (255 - get_or buf i 0)) 0))

abbrev pub live_slot_is_the_highest_generation : Bool
live_slot_is_the_highest_generation =
    unwrap (select_live (some old, some new)) (λ (live, slot). live.generation == 4 && slot == 1)
    && unwrap (select_live (some new, some old)) (λ (live, slot). live.generation == 4 && slot == 0)

abbrev pub live_slot_ignores_a_damaged_partner : Bool
live_slot_ignores_a_damaged_partner =
    unwrap (select_live (none, some sample)) (λ (live, slot). slot == 1)
    && (unwrap (select_live (some sample, none)) (λ (live, slot). slot == 0)
        && fails is_no_valid_header (select_live (none, none)))

abbrev pub victim_is_never_the_live_slot : Bool
victim_is_never_the_live_slot =
    victim_slot (some old, some new) == 0
    && (victim_slot (some new, some old) == 1
        && (victim_slot (none, some new) == 0 && victim_slot (some new, none) == 1))
