-- ===== src/Header/Slots.antt =====
-- Which slot `select_live` and `victim_slot` of src/storage/header.rs choose.
use cndb.Prelude.{ℕ, ◌≤◌, ◌<◌, ◌≡◌, ◌≢◌, Option, none, some, ◌⊎◌, arith, ◌==◌, if◌then◌else◌}
use cndb.Result.{ok, err}
use cndb.Error.{no_valid_header, CndbError}
use cndb.Header.{Header, Slots, select_live, victim_slot, set_slot, header_slots}

-- `slots[slot]`
abbrev pub slot_at : Slots → ℕ → Option Header
slot_at (a, b) slot = if slot == 0 then a else b

-- The header lies in the slot, and no other valid slot has a later generation.
pub record IsLive (slots : Slots) (h : Header) (slot : ℕ) : Type 0 where
  pub in_range : slot < header_slots
  pub present : slot_at slots slot ≡ some h
  pub latest : (i : ℕ) (g : Header) → slot_at slots i ≡ some g → g.generation ≤ h.generation

-- If `select_live` fails then both slots are invalid, and the error is `NoValidHeader`.
pub select_live-eq_err :
    (a b : Option Header) {e : CndbError}
    → select_live (a, b) ≡ err e
    → (a ≡ none) × (b ≡ none) × (e ≡ no_valid_header)
unfolding select_live
select_live-eq_err none none h = ground arith
select_live-eq_err none (some b) h = ground arith
select_live-eq_err (some a) none h = ground arith
select_live-eq_err (some a) (some b) h = ground arith

-- If `select_live` returns a header and a slot, then the slot is one of the two, the header lies
-- in it, and no other header has a later generation.
pub select_live-IsLive :
    (slots : Slots) {h : Header} {slot : ℕ} → select_live slots ≡ ok (h, slot) → IsLive slots h slot
unfolding select_live
select_live-IsLive (none, none) e = cc
select_live-IsLive (none, some b) e = record {
  in_range = ground arith;
  present = ground arith;
  latest = λ i g p. ground arith;
}
select_live-IsLive (some a, none) e = record {
  in_range = ground arith;
  present = ground arith;
  latest = λ i g p. ground arith;
}
select_live-IsLive (some a, some b) e = record {
  in_range = ground arith;
  present = ground arith;
  latest = λ i g p. ground arith;
}

-- The slot that a commit overwrites is never the one that `select_live` chooses.
pub victim_slot-ne-live :
    (slots : Slots) {h : Header} {slot : ℕ}
    → select_live slots ≡ ok (h, slot)
    → victim_slot slots ≢ slot
unfolding select_live victim_slot
victim_slot-ne-live (none, none) e = cc
victim_slot-ne-live (none, some b) e = ground arith
victim_slot-ne-live (some a, none) e = ground arith
victim_slot-ne-live (some a, some b) e = ground arith

pub victim_slot-lt : (slots : Slots) → victim_slot slots < header_slots
unfolding victim_slot
victim_slot-lt (none, b) = ground arith
victim_slot-lt (some a, none) = ground arith
victim_slot-lt (some a, some b) = ground arith

-- If a header with a later generation than the live one is put into the victim slot, then
-- `select_live` chooses it, in that slot.
pub select_live-set_slot :
    (slots : Slots) (next : Header) {h : Header} {slot : ℕ}
    → select_live slots ≡ ok (h, slot)
    → h.generation < next.generation
    → select_live (set_slot slots (victim_slot slots) next) ≡ ok (next, victim_slot slots)
unfolding select_live victim_slot set_slot
select_live-set_slot (none, none) next e lt = ground arith
select_live-set_slot (none, some b) next e lt = ground arith
select_live-set_slot (some a, none) next e lt = ground arith
select_live-set_slot (some a, some b) next e lt = ground arith

-- The live slot stays the live one as long as the other slot is invalid or as it was.
pub select_live_keeps :
    (slots found : Slots) {h : Header} {slot : ℕ}
    → select_live slots ≡ ok (h, slot)
    → slot_at found slot ≡ some h
    → (slot_at found (victim_slot slots) ≡ none)
      ⊎ (slot_at found (victim_slot slots) ≡ slot_at slots (victim_slot slots))
    → select_live found ≡ ok (h, slot)
unfolding select_live victim_slot
select_live_keeps (none, none) found e p q = cc
select_live_keeps (none, some b) (x, y) e p q = ground arith
select_live_keeps (some a, none) (x, y) e p q = ground arith
select_live_keeps (some a, some b) (x, y) e p q = ground arith

-- A later header in the other slot is the live one.
pub select_live_later :
    (slots found : Slots) {h g : Header} {slot : ℕ}
    → select_live slots ≡ ok (h, slot)
    → slot_at found slot ≡ some h
    → slot_at found (victim_slot slots) ≡ some g
    → h.generation < g.generation
    → select_live found ≡ ok (g, victim_slot slots)
unfolding select_live victim_slot
select_live_later (none, none) found e p q lt = cc
select_live_later (none, some b) (x, y) e p q lt = ground arith
select_live_later (some a, none) (x, y) e p q lt = ground arith
select_live_later (some a, some b) (x, y) e p q lt = ground arith

-- Once the victim has become the live slot, the slot that was live is the next victim.
pub victim_slot-set_slot :
    (slots : Slots) (next : Header) {h : Header} {slot : ℕ}
    → select_live slots ≡ ok (h, slot)
    → h.generation < next.generation
    → victim_slot (set_slot slots (victim_slot slots) next) ≡ slot
unfolding select_live victim_slot set_slot
victim_slot-set_slot (none, none) next e lt = cc
victim_slot-set_slot (none, some b) next e lt = ground arith
victim_slot-set_slot (some a, none) next e lt = ground arith
victim_slot-set_slot (some a, some b) next e lt = ground arith

-- The other slot is left as it was.
pub slot_at-set_slot :
    (slots : Slots) (next : Header) (i j : ℕ)
    → i < header_slots
    → j < header_slots
    → slot_at (set_slot slots i next) j ≡ (if i == j then some next else slot_at slots j)
unfolding set_slot
slot_at-set_slot (a, b) next i j hi hj = ground arith
