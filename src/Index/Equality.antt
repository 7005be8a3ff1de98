-- ===== src/Index/Equality.antt =====
-- The derived `==` of `MasterIndex` in src/storage/index.rs: it compares the maps and the sets as
-- such, not the order of their entries.
use cndb.Prelude.{ℕ, ◌≡◌, refl, sym, ◌∙◌, length}
use cndb.Collections.{contains, get}
use cndb.Index.{MasterIndex, offset_of, live_count}

pub record SameIndex (a b : MasterIndex) : Type 0 where
  pub offsets_len : length a.offsets ≡ length b.offsets
  pub offsets : (k : ℕ) → get a.offsets k ≡ get b.offsets k
  pub dead_len : length a.dead ≡ length b.dead
  pub dead : (k : ℕ) → contains a.dead k ≡ contains b.dead k
  pub next_doc_id : a.next_doc_id ≡ b.next_doc_id

pub SameIndex-refl : (a : MasterIndex) → SameIndex a a
SameIndex-refl a = record {
  offsets_len = refl;
  offsets = λ k. refl;
  dead_len = refl;
  dead = λ k. refl;
  next_doc_id = refl;
}

pub SameIndex-sym : {a b : MasterIndex} → SameIndex a b → SameIndex b a
SameIndex-sym s = record {
  offsets_len = sym s.offsets_len;
  offsets = λ k. sym (s.offsets k);
  dead_len = sym s.dead_len;
  dead = λ k. sym (s.dead k);
  next_doc_id = sym s.next_doc_id;
}

pub SameIndex-trans : {a b c : MasterIndex} → SameIndex a b → SameIndex b c → SameIndex a c
SameIndex-trans s t = record {
  offsets_len = s.offsets_len ∙ t.offsets_len;
  offsets = λ k. s.offsets k ∙ t.offsets k;
  dead_len = s.dead_len ∙ t.dead_len;
  dead = λ k. s.dead k ∙ t.dead k;
  next_doc_id = s.next_doc_id ∙ t.next_doc_id;
}

-- Equal indexes look the same documents up and count the same.
pub offset_of-SameIndex :
    {a b : MasterIndex} (k : ℕ) → SameIndex a b → offset_of a k ≡ offset_of b k
unfolding offset_of
offset_of-SameIndex k s = rw (s.dead k, s.offsets k)

pub live_count-SameIndex : {a b : MasterIndex} → SameIndex a b → live_count a ≡ live_count b
unfolding live_count
live_count-SameIndex s = rw (s.offsets_len, s.dead_len)
