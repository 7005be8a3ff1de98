-- ===== src/Index/Lookup.antt =====
-- The three ways to ask for a document in src/storage/index.rs against each other.
use cndb.Prelude.{
  ℕ, ◌≡◌, refl, ◌∙◌, Bool-cases, ◌&&◌, not, List, [], ◌∷◌, is_some, arith, inl, inr, ap,
}
use cndb.Error.{DocId}
use cndb.Collections.{HashSet, contains, keys, without, IsNodup}
use cndb.Collections.Laws.{contains_key-get, contains-keys}
use cndb.Index.{MasterIndex, offset_of, is_live, live_ids}
use cndb.Index.Validity.{IsValid}

contains-without :
    (s : HashSet) (ks : List ℕ) (k : ℕ)
    → contains (without s ks) k ≡ (contains ks k && not (contains s k))
unfolding contains without
contains-without s [] k = refl
contains-without s (j ∷ ks) k =
    ground (arith, contains-without s ks k, λ (e : j ≡ k). ap (contains s) e)

without-IsNodup : (s : HashSet) (ks : List ℕ) → IsNodup ks → IsNodup (without s ks)
unfolding without
without-IsNodup s [] h = tt
without-IsNodup s (j ∷ ks) h = elim (Bool-cases (contains s j)) [
  | inl e ↦ rw e (without-IsNodup s ks h.1)
  | inr e ↦ rw e (rw (contains-without s ks j, h.0) refl, without-IsNodup s ks h.1)
]

-- A document is live exactly if `offset_of` finds it, and exactly if `live_ids` lists it.
pub live_agree :
    (idx : MasterIndex) (id : DocId)
    → (is_live idx id ≡ is_some (offset_of idx id)) × (contains (live_ids idx) id ≡ is_live idx id)
unfolding is_live offset_of live_ids
live_agree idx id = (
  ground (arith, contains_key-get idx.offsets id),
  contains-without idx.dead (keys idx.offsets) id
      ∙ ap (λ b. b && not (contains idx.dead id)) (contains-keys idx.offsets id),
)

-- In a valid index `live_ids` lists no document twice.
pub live_ids-IsNodup : (idx : MasterIndex) → IsValid idx → IsNodup (live_ids idx)
unfolding live_ids
live_ids-IsNodup idx v = without-IsNodup idx.dead (keys idx.offsets) v.keys_nodup
