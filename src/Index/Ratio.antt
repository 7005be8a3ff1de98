-- ===== src/Index/Ratio.antt =====
-- `dead_ratio` of src/storage/index.rs against the counts.
use cndb.Prelude.{
  ℕ, ◌*◌, ◌^◌, ◌≤◌, ◌<◌, ◌≡◌, refl, ap₂, ◌∙◌, ◌↔◌, Bool-cases, inl, inr, length, ==_iff, ◌==◌,
  arith,
}
use cndb.Float.{unity, of_usize, div, rounded, finite}
use cndb.Float.Rounding.{
  rounded-le, rounded_whole, rounded-pos, rounded_nothing, of_usize_exact, div_finite,
}
use cndb.Index.{MasterIndex, dead_ratio, live_count, dead_count}
use cndb.Index.Counts.{live_count-eq_length, length-offsets}
use cndb.Index.Validity.{IsValid}

-- The quotient of two counts below 2^53.
module _ (m n : ℕ) (le : m ≤ n) (pos : 0 < n) (small : n < 2 ^ 53) where
  abbrev share : ℕ
  share = rounded (m * unity * unity) (n * unity)

  at_most : m * unity * unity ≤ n * unity * unity
  at_most = omega arith

  quotient : div (of_usize m) (of_usize n) ≡ finite share
  quotient =
      ap₂ div (of_usize_exact m (omega arith)) (of_usize_exact n small)
      ∙ div_finite (m * unity) (n * unity) (omega arith) (omega arith)

  share-le : share ≤ unity
  share-le = rounded-le _ (n * unity) (omega arith) at_most

  share_nothing : m ≡ 0 → share ≡ 0
  share_nothing e = rounded_nothing _ (n * unity) (omega arith) at_most (omega arith)

  share-pos : 0 < m → 0 < share
  share-pos some_left = rounded-pos _ (n * unity) (omega arith) at_most (omega arith)

  share_whole : m ≡ n → share ≡ unity
  share_whole e = rounded_whole _ (n * unity) (omega arith) at_most (omega arith)

-- In a valid index, which may be empty, whose next id is at most 2^53: `dead_ratio` is finite, so
-- not NaN, and at most 1.0; it is 0.0 exactly if no document is deleted; and it is 1.0 if
-- documents are deleted and none is live.
pub dead_ratio_bounds :
    (idx : MasterIndex)
    → IsValid idx
    → idx.next_doc_id ≤ 2 ^ 53
    → (share : ℕ) × (dead_ratio idx ≡ finite share)
      × (share ≤ unity)
      × ((share ≡ 0) ↔ (dead_count idx ≡ 0))
      × (0 < dead_count idx → live_count idx ≡ 0 → share ≡ unity)
unfolding dead_ratio dead_count live_count
dead_ratio_bounds idx v small =
    let counts = live_count-eq_length idx v in
    let entries = length-offsets idx v in
    elim (Bool-cases (length idx.offsets == 0)) [
      | inl none_left ↦
          let empty = (==_iff (length idx.offsets) 0).0 none_left in
          rw none_left (
            0,
            refl,
            omega arith,
            ((λ e. omega (arith, counts)), λ e. refl),
            λ some_dead. absurd (omega (arith, counts)),
          )
      | inr some_left ↦
          let pos : 0 < length idx.offsets = ground arith in
          let le : length idx.dead ≤ length idx.offsets = omega (arith, counts) in
          let below : length idx.offsets < 2 ^ 53 = omega arith in
          (
            share _ _ le pos below,
            rw some_left (quotient _ _ le pos below),
            share-le _ _ le pos below,
            ((λ e. ground (arith, share-pos _ _ le pos below)), share_nothing _ _ le pos below),
            λ some_dead none_live. share_whole _ _ le pos below (omega (arith, counts)),
          )
    ]
