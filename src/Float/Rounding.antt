-- ===== src/Float/Rounding.antt =====
-- How far the rounding of the quotient of two counts can go.
use cndb.Prelude.{
  ℕ, zero, suc, ◌+◌, ◌-◌, ◌*◌, ◌/◌, ◌%◌, ◌^◌, ◌≤◌, ◌<◌, ◌≡◌, ap, ap₂, sym, ◌∙◌, subst, ltb,
  Bool-cases, inl, inr, ltb_false→le, arith, ltb→lt, lt→ltb, true, refl,
}
use native.Mathlib.Nat.{
  mul-le-mul_right, mul-le-mul_left, pow-le-pow_right, mul_left_comm, le_of_mul-le-mul_left,
  mul-div_cancel_left, div-add-mod, mul-pos, one-le-pow, div-lt_iff_lt-mul, mul_assoc, mul_comm,
  lt_of_le_of_lt, pow-zero, zero-add, one-mul, suc-add, pow-succ',
}
use cndb.Float.{pick, nearest, exponent, rounded, of_usize, unity, finite, bounded, div}

pow-add : (b m n : ℕ) → b ^ (m + n) ≡ b ^ m * b ^ n
pow-add b zero n =
    ap (λ k. b ^ k) (zero-add n) ∙ sym (ap (λ k. k * b ^ n) (pow-zero b) ∙ one-mul (b ^ n))
pow-add b (suc m) n =
    ap (λ k. b ^ k) (suc-add m n)
    ∙ pow-succ' b (m + n)
    ∙ ap (λ k. b * k) (pow-add b m n)
    ∙ sym (mul_assoc b (b ^ m) (b ^ n))
    ∙ ap (λ k. k * b ^ n) (sym (pow-succ' b m))

pick-le : (k r w x : ℕ) → k ≤ x → (k ≡ x → r ≡ 0) → 0 < w → pick k r w ≤ x
unfolding pick
pick-le k r w x le exact pos = ground arith

pick-exact : (k w : ℕ) → 0 < w → pick k 0 w ≡ k
unfolding pick
pick-exact k w pos = ground arith

pick-pos : (k r w : ℕ) → (k ≡ 0 → w < 2 * r) → 0 < pick k r w
unfolding pick
pick-pos k r w far = ground arith

module _ (n w : ℕ) (pos : 0 < w) where
  -- A quotient that is at most `x` is below it or is exactly it.
  div-le : (x : ℕ) → n ≤ w * x → (n / w ≤ x) × (n / w ≡ x → n % w ≡ 0)
  div-le x h = (
    le_of_mul-le-mul_left {k = w} (omega (arith, div-add-mod n w)) pos,
    λ e. omega (arith, subst (λ k. w * k + n % w ≡ n) e (div-add-mod n w)),
  )

-- One of the two multiples around the quotient is chosen.
module _ (n d u : ℕ) (pos : 0 < d * u) where
  pub nearest-le : (x : ℕ) → n ≤ d * u * x → nearest n d u ≤ x * u
  unfolding nearest
  nearest-le x h =
      let (le, exact) = div-le n (d * u) pos x h in
      mul-le-mul_right u (pick-le (n / (d * u)) (n % (d * u)) (d * u) x le exact pos)

  pub nearest-exact : (x : ℕ) → n ≡ d * u * x → nearest n d u ≡ x * u
  unfolding nearest
  nearest-exact x h =
      let q : n / (d * u) ≡ x = ap (λ k. k / (d * u)) h ∙ mul-div_cancel_left x pos in
      let r = (div-le n (d * u) pos x (omega (arith, h))).1 q in
      ap (λ k. k * u) (ap₂ (λ k r. pick k r (d * u)) q r ∙ pick-exact x (d * u) pos)

  pub nearest-pos : 0 < u → d * u < 2 * n → 0 < nearest n d u
  unfolding nearest
  nearest-pos u_pos far =
      mul-pos
        (pick-pos (n / (d * u)) (n % (d * u)) (d * u)
          (λ e. omega (arith, subst (λ k. d * u * k + n % (d * u) ≡ n) e (div-add-mod n (d * u)))))
        u_pos

-- The exponent reaches the number, and is not above one that does.
exponent-le : (fuel n j m : ℕ) → j ≤ m → n < 2 ^ (53 + m) → exponent fuel n j ≤ m
unfolding exponent
exponent-le zero n j m le lt = le
exponent-le (suc fuel) n j m le lt = elim (Bool-cases (ltb n (2 ^ (53 + j)))) [
  | inl here ↦ rw (exponent, here) le
  | inr later ↦
      rw (exponent, later)
        (exponent-le fuel n (suc j) m
          (ground (
            arith,
            ltb_false→le n (2 ^ (53 + j)) later,
            λ (e : j ≡ m). ap (λ (k : ℕ). 2 ^ (53 + k)) e,
          ))
          lt)
]

-- Two powers of 2 that make 1.0.
unity_split : (e : ℕ) → e ≤ 1074 → 2 ^ e * 2 ^ (1074 - e) ≡ unity
unity_split e le =
    let all : e + (1074 - e) ≡ 1074 = omega arith in
    sym (pow-add 2 e (1074 - e)) ∙ ap (λ (k : ℕ). 2 ^ k) all

-- A quotient that is at most 1 is rounded to at most 1.0, and one that is 1 to 1.0.
module _ (n d : ℕ) (pos : 0 < d) (le : n ≤ d * unity) where
  abbrev found : ℕ
  found = exponent 2046 (n / d) 0

  found-le : found ≤ 1022
  found-le = exponent-le 2046 (n / d) 0 1022 (omega arith) ((div-lt_iff_lt-mul pos).1 (omega arith))

  abbrev step : ℕ
  step = 2 ^ found

  step-pos : 0 < d * step
  step-pos = mul-pos pos (one-le-pow found 2 (omega arith))

  steps : d * unity ≡ d * step * 2 ^ (1074 - found)
  steps =
      ap (λ k. d * k) (sym (unity_split found (omega (arith, found-le))))
      ∙ sym (mul_assoc d step (2 ^ (1074 - found)))

  pub rounded-le : rounded n d ≤ unity
  unfolding rounded
  rounded-le =
      subst (λ k. rounded n d ≤ k)
        (mul_comm (2 ^ (1074 - found)) step ∙ unity_split found (omega (arith, found-le)))
        (nearest-le n d step step-pos (2 ^ (1074 - found)) (subst (λ k. n ≤ k) steps le))

  pub rounded_whole : n ≡ d * unity → rounded n d ≡ unity
  unfolding rounded
  rounded_whole h =
      nearest-exact n d step step-pos (2 ^ (1074 - found)) (h ∙ steps)
      ∙ (mul_comm (2 ^ (1074 - found)) step ∙ unity_split found (omega (arith, found-le)))

  pub rounded_nothing : n ≡ 0 → rounded n d ≡ 0
  unfolding rounded
  rounded_nothing h = nearest-exact n d step step-pos 0 (omega arith) ∙ omega arith

  pub rounded-pos : d * 2 ^ 1022 < 2 * n → 0 < rounded n d
  unfolding rounded
  rounded-pos far =
      let near : d * step ≤ d * 2 ^ 1022 =
        mul-le-mul_left d (pow-le-pow_right (omega arith) found-le) in
      nearest-pos n d step step-pos (one-le-pow found 2 (omega arith)) (omega arith)

-- Counts below 2^53 are converted without loss.
pub of_usize_exact : (n : ℕ) → n < 2 ^ 53 → of_usize n ≡ finite (n * unity)
unfolding of_usize rounded
of_usize_exact n small =
    let e = exponent 2046 (n * unity / 1) 0 in
    let le : e ≤ 1074 =
      exponent-le 2046 (n * unity / 1) 0 1074 (omega arith)
        ((div-lt_iff_lt-mul (omega arith)).1 (omega arith)) in
    let whole : n * unity ≡ 1 * 2 ^ e * (n * 2 ^ (1074 - e)) =
      ap (λ k. n * k) (sym (unity_split e le))
      ∙ mul_left_comm n (2 ^ e) (2 ^ (1074 - e))
      ∙ sym (ap (λ k. k * (n * 2 ^ (1074 - e))) (one-mul (2 ^ e))) in
    ap finite (
      nearest-exact (n * unity) 1 (2 ^ e) (mul-pos (omega arith) (one-le-pow e 2 (omega arith)))
        (n * 2 ^ (1074 - e)) whole
      ∙ (mul_assoc n (2 ^ (1074 - e)) (2 ^ e)
          ∙ ap (λ k. n * k) (mul_comm (2 ^ (1074 - e)) (2 ^ e) ∙ unity_split e le)))

-- A quotient of finite values that is rounded to at most 1.0.
pub div_finite :
    (a b : ℕ) → 0 < b → a ≤ b → div (finite a) (finite b) ≡ finite (rounded (a * unity) b)
unfolding div bounded
div_finite a zero pos le = absurd (omega arith)
div_finite a (suc b) pos le =
    let small : rounded (a * unity) (suc b) ≤ unity =
      rounded-le (a * unity) (suc b) pos (mul-le-mul_right unity le) in
    let top : ltb unity (2 ^ 2098) ≡ true = refl in
    rw
      (lt→ltb (rounded (a * unity) (suc b)) (2 ^ 2098)
        (lt_of_le_of_lt small (ltb→lt unity (2 ^ 2098) top)))
      refl
