-- ===== src/Result.antt =====
-- Rust's `Result<T, E>` with the `?` operator as the bind of `do` blocks.
use cndb.Prelude.{◌≡◌, refl, ◌⊎◌, inl, inr}

pub data StdResult {ℓ κ} (E : Type ℓ) (T : Type κ) : Type (ℓ ⊔ κ) where
  ok : (value : T) → StdResult E T
  err : (error : E) → StdResult E T

-- `r.map_err(f)`
abbrev pub map_err {ℓ κ ν} :
    {E : Type ℓ} {F : Type κ} {T : Type ν} → (E → F) → StdResult E T → StdResult F T
map_err f (ok value) = ok value
map_err f (err error) = err (f error)

infixl 5 ◌>>=◌ ◌>>◌
abbrev pub ◌>>=◌ {ℓ κ ν} :
    {E : Type ℓ} {T : Type κ} {U : Type ν} → StdResult E T → (T → StdResult E U) → StdResult E U
ok value >>= next = next value
err error >>= next = err error

abbrev pub ◌>>◌ {ℓ κ ν} :
    {E : Type ℓ} {T : Type κ} {U : Type ν} → StdResult E T → StdResult E U → StdResult E U
first >> second = first >>= λ _. second

pub StdResult-cases {ℓ κ} :
    {E : Type ℓ} {T : Type κ} (r : StdResult E T)
    → ((value : T) × (r ≡ ok value)) ⊎ ((error : E) × (r ≡ err error))
StdResult-cases (ok value) = inl (value, refl)
StdResult-cases (err error) = inr (error, refl)
