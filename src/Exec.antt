-- ===== src/Exec.antt =====
-- Methods on `&mut self` that return a `Result`: what was changed before an error stays changed, so
-- the new state is beside the error too.
pub mod Values
pub mod Meets
use cndb.Result.{ok, err}
use cndb.Error.{CndbError, Result}

abbrev pub Exec {ℓ} : Type ℓ → Type ℓ → Type ℓ
Exec Self T = Self → Result T × Self

module _ {ℓ} {Self T : Type ℓ} where
  -- A call that does not touch `self`.
  abbrev pub lift : Result T → Exec Self T
  lift result self = (result, self)

  abbrev pub raise : CndbError → Exec Self T
  raise error = lift (err error)

  abbrev pub pure : T → Exec Self T
  pure value = lift (ok value)

  abbrev pub gets : (Self → T) → Exec Self T
  gets view self = lift (ok (view self)) self

  -- What comes behind `?`.
  abbrev behind {κ} :
      {U : Type κ} → (T → Self → Result U × Self) → Result T → Self → Result U × Self
  behind next (ok value) self = next value self
  behind next (err error) self = (err error, self)

abbrev pub modify : {Self : Type 0} → (Self → Self) → Exec Self (Unit {0})
modify change self = (ok tt, change self)

infixl 5 ◌>>=◌ ◌>>◌
abbrev pub ◌>>=◌ {ℓ} : {Self T U : Type ℓ} → Exec Self T → (T → Exec Self U) → Exec Self U
◌>>=◌ method next self = let (result, self') = method self in behind next result self'

abbrev pub ◌>>◌ {ℓ} : {Self T U : Type ℓ} → Exec Self T → Exec Self U → Exec Self U
method >> rest = method >>= λ _. rest
