-- ===== src/Exec/Values.antt =====
-- What a result promises of its value, through the `?` operator.
use cndb.Prelude.{◌≡◌, refl, Bool, true, false, if◌then◌else◌}
use cndb.Result.{StdResult, ok, err, map_err}
use cndb.Result

-- The value, where there is one.
unfoldable pub OkHas : {E T : Type 0} → (T → Type 0) → StdResult E T → Type 0
OkHas Q (ok value) = Q value
OkHas Q (err error) = Unit

pub OkHas-ok :
    (E : Type 0) {T : Type 0} (Q : T → Type 0) (value : T) → Q value → OkHas {E = E} Q (ok value)
unfolding OkHas
OkHas-ok E Q value h = h

module _ {E T : Type 0} (Q : T → Type 0) where
  pub OkHas-err : (error : E) → OkHas Q (err error)
  unfolding OkHas
  OkHas-err error = tt

  pub OkHas-intro : (r : StdResult E T) → ((value : T) → r ≡ ok value → Q value) → OkHas Q r
  unfolding OkHas
  OkHas-intro (ok value) h = h value refl
  OkHas-intro (err error) h = tt

  pub OkHas-elim : (r : StdResult E T) (value : T) → OkHas Q r → r ≡ ok value → Q value
  unfolding OkHas
  OkHas-elim r value h p = rw p at h

  pub OkHas-map_err :
      {F : Type 0} (f : E → F) (r : StdResult E T) → OkHas Q r → OkHas Q (map_err f r)
  unfolding OkHas
  OkHas-map_err f (ok value) h = h
  OkHas-map_err f (err error) h = tt

  pub OkHas-bind :
      {U : Type 0} (R : U → Type 0) (r : StdResult E T) (next : T → StdResult E U)
      → OkHas Q r
      → ((value : T) → Q value → OkHas R (next value))
      → OkHas R (Result.◌>>=◌ r next)
  unfolding OkHas
  OkHas-bind R (ok value) next h k = k value h
  OkHas-bind R (err error) next h k = tt

  -- Each branch where its test says so.
  pub OkHas-branch :
      (b : Bool) (r s : StdResult E T)
      → (b ≡ true → OkHas Q r)
      → (b ≡ false → OkHas Q s)
      → OkHas Q (if b then r else s)
  OkHas-branch true r s h k = h refl
  OkHas-branch false r s h k = k refl
