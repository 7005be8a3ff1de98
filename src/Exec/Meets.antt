-- ===== src/Exec/Meets.antt =====
-- What one call of a method leaves, where its result and its new state are about each other.
use cndb.Prelude.{Bool, true, false, if◌then◌else◌}
use cndb.Result.{ok, err}
use cndb.Error.{CndbError, Result}
use cndb.Exec.{Exec, behind, ◌>>=◌}
use cndb.Exec.Values.{OkHas}

-- The new state meets `P`, and a value that is returned meets `Q` together with the new state.
pub record Meets {S T : Type 0} (P : S → Type 0) (Q : T → S → Type 0) (out : Result T × S)
    : Type 0 where
  pub state : P out.1
  pub value : OkHas (λ v. Q v out.1) out.0

module _ {S T : Type 0} (P : S → Type 0) (Q : T → S → Type 0) where
  pub Meets-ok : (v : T) (s : S) → P s → Q v s → Meets P Q (ok v, s)
  unfolding OkHas
  Meets-ok v s p q = record { state = p; value = q }

  pub Meets-err : (e : CndbError) (s : S) → P s → Meets P Q (err e, s)
  unfolding OkHas
  Meets-err e s p = record { state = p; value = tt }

  pub Meets-if :
      (b : Bool) (x y : Result T × S) → Meets P Q x → Meets P Q y → Meets P Q (if b then x else y)
  Meets-if true x y h k = h
  Meets-if false x y h k = k

  pub Meets-branch :
      (b : Bool) (m n : Exec S T) (s : S)
      → Meets P Q (m s)
      → Meets P Q (n s)
      → Meets P Q ((if b then m else n) s)
  Meets-branch true m n s h k = h
  Meets-branch false m n s h k = k

  Meets-behind :
      {U : Type 0} (R : U → S → Type 0) (next : T → Exec S U) (r : Result T) (s : S)
      → Meets P Q (r, s)
      → ((v : T) (t : S) → P t → Q v t → Meets P R (next v t))
      → Meets P R (behind next r s)
  unfolding OkHas
  Meets-behind R next (ok v) s h k = k v s h.state h.value
  Meets-behind R next (err e) s h k = record { state = h.state; value = tt }

  pub Meets-bind :
      {U : Type 0} (R : U → S → Type 0) (method : Exec S T) (next : T → Exec S U) (s : S)
      → Meets P Q (method s)
      → ((v : T) (t : S) → P t → Q v t → Meets P R (next v t))
      → Meets P R ((method >>= next) s)
  Meets-bind R method next s h k = Meets-behind R next (method s).0 (method s).1 h k
