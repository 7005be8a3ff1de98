-- ===== src/Api/Contents.antt =====
-- The contract of `Cndb` in src/api.rs: values by id, the ids that were deleted, and the next id; and
-- how a store of records shows it.
use cndb.Prelude.{
  ◌+◌, ◌≡◌, Option, none, some, Bool, Bool-cases, true, ◌==◌, if◌then◌else◌, inl, inr, refl, arith,
}
use cndb.Result
use cndb.Result.{ok, err}
use cndb.Error.{DocId, Result, not_found, deleted}
use cndb.Record.{Record}
use cndb.Store
use cndb.Store.{Store}
use cndb.Document.{DocCrates, from_bson_bytes}

pub record Contents (V : Type 0) : Type 0 where
  pub docs : DocId → Option V
  pub dead : DocId → Bool
  pub next : DocId

module _ {V : Type 0} where
  -- A new value takes the next id.
  abbrev pub put : V → Contents V → Contents V
  put v t = record t { docs = λ k. if t.next == k then some v else t.docs k; next = t.next + 1 }

  abbrev pub remove : DocId → Contents V → Contents V
  remove id t = record t { dead = λ k. if id == k then true else t.dead k }

  abbrev pub found : DocId → Option V → Result V
  found id none = err (not_found id)
  found id (some v) = ok v

  abbrev pub look_up : Contents V → DocId → Result V
  look_up t id = if t.dead id then err (deleted id) else found id (t.docs id)

module _ (d : DocCrates) where
  -- What `get` answers from a store.
  abbrev pub got : Result Record → Result d.Value
  got r = Result.◌>>=◌ (Result.◌>>=◌ r (λ r. ok r.payload)) (from_bson_bytes d)

  -- A record is the BSON of the value.
  abbrev pub ShowsDoc : Option Record → Option d.Value → Type 0
  ShowsDoc none none = Unit
  ShowsDoc none (some v) = ⊥
  ShowsDoc (some r) none = ⊥
  ShowsDoc (some r) (some v) = from_bson_bytes d r.payload ≡ ok v

  -- The store shows the contents.
  pub record Shows (s : Store) (t : Contents d.Value) : Type 0 where
    pub next : s.next ≡ t.next
    pub dead : (k : DocId) → s.dead k ≡ t.dead k
    pub docs : (k : DocId) → ShowsDoc (s.docs k) (t.docs k)

  found-Shows :
      (id : DocId) (r : Option Record) (v : Option d.Value)
      → ShowsDoc r v
      → got (Store.found id r) ≡ found id v
  found-Shows id none none h = refl
  found-Shows id none (some v) h = absurd h
  found-Shows id (some r) none h = absurd h
  found-Shows id (some r) (some v) h = h

  pub look_up-Shows :
      (s : Store) (t : Contents d.Value) (id : DocId)
      → Shows s t
      → got (Store.read s id) ≡ look_up t id
  look_up-Shows s t id h = elim (Bool-cases (t.dead id)) [
    | inl gone ↦ rw (h.dead id, gone) refl
    | inr alive ↦ rw (h.dead id, alive) (found-Shows id (s.docs id) (t.docs id) (h.docs id))
  ]

  pub put-Shows :
      (s : Store) (t : Contents d.Value) (r : Record) (v : d.Value)
      → Shows s t
      → from_bson_bytes d r.payload ≡ ok v
      → Shows (Store.append r s) (put v t)
  put-Shows s t r v h p = record {
    next = omega (arith, h.next);
    dead = h.dead;
    docs = λ k. elim (Bool-cases (t.next == k)) [
      | inl here ↦ rw (h.next, here) p
      | inr other ↦ rw (h.next, other) (h.docs k)
    ];
  }

  pub remove-Shows :
      (s : Store) (t : Contents d.Value) (id : DocId)
      → Shows s t
      → Shows (Store.delete id s) (remove id t)
  remove-Shows s t id h = record {
    next = h.next;
    dead = λ k. ground (arith, h.dead k);
    docs = h.docs;
  }
