-- ===== src/Store/Order.antt =====
-- What a store may become: documents stay as they are, deletions stay, ids are given out upwards.
use cndb.Prelude.{
  ◌≤◌, ◌≡◌, none, some, true, ◌⊎◌, inl, inr, Bool-cases, ==_iff, subst, sym, arith, ◌==◌,
}
use cndb.Result.{ok, err}
use cndb.Error.{DocId, deleted}
use cndb.Record.{Record}
use cndb.Store
use cndb.Store.{Store}

pub record Extends (s t : Store) : Type 0 where
  pub next : s.next ≤ t.next
  pub docs : (k : DocId) (r : Record) → s.docs k ≡ some r → t.docs k ≡ some r
  pub dead : (k : DocId) → s.dead k ≡ true → t.dead k ≡ true

pub Extends-refl : (s : Store) → Extends s s
Extends-refl s = record { next = omega arith; docs = λ k r h. h; dead = λ k h. h }

pub Extends-trans : {s t u : Store} → Extends s t → Extends t u → Extends s u
Extends-trans p q = record {
  next = omega (arith, p.next, q.next);
  docs = λ k r h. q.docs k r (p.docs k r h);
  dead = λ k h. q.dead k (p.dead k h);
}

-- A new document changes none, where its id has none.
pub append-Extends : (s : Store) (r : Record) → s.docs s.next ≡ none → Extends s (Store.append r s)
append-Extends s r fresh = record {
  next = omega arith;
  docs = λ k d h. elim (Bool-cases (s.next == k)) [
    | inl here ↦ absurd (ground (arith, fresh, at k d h here))
    | inr other ↦ rw other h
  ];
  dead = λ k h. h;
}
  where
    at :
        (k : DocId) (d : Record) → s.docs k ≡ some d → (s.next == k) ≡ true → s.docs s.next ≡ some d
    at k d h e = subst (λ j. s.docs j ≡ some d) (sym ((==_iff s.next k).0 e)) h

pub delete-Extends : (s : Store) (id : DocId) → Extends s (Store.delete id s)
delete-Extends s id = record { next = omega arith; docs = λ k r h. h; dead = λ k h. ground arith }

-- A document that can be read is read in every later store, unless it has been deleted since.
pub read-Extends :
    {s t : Store} (id : DocId) (r : Record)
    → Extends s t
    → Store.read s id ≡ ok r
    → (Store.read t id ≡ ok r) ⊎ (Store.read t id ≡ err (deleted id))
read-Extends {s} {t} id r p h = elim (Bool-cases (t.dead id)) [
  | inl gone ↦ inr (ground arith)
  | inr alive ↦ inl (ground (arith, p.docs id r))
]

-- A deleted document stays deleted.
pub deleted-Extends :
    {s t : Store} (id : DocId)
    → Extends s t
    → Store.read s id ≡ err (deleted id)
    → Store.read t id ≡ err (deleted id)
deleted-Extends id p h = ground (arith, p.dead id)
