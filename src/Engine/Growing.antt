-- ===== src/Engine/Growing.antt =====
-- What a run of operations of src/storage/engine.rs makes of the stores that it meets.
use cndb.Prelude.{Option, is_some, refl, false, ◌≡◌, sym, ◌∙◌, subst, none, some, List, [], All}
use cndb.Error.{deleted}
use cndb.Header.{Header}
use cndb.Index.{allocate_id}
use cndb.Collections.{contains_key}
use cndb.Engine.Layout.{contains_key-Holds}
use cndb.Index.Validity.{allocate_id_fresh}
use cndb.Crates.{Crates, IsLawful}
use cndb.Store.{Store}
use cndb.Store.Order.{Extends, Extends-refl, Extends-trans, append-Extends, delete-Extends}
use cndb.Engine.{StorageEngine}
use cndb.Engine.Invariant.{Inv}
use cndb.Engine.Runs.{
  Run, here, appended, append_failed, deleted, delete_failed, committed, commit_failed,
  header_failed, Run-Inv,
}

pub is_some-none : {A : Type 0} (o : Option A) → is_some o ≡ false → o ≡ none
is_some-none none h = refl
is_some-none (some a) h = cc

fresh-docs :
    (c : Crates) (e : StorageEngine) {old now : Store} {attempts : List (Header × Store)}
    → Inv c e old now attempts
    → now.docs now.next ≡ none
fresh-docs c e {now} v =
    let known = (allocate_id_fresh e.index v.valid).0 in
    is_some-none (now.docs now.next) (
      sym (contains_key-Holds v.holds now.next)
      ∙ subst (λ n. contains_key e.index.offsets n ≡ false) v.holds.next
          (unfold allocate_id in known))

-- What a run leaves of the stores that it meets.
pub record Grown (s old now : Store) (attempts : List (Header × Store)) : Type 0 where
  pub committed : Extends s old
  pub present : Extends old now
  pub tried : All (λ a. Extends old a.1) attempts

module _ (c : Crates) (lawful : IsLawful c) where
  pub Run-Grown :
      {start : StorageEngine} {s : Store} {e : StorageEngine} {old now : Store}
      {attempts : List (Header × Store)}
      → Inv c start s s []
      → Run c start s e old now attempts
      → Grown s old now attempts
  Run-Grown v here = record { committed = Extends-refl _; present = Extends-refl _; tried = tt }
  Run-Grown v (appended {e} {now} kind payload id e' before can word p) =
      let g = Run-Grown v before in
      record {
        committed = g.committed;
        present =
            Extends-trans g.present
              (append-Extends now _ (fresh-docs c e (Run-Inv c lawful _ _ v before)));
        tried = g.tried;
      }
  Run-Grown v (append_failed kind payload x e' before can word p) = Run-Grown v before
  Run-Grown v (deleted {now} id e' before can p) =
      let g = Run-Grown v before in
      record {
        committed = g.committed;
        present = Extends-trans g.present (delete-Extends now id);
        tried = g.tried;
      }
  Run-Grown v (delete_failed id x e' before can p) = Run-Grown v before
  Run-Grown v (committed e' before can p) =
      let g = Run-Grown v before in
      record {
        committed = Extends-trans g.committed g.present;
        present = Extends-refl _;
        tried = tt;
      }
  Run-Grown v (commit_failed x e' before can changed p) = Run-Grown v before
  Run-Grown v (header_failed next x ready e' before can changed p q) =
      let g = Run-Grown v before in
      record { committed = g.committed; present = g.present; tried = (g.present, g.tried) }
