-- ===== src/Metadata/Owned/Statements.antt =====
-- The statements of common/metadata_store.cpp that change tables, and the rules that the rows of the table
-- of changes refer to.
use path_overlay.Base.{
  ◌≡◌, refl, sym, subst, ◌⊎◌, inl, inr, Bool, true, false, ◌||◌, Option, none, some, List,
  if◌then◌else◌, arith,
}
use path_overlay.Base.Lists.{select}
use path_overlay.Wide.{Text}
use path_overlay.Rules.{OverlayRule}
use path_overlay.Action.Keeps.{IsPreorder, Keeps}
use path_overlay.Metadata.Sql
use path_overlay.Metadata.Sql.{
  ChangeRow, Engine, Tables, has_id, update_id, upsert_rule_row, has_change, upsert_change_row,
  delete_change_row, delete_rule_rows, cascade_delete_rule, is_change_key,
}
use path_overlay.Metadata.Store.{run_statement}
use path_overlay.Metadata.Changes.Statements.{run_statement-Outcome}
use path_overlay.Metadata.Owned.{
  rule_key, IsOwned, All-map, All-select, has_id-delete, has_change-HasOwner,
  upsert_change_row-HasOwner,
}

-- If the rows had owners, they have owners still.
abbrev pub KeepsOwners : Tables → Tables → Type 0
KeepsOwners t t' = IsOwned t → IsOwned t'

pub KeepsOwners-IsPreorder : IsPreorder KeepsOwners
KeepsOwners-IsPreorder = record { rel_refl = λ t h. h; rel_trans = λ t u v h k o. k (h o) }

-- The rows that an upsert or an update of the rules leaves.
pub KeepsOwners-rules :
    (t : Tables) (rules : List OverlayRule)
    → ((key : Text) → has_id rule_key key t.rules ≡ true → has_id rule_key key rules ≡ true)
    → KeepsOwners t (record t { rules = rules })
KeepsOwners-rules t rules h o = All-map t.changes (λ row. h row.rule_id) o

pub KeepsOwners-select :
    (p : ChangeRow → Bool) (t : Tables) → KeepsOwners t (record t { changes = select p t.changes })
KeepsOwners-select p t o = All-select p t.changes (λ row e h. h) o

-- What a statement needed that violated no key.
stored_if :
    (a b : Bool) (u v : Tables)
    → (if a || b then some v else none) ≡ some u
    → ((a ≡ true) ⊎ (b ≡ true)) × (v ≡ u)
stored_if true b u v e = (inl refl, cc)
stored_if false true u v e = (inr refl, cc)
stored_if false false u v e = cc

-- The statements of `AddOrUpdateChange` and of the insertions into the other tables.
pub KeepsOwners-upsert :
    (row : ChangeRow) (t u : Tables)
    → (if has_change row.rule_id row.real_path t.changes || has_id rule_key row.rule_id t.rules
        then some (record t { changes = upsert_change_row row t.changes })
        else none)
      ≡ some u
    → KeepsOwners t u
KeepsOwners-upsert row t u e o =
    let (key, same) = stored_if _ _ u _ e in
    subst IsOwned same (upsert_change_row-HasOwner t.rules row t.changes (owner key) o)
  where
    owner :
        (has_change row.rule_id row.real_path t.changes ≡ true)
          ⊎ (has_id rule_key row.rule_id t.rules ≡ true)
        → has_id rule_key row.rule_id t.rules ≡ true
    owner (inl present) = has_change-HasOwner t.rules row.rule_id row.real_path t.changes o present
    owner (inr found) = found

pub cascade_delete_rule-KeepsOwners :
    (id : Text) (t : Tables) → KeepsOwners t (cascade_delete_rule id t)
unfolding cascade_delete_rule delete_rule_rows
cascade_delete_rule-KeepsOwners id t o =
    All-select _ t.changes (λ row e h. has_id-delete row.rule_id id t.rules (ground arith) h) o

module _ (engine : Engine) where
  -- A statement keeps them if its change does.
  pub run_statement-KeepsOwners :
      (sql : Sql.Sql) (prepare_error step_error : Text) (change : Tables → Option Tables)
      → ((t u : Tables) → change t ≡ some u → KeepsOwners t u)
      → Keeps KeepsOwners (run_statement engine sql prepare_error step_error change)
  run_statement-KeepsOwners sql prepare_error step_error change k = record {
    at = λ t.
        elim (run_statement-Outcome engine sql prepare_error step_error change t (KeepsOwners t)
          (k t)) [
            | inl (failed, same) ↦ λ o. subst IsOwned (sym same) o
            | inr (done, keeps) ↦ keeps
          ];
  }

  -- A statement that violates no key.
  pub run_statement-KeepsTotal :
      (sql : Sql.Sql) (prepare_error step_error : Text) (change : Tables → Tables)
      → ((t : Tables) → KeepsOwners t (change t))
      → Keeps KeepsOwners (run_statement engine sql prepare_error step_error (λ t. some (change t)))
  run_statement-KeepsTotal sql prepare_error step_error change k =
      run_statement-KeepsOwners sql prepare_error step_error (λ t. some (change t))
        λ t u e. let same : change t ≡ u = cc in λ o. subst IsOwned same (k t o)

  -- A statement that leaves the rules and the changes alone keeps them.
  pub run_statement-KeepsBoth :
      (sql : Sql.Sql) (prepare_error step_error : Text) (change : Tables → Option Tables)
      → ((t u : Tables) → change t ≡ some u → (u.rules ≡ t.rules) × (u.changes ≡ t.changes))
      → Keeps KeepsOwners (run_statement engine sql prepare_error step_error change)
  run_statement-KeepsBoth sql prepare_error step_error change k =
      run_statement-KeepsOwners sql prepare_error step_error change
        λ t u e o. let (rules, changes) = k t u e in rw (rules, changes) o
