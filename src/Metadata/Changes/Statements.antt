-- ===== src/Metadata/Changes/Statements.antt =====
-- `AddOrUpdateChange`, `DeleteChange` and `DeleteChangesForRule` of common/metadata_store.cpp on the map
-- that the table of changes is.
use path_overlay.Base.{
  ◌≡◌, refl, ◌⊎◌, inl, inr, Bool, true, false, ◌&&◌, ◌||◌, Option, none, some, Option-cases, List,
  if◌then◌else◌, arith,
}
use path_overlay.Wide.{Text, wide, same_text}
use path_overlay.Os.{Os}
use path_overlay.Paths.{normalize_path}
use path_overlay.Rules.{OverlayRule}
use path_overlay.Action.{OperationResult, is_success}
use path_overlay.Metadata.Records.{ChangeRecord}
use path_overlay.Metadata.Sql
use path_overlay.Metadata.Sql.{
  ChangeRow, Engine, Tables, is_change_key, update_change, upsert_change_row, delete_change_row,
  delete_rule_rows,
}
use path_overlay.Metadata.Store.{
  stored_text, run_statement, change_row, add_or_update_change, delete_change,
  delete_changes_for_rule,
}
use path_overlay.Metadata.Changes.{
  find_change, merged, upsert_change_row-find, delete_change_row-find, delete_rule_rows-find,
}

-- The table as a map after an upsert of `row`, and after the two kinds of deletion.
abbrev pub upserted : ChangeRow → List ChangeRow → Text → Text → Option ChangeRow
upserted row rows id path =
    if is_change_key id path row
    then some (merged row (find_change id path rows))
    else find_change id path rows

abbrev pub without_key : Text → Text → List ChangeRow → Text → Text → Option ChangeRow
without_key rule_id real_path rows id path =
    if same_text rule_id id && same_text real_path path then none else find_change id path rows

abbrev pub without_rule : Text → List ChangeRow → Text → Text → Option ChangeRow
without_rule rule_id rows id path = if same_text rule_id id then none else find_change id path rows

-- The rules, and the map that the table of changes is.
abbrev pub HasRows : List OverlayRule → (Text → Text → Option ChangeRow) → Tables → Type 0
HasRows rules rows t' =
    (t'.rules ≡ rules) × ((id path : Text) → find_change id path t'.changes ≡ rows id path)

-- A call that fails and leaves the tables as they were, or succeeds and leaves tables with the property.
abbrev pub Outcome : {A : Type 0} → Tables → (Tables → Type 0) → OperationResult A × Tables → Type 0
Outcome t Q (r, t') = ((is_success r ≡ false) × (t' ≡ t)) ⊎ ((is_success r ≡ true) × Q t')

-- What a statement on the changes leaves, if it violates no key.
changed_if :
    (test : Bool) (rows : List ChangeRow) (t t' : Tables)
    → (if test then some (record t { changes = rows }) else none) ≡ some t'
    → (t'.rules ≡ t.rules) × (t'.changes ≡ rows)
changed_if true rows t t' e = ground arith
changed_if false rows t t' e = cc

module _ (engine : Engine) where
  pub run_statement-Outcome :
      (sql : Sql.Sql) (prepare_error step_error : Text) (change : Tables → Option Tables)
      (t : Tables)
      → (Q : Tables → Type 0) → ((t' : Tables) → change t ≡ some t' → Q t')
      → Outcome t Q (run_statement engine sql prepare_error step_error change t)
  unfolding run_statement
  run_statement-Outcome sql prepare_error step_error change t Q q =
      elim (Option-cases (engine.prepare_fails sql t)) [
        | inr (message, e) ↦ inl (ground arith)
        | inl prepared ↦ elim (Option-cases (engine.step_fails sql t)) [
          | inr (message, e) ↦ inl (ground arith)
          | inl stepped ↦ elim (Option-cases (change t)) [
            | inl violated ↦ inl (ground arith)
            | inr (t', e) ↦ inr (rw (run_statement, prepared, stepped, e) (refl, q t' e))
          ]
        ]
      ]

  -- `AddOrUpdateChange` fails and changes nothing, or it leaves the rules and every row of another key
  -- alone and gives its own key the new row; or, where the key has a row, that row with the paths of the
  -- shadow and the target, the state, the size and the time of the new one, and what it said before of
  -- the original file.
  pub add_or_update_change_refines :
      (os : Os) (rule_id : Text) (r : ChangeRecord) (t : Tables)
      → Outcome t
          (HasRows t.rules (upserted (change_row engine os rule_id r) t.changes))
          (add_or_update_change engine os rule_id r t)
  unfolding add_or_update_change
  add_or_update_change_refines os rule_id r t =
      let row = change_row engine os rule_id r in
      run_statement-Outcome Sql.upsert_into_changes (wide "failed to prepare change upsert")
        (wide "failed to upsert change record")
        (λ u.
          if Sql.has_change row.rule_id row.real_path u.changes
            || Sql.has_id (λ (x : OverlayRule). x.id) rule_id u.rules
          then some (record u { changes = upsert_change_row row u.changes })
          else none)
        t (HasRows t.rules (upserted row t.changes))
        λ t' e.
          let (rules, changes) = changed_if _ (upsert_change_row row t.changes) t t' e in
          (rules, λ id path. rw (changes) (upsert_change_row-find id path row t.changes))

  -- `DeleteChange` fails and changes nothing, or it leaves the rules and every row of another key
  -- alone and its own key without a row.
  pub delete_change_refines :
      (os : Os) (rule_id real_path : Text) (t : Tables)
      → Outcome t
          (HasRows t.rules
            (without_key rule_id (stored_text engine (normalize_path os real_path)) t.changes))
          (delete_change engine os rule_id real_path t)
  unfolding delete_change
  delete_change_refines os rule_id real_path t =
      let key = stored_text engine (normalize_path os real_path) in
      run_statement-Outcome Sql.delete_from_changes (wide "failed to prepare change delete")
        (wide "failed to delete change record")
        (λ u. some (record u { changes = delete_change_row rule_id key u.changes })) t
        (HasRows t.rules (without_key rule_id key t.changes))
        λ t' e.
          let (rules, changes) = changed_if true (delete_change_row rule_id key t.changes) t t' e in
          (rules, λ id path. rw (changes) (delete_change_row-find id path rule_id key t.changes))

  -- `DeleteChangesForRule` fails and changes nothing, or it leaves the rules and every row of another
  -- rule alone and its own rule without a row.
  pub delete_changes_for_rule_refines :
      (rule_id : Text) (t : Tables)
      → Outcome t
          (HasRows t.rules (without_rule rule_id t.changes))
          (delete_changes_for_rule engine rule_id t)
  unfolding delete_changes_for_rule
  delete_changes_for_rule_refines rule_id t =
      run_statement-Outcome Sql.delete_rule_changes (wide "failed to prepare change delete")
        (wide "failed to delete change records")
        (λ u. some (record u { changes = delete_rule_rows rule_id u.changes })) t
        (HasRows t.rules (without_rule rule_id t.changes))
        λ t' e.
          let (rules, changes) = changed_if true (delete_rule_rows rule_id t.changes) t t' e in
          (rules, λ id path. rw (changes) (delete_rule_rows-find id path rule_id t.changes))
