-- ===== src/Metadata/Store/Changes.antt =====
-- The methods of `MetadataStore` on the change records.
use path_overlay.Base.{◌||◌, none, some, List}
use path_overlay.Base.{map, if◌then◌else◌}
use path_overlay.Base.Lists.{select}
use path_overlay.Wide.{Text, wide, same_text}
use path_overlay.Os.{Os}
use path_overlay.Paths.{normalize_path}
use path_overlay.Rules.{OverlayRule}
use path_overlay.Action.{⊤}
use path_overlay.Metadata.Records.{ChangeRecord}
use path_overlay.Metadata.Sql
use path_overlay.Metadata.Statement.{
  Db, stored_text, change_row, change_record, run_statement, run_query,
}

module _ (engine : Sql.Engine) where
  -- `AddOrUpdateChange`: a new row needs its rule, by the foreign key.
  unfoldable pub add_or_update_change : Os → Text → ChangeRecord → Db ⊤
  unfolding change_row
  add_or_update_change os rule_id r =
      let row = change_row engine os rule_id r in
      run_statement engine Sql.upsert_into_changes (wide "failed to prepare change upsert")
        (wide "failed to upsert change record")
        (λ t.
          if Sql.has_change row.rule_id row.real_path t.changes
            || Sql.has_id (λ (x : OverlayRule). x.id) rule_id t.rules
          then some (record t { changes = Sql.upsert_change_row row t.changes })
          else none)

  -- `ListChanges`
  unfoldable pub list_changes : Text → Db (List ChangeRecord)
  unfolding change_record
  list_changes rule_id =
      run_query engine Sql.select_changes (wide "failed to prepare change query")
        (wide "failed to query changes")
        (λ t. map change_record (
          Sql.order_by (λ (a b : Sql.ChangeRow). engine.collate a.real_path b.real_path)
            (select (λ (row : Sql.ChangeRow). same_text row.rule_id rule_id) t.changes)))

  -- `DeleteChange`
  unfoldable pub delete_change : Os → Text → Text → Db ⊤
  delete_change os rule_id real_path =
      run_statement engine Sql.delete_from_changes (wide "failed to prepare change delete")
        (wide "failed to delete change record")
        (λ t. some (record t {
          changes =
              Sql.delete_change_row rule_id (stored_text engine (normalize_path os real_path))
                t.changes;
        }))

  -- `DeleteChangesForRule`
  unfoldable pub delete_changes_for_rule : Text → Db ⊤
  delete_changes_for_rule rule_id =
      run_statement engine Sql.delete_rule_changes (wide "failed to prepare change delete")
        (wide "failed to delete change records")
        (λ t. some (record t { changes = Sql.delete_rule_rows rule_id t.changes }))
