-- ===== src/Metadata/Owned/Calls.antt =====
-- The methods of `MetadataStore` in common/metadata_store.cpp that change tables, along a sequence of
-- calls.
use path_overlay.Base.{ℕ, ◌≡◌, refl, sym, subst, ◌∙◌, Bool, List, [], ◌∷◌, arith}
use path_overlay.Wide.{Text}
use path_overlay.Os.{Os}
use path_overlay.Paths.{normalize_path}
use path_overlay.Rules.{OverlayRule}
use path_overlay.Action.{⊤, pure, for_each, ignore}
use path_overlay.Action.Keeps.{
  Keeps, Keeps-pure, Keeps-bind, Keeps-ignore, Keeps-for_each, keeps_rules,
}
use path_overlay.Metadata.Records.{ChangeRecord, CommitRecord, OperationRecord, CleanupRecord}
use path_overlay.Metadata.Sql
use path_overlay.Metadata.Sql.{
  ChangeRow, Engine, Tables, has_id, update_id, upsert_rule_row, has_change, upsert_change_row,
  delete_change_row, delete_rule_rows, cascade_delete_rule, is_change_key,
}
use path_overlay.Metadata.Store.{
  Db, run_query, run_query_one, get_rule, stored_text, change_row, upsert_rule, set_rule_enabled,
  delete_rule, add_or_update_change, delete_change, delete_changes_for_rule, add_commit_record,
  add_operation_record, update_operation_record, add_cleanup_record, update_cleanup_record,
}
use path_overlay.Metadata.Owned.{rule_key, IsOwned, has_id-upsert_rule_row, has_id-update_id}
use path_overlay.Metadata.Recovery.{
  list_running_operations, restore_rule, recover_operation, recover_operations,
  recover_interrupted_operations,
}
use path_overlay.Metadata.Owned.Statements.{
  KeepsOwners, KeepsOwners-IsPreorder, KeepsOwners-rules, KeepsOwners-select, KeepsOwners-upsert,
  cascade_delete_rule-KeepsOwners, run_statement-KeepsOwners, run_statement-KeepsTotal,
  run_statement-KeepsBoth,
}

-- A call of a method of `MetadataStore` that changes tables.
pub data StoreCall : Type 0 where
  upsert_rule_call : OverlayRule → StoreCall
  set_rule_enabled_call : Text → Bool → StoreCall
  delete_rule_call : Text → StoreCall
  add_or_update_change_call : Text → ChangeRecord → StoreCall
  delete_change_call : Text → Text → StoreCall
  delete_changes_for_rule_call : Text → StoreCall
  add_commit_record_call : CommitRecord → StoreCall
  add_operation_record_call : OperationRecord → StoreCall
  update_operation_record_call : Text → Text → Text → Text → Text → Text → Text → StoreCall
  add_cleanup_record_call : CleanupRecord → StoreCall
  update_cleanup_record_call : Text → Text → ℕ → Text → Text → StoreCall
  recover_call : StoreCall

module _ (engine : Engine) where
  set_rule_enabled-KeepsOwners :
      (id : Text) (on : Bool) → Keeps KeepsOwners (set_rule_enabled engine id on)
  unfolding set_rule_enabled
  set_rule_enabled-KeepsOwners id on =
      run_statement-KeepsTotal engine _ _ _
        (λ t. record t {
          rules = update_id rule_key id (λ (r : OverlayRule). record r { enabled = on }) t.rules;
        })
        λ t. KeepsOwners-rules t _ λ key h. has_id-update_id key id _ t.rules (λ rule. refl) ∙ h

  update_operation_record-KeepsOwners :
      (id status phase updated_at finished_at backup_root error : Text)
      → Keeps KeepsOwners
          (update_operation_record engine id status phase updated_at finished_at backup_root error)
  unfolding update_operation_record
  update_operation_record-KeepsOwners id status phase updated_at finished_at backup_root error =
      run_statement-KeepsBoth engine _ _ _ _ λ t u e. (ground arith, ground arith)

  run_query-KeepsOwners :
      {A : Type 0} (sql : Sql.Sql) (prepare_error step_error : Text) (rows : Tables → A)
      → Keeps KeepsOwners (run_query engine sql prepare_error step_error rows)
  unfolding run_query
  run_query-KeepsOwners sql prepare_error step_error rows = record {
    at = λ t.
        let same : (run_query engine sql prepare_error step_error rows t).1 ≡ t = ground arith in
        λ o. subst IsOwned (sym same) o;
  }

  get_rule-KeepsOwners : (id : Text) → Keeps KeepsOwners (get_rule engine id)
  unfolding get_rule run_query_one
  get_rule-KeepsOwners id =
      search (keeps_rules, KeepsOwners-IsPreorder, run_query-KeepsOwners) depth 12

  list_running_operations-KeepsOwners : Keeps KeepsOwners (list_running_operations engine)
  unfolding list_running_operations
  list_running_operations-KeepsOwners = run_query-KeepsOwners _ _ _ _

  ruleset recovery_rules = (
    keeps_rules, KeepsOwners-IsPreorder, set_rule_enabled-KeepsOwners,
    update_operation_record-KeepsOwners, get_rule-KeepsOwners, list_running_operations-KeepsOwners,
  )

  restore_rule-KeepsOwners : (r : OperationRecord) → Keeps KeepsOwners (restore_rule engine r)
  unfolding restore_rule
  restore_rule-KeepsOwners r = search recovery_rules depth 12

  recover_operation-KeepsOwners :
      (r : OperationRecord) → Keeps KeepsOwners (recover_operation engine r)
  unfolding recover_operation
  recover_operation-KeepsOwners r = search (recovery_rules, restore_rule-KeepsOwners) depth 12

  recover_operations-KeepsOwners :
      (running : List OperationRecord) → Keeps KeepsOwners (recover_operations engine running)
  unfolding recover_operations pure
  recover_operations-KeepsOwners [] = record { at = λ t o. o }
  recover_operations-KeepsOwners (r ∷ rest) = record {
    at = λ t.
        (Keeps-bind KeepsOwners-IsPreorder (recover_operation engine r) _
            (recover_operation-KeepsOwners r)
            (λ first.
              Keeps-bind KeepsOwners-IsPreorder (recover_operations engine rest) _
                (recover_operations-KeepsOwners rest)
                (λ others. Keeps-pure KeepsOwners-IsPreorder (first ∷ others)))).at
          t;
  }

  recover_interrupted_operations-KeepsOwners :
      Keeps KeepsOwners (recover_interrupted_operations engine)
  unfolding recover_interrupted_operations
  recover_interrupted_operations-KeepsOwners =
      search (recovery_rules, recover_operations-KeepsOwners) depth 12

  module _ (os : Os) where
    unfoldable pub run_store_call : StoreCall → Db ⊤
    run_store_call (upsert_rule_call rule) = upsert_rule engine os rule
    run_store_call (set_rule_enabled_call id on) = set_rule_enabled engine id on
    run_store_call (delete_rule_call id) = delete_rule engine id
    run_store_call (add_or_update_change_call id r) = add_or_update_change engine os id r
    run_store_call (delete_change_call id path) = delete_change engine os id path
    run_store_call (delete_changes_for_rule_call id) = delete_changes_for_rule engine id
    run_store_call (add_commit_record_call r) = add_commit_record engine r
    run_store_call (add_operation_record_call r) = add_operation_record engine r
    run_store_call (update_operation_record_call id status phase updated finished backup error) =
        update_operation_record engine id status phase updated finished backup error
    run_store_call (add_cleanup_record_call r) = add_cleanup_record engine os r
    run_store_call (update_cleanup_record_call id status attempts error updated) =
        update_cleanup_record engine id status attempts error updated
    run_store_call recover_call = ignore (recover_interrupted_operations engine)

    run_store_call-KeepsOwners : (call : StoreCall) → Keeps KeepsOwners (run_store_call call)
    unfolding run_store_call upsert_rule set_rule_enabled delete_rule add_or_update_change
        delete_change delete_changes_for_rule add_commit_record add_operation_record
        update_operation_record add_cleanup_record update_cleanup_record change_row
        delete_change_row delete_rule_rows
    run_store_call-KeepsOwners (upsert_rule_call rule) =
        run_statement-KeepsTotal engine _ _ _ (λ t. record t { rules = upsert_rule_row _ t.rules })
          λ t. KeepsOwners-rules t _ λ key. has_id-upsert_rule_row key _ t.rules
    run_store_call-KeepsOwners (set_rule_enabled_call id on) = set_rule_enabled-KeepsOwners id on
    run_store_call-KeepsOwners (delete_rule_call id) =
        run_statement-KeepsTotal engine _ _ _ (cascade_delete_rule id)
          λ t. cascade_delete_rule-KeepsOwners id t
    run_store_call-KeepsOwners (add_or_update_change_call id r) =
        run_statement-KeepsOwners engine _ _ _ _
          λ t u e. KeepsOwners-upsert (change_row engine os id r) t u e
    run_store_call-KeepsOwners (delete_change_call id path) =
        run_statement-KeepsTotal engine _ _ _
          (λ t. record t {
            changes = delete_change_row id (stored_text engine (normalize_path os path)) t.changes;
          })
          λ t. KeepsOwners-select _ t
    run_store_call-KeepsOwners (delete_changes_for_rule_call id) =
        run_statement-KeepsTotal engine _ _ _
          (λ t. record t { changes = delete_rule_rows id t.changes }) λ t. KeepsOwners-select _ t
    run_store_call-KeepsOwners (add_commit_record_call r) =
        run_statement-KeepsBoth engine _ _ _ _ λ t u e. (ground arith, ground arith)
    run_store_call-KeepsOwners (add_operation_record_call r) =
        run_statement-KeepsBoth engine _ _ _ _ λ t u e. (ground arith, ground arith)
    run_store_call-KeepsOwners
          (update_operation_record_call id status phase updated finished backup error) =
        update_operation_record-KeepsOwners id status phase updated finished backup error
    run_store_call-KeepsOwners (add_cleanup_record_call r) =
        run_statement-KeepsBoth engine _ _ _ _ λ t u e. (ground arith, ground arith)
    run_store_call-KeepsOwners (update_cleanup_record_call id status attempts error updated) =
        run_statement-KeepsBoth engine _ _ _ _ λ t u e. (ground arith, ground arith)
    run_store_call-KeepsOwners recover_call =
        Keeps-ignore KeepsOwners-IsPreorder _ recover_interrupted_operations-KeepsOwners

    -- If the rule of every row of the table of changes is in the table of rules, then that is so after any
    -- sequence of calls of the methods of the store that change tables, whether each succeeds or fails.
    pub store_calls_keep_owners :
        (calls : List StoreCall) (t : Tables)
        → IsOwned t
        → IsOwned (for_each calls (λ call. ignore (run_store_call call)) t).1
    store_calls_keep_owners calls t o =
        (Keeps-for_each KeepsOwners-IsPreorder calls (λ call. ignore (run_store_call call))
            (λ call. Keeps-ignore KeepsOwners-IsPreorder _ (run_store_call-KeepsOwners call))).at
          t o
