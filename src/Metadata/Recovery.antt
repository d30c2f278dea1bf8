-- ===== src/Metadata/Recovery.antt =====
-- `RecoverInterruptedOperations` of common/metadata_store.cpp.
use path_overlay.Base.{Bool, true, ◌||◌, not, List, [], ◌∷◌, if◌then◌else◌}
use path_overlay.Base.Lists.{select}
use path_overlay.Wide.{Text, wide, same_text}
use path_overlay.Action.{success, ⊤, pure, attempt, ignore, ◌>>=◌, ◌>>◌, when, on_result}
use path_overlay.Metadata.Records.{OperationRecord}
use path_overlay.Metadata.Sql
use path_overlay.Metadata.Store.{
  Db, run_query, before_by, get_rule, set_rule_enabled, update_operation_record,
}

-- The two phases in which the file system may have been changed already.
unfoldable pub is_applying : Text → Bool
is_applying phase = same_text phase (wide "applying") || same_text phase (wide "cleanup")

-- The status and the error that an interrupted operation gets.
unfoldable pub recovered_status : OperationRecord → Text
unfolding is_applying
recovered_status r = if is_applying r.phase then wide "failed" else wide "recoverable"

unfoldable pub recovery_error : OperationRecord → Text
unfolding is_applying
recovery_error r =
    if is_applying r.phase
    then wide
        "service restarted while operation may have been applying filesystem changes; pending metadata and shadow data were preserved"
    else wide
        "service restarted before operation completed; retry commit or discard after inspection"

unfoldable pub recovered_record : OperationRecord → OperationRecord
unfolding recovered_status recovery_error
recovered_record r = record r {
  status = recovered_status r;
  updated_at = wide "startup-recovery";
  finished_at = wide "startup-recovery";
  error = recovery_error r;
}

module _ (engine : Sql.Engine) where
  -- The statement `WHERE status = 'running' ORDER BY started_at, id`
  unfoldable pub list_running_operations : Db (List OperationRecord)
  unfolding run_query
  list_running_operations =
      run_query engine Sql.select_running_operations
        (wide "failed to prepare interrupted operation query")
        (wide "failed to query interrupted operations")
        (λ t.
          Sql.order_by
            (before_by engine.collate (λ (x : OperationRecord). x.started_at) (λ x. x.id))
            (select (λ (x : OperationRecord). same_text x.status (wide "running")) t.operations))

  -- A paused rule is enabled again, if it is there and disabled; a failure is ignored.
  unfoldable pub restore_rule : OperationRecord → Db ⊤
  restore_rule r = when r.rule_was_enabled (do
    rule ← attempt (get_rule engine r.rule_id)
    on_result rule
        (λ found. when (not found.enabled) (ignore (set_rule_enabled engine r.rule_id true)))
        (λ _. pure tt))

  -- The body of the loop over the interrupted operations.
  unfoldable pub recover_operation : OperationRecord → Db OperationRecord
  unfolding restore_rule
  recover_operation r = do
    update_operation_record engine r.id (recovered_status r) r.phase (wide "startup-recovery")
        (wide "startup-recovery") r.backup_root (recovery_error r)
    restore_rule r
    pure (recovered_record r)

  unfoldable pub recover_operations : List OperationRecord → Db (List OperationRecord)
  recover_operations [] t = (success [], t)
  recover_operations (r ∷ rest) t =
      (do first ← recover_operation r; others ← recover_operations rest; pure (first ∷ others)) t

  -- `RecoverInterruptedOperations`
  unfoldable pub recover_interrupted_operations : Db (List OperationRecord)
  recover_interrupted_operations = do running ← list_running_operations; recover_operations running
