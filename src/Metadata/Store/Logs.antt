-- ===== src/Metadata/Store/Logs.antt =====
-- The methods of `MetadataStore` on the records of commits, operations and cleanups.
use path_overlay.Base.{ℕ, ◌&&◌, not, none, some, List}
use path_overlay.Base.{[], ◌∷◌, ◌++◌, if◌then◌else◌}
use path_overlay.Wide.{Text, wide}
use path_overlay.Os.{Os}
use path_overlay.Paths.{normalize_path}
use path_overlay.Rules.{OverlayRule}
use path_overlay.Action.{⊤}
use path_overlay.Metadata.Records.{CommitRecord, OperationRecord, CleanupRecord}
use path_overlay.Metadata.Sql
use path_overlay.Metadata.Statement.{
  Db, stored_text, before_by, run_statement, run_query, run_query_one,
}

module _ (engine : Sql.Engine) where
  -- `AddCommitRecord`
  unfoldable pub add_commit_record : CommitRecord → Db ⊤
  add_commit_record r =
      let stored : CommitRecord = record r {
        operations = stored_text engine r.operations;
        backup_path = stored_text engine r.backup_path;
        error = stored_text engine r.error;
      } in
      run_statement engine Sql.insert_into_commits (wide "failed to prepare commit insert")
        (wide "failed to insert commit record")
        (λ t.
          if Sql.has_id (λ (x : CommitRecord). x.id) r.id t.commits
          then none
          else some (record t { commits = t.commits ++ (stored ∷ []) }))

  -- `GetCommitRecord`
  unfoldable pub get_commit_record : Text → Db CommitRecord
  get_commit_record commit_id =
      run_query_one engine Sql.select_commit (wide "failed to prepare commit query")
        (wide "failed to query commit record") (wide "commit record was not found")
        (λ t. Sql.find_id (λ (x : CommitRecord). x.id) commit_id t.commits)

  -- `AddOperationRecord`
  unfoldable pub add_operation_record : OperationRecord → Db ⊤
  add_operation_record r =
      let stored : OperationRecord = record r {
        backup_root = stored_text engine r.backup_root;
        error = stored_text engine r.error;
      } in
      run_statement engine Sql.insert_into_operations (wide "failed to prepare operation insert")
        (wide "failed to insert operation record")
        (λ t.
          if not (Sql.has_id (λ (x : OperationRecord). x.id) r.id t.operations)
            && Sql.has_id (λ (x : OverlayRule). x.id) r.rule_id t.rules
          then some (record t { operations = t.operations ++ (stored ∷ []) })
          else none)

  -- `UpdateOperationRecord`
  unfoldable pub update_operation_record : Text → Text → Text → Text → Text → Text → Text → Db ⊤
  update_operation_record id status phase updated_at finished_at backup_root error =
      run_statement engine Sql.update_operations (wide "failed to prepare operation update")
        (wide "failed to update operation record")
        (λ t. some (record t {
          operations =
              Sql.update_id (λ (x : OperationRecord). x.id) id
                (λ (x : OperationRecord). record x {
                  status = status;
                  phase = phase;
                  updated_at = updated_at;
                  finished_at = finished_at;
                  backup_root = stored_text engine backup_root;
                  error = stored_text engine error;
                })
                t.operations;
        }))

  -- `ListOperations`
  unfoldable pub list_operations : Db (List OperationRecord)
  list_operations =
      run_query engine Sql.select_operations (wide "failed to prepare operation list")
        (wide "failed to list operations")
        (λ t.
          Sql.order_by
            (before_by engine.collate (λ (x : OperationRecord). x.started_at) (λ x. x.id))
            t.operations)

  -- `AddCleanupRecord`
  unfoldable pub add_cleanup_record : Os → CleanupRecord → Db ⊤
  add_cleanup_record os r =
      let stored : CleanupRecord = record r {
        path = stored_text engine (normalize_path os r.path);
        last_error = stored_text engine r.last_error;
      } in
      run_statement engine Sql.insert_into_cleanup_queue (wide "failed to prepare cleanup insert")
        (wide "failed to insert cleanup record")
        (λ t.
          if not (Sql.has_id (λ (x : CleanupRecord). x.id) r.id t.cleanup_queue)
            && Sql.has_id (λ (x : OverlayRule). x.id) r.rule_id t.rules
          then some (record t { cleanup_queue = t.cleanup_queue ++ (stored ∷ []) })
          else none)

  -- `UpdateCleanupRecord`
  unfoldable pub update_cleanup_record : Text → Text → ℕ → Text → Text → Db ⊤
  update_cleanup_record id status attempts last_error updated_at =
      run_statement engine Sql.update_cleanup_queue (wide "failed to prepare cleanup update")
        (wide "failed to update cleanup record")
        (λ t. some (record t {
          cleanup_queue =
              Sql.update_id (λ (x : CleanupRecord). x.id) id
                (λ (x : CleanupRecord). record x {
                  status = status;
                  attempts = attempts;
                  last_error = stored_text engine last_error;
                  updated_at = updated_at;
                })
                t.cleanup_queue;
        }))

  -- `ListCleanupRecords`
  unfoldable pub list_cleanup_records : Db (List CleanupRecord)
  list_cleanup_records =
      run_query engine Sql.select_cleanup_queue (wide "failed to prepare cleanup list")
        (wide "failed to list cleanup records")
        (λ t.
          Sql.order_by (before_by engine.collate (λ (x : CleanupRecord). x.created_at) (λ x. x.id))
            t.cleanup_queue)
