-- ===== src/Overlay/Commit.antt =====
-- `Commit` of common/overlay_operations.cpp, with its preconditions and its log.
use path_overlay.Base.{Bool, true, false, not, none, some, List, [], ◌∷◌}
use path_overlay.Base.{◌++◌, if◌then◌else◌}
use path_overlay.Wide.{Text, wide, is_empty}
use path_overlay.Os.{Os, create_directories, copy_file, copy_tree, remove_all}
use path_overlay.Paths.{normalize_path, path_without_drive_colon}
use path_overlay.Rules.{OverlayRule, store_root}
use path_overlay.Action.{
  OperationResult, success, failure, ⊤, pure, fail, gets, fail_if, when, attempt, ignore, on_result,
  for_each, ◌>>=◌, ◌>>◌,
}
use path_overlay.Metadata.Records.{
  created, modified, deleted, tombstone, renamed, ChangeRecord, CommitRecord,
}
use path_overlay.Metadata.Sql.{Engine}
use path_overlay.Metadata.Store.{list_changes, delete_changes_for_rule, add_commit_record}
use path_overlay.Overlay.World.{M, perform, on_metadata, is_error}
use path_overlay.Overlay.FsPath.{parent_path}
use path_overlay.Overlay.Files.{
  try_get_file_info, file_info_matches, try_open_exclusive, is_directory_path,
}
use path_overlay.Overlay.Copy.{copy_path_with_parents}
use path_overlay.Overlay.Records.{is_renamed, needs_shadow}

-- `commit.id`, ... of `AddCommitLog`
unfoldable pub commit_record : OverlayRule → Text → Text → Text → Text → CommitRecord
commit_record rule commit_id status backup_path message = record {
  id = commit_id;
  rule_id = rule.id;
  start_time = wide "manual";
  status = status;
  operations = wide "commit";
  backup_path = backup_path;
  error = message;
}

module _ (os : Os) where
  -- `BackupRoot`
  unfoldable pub backup_root : OverlayRule → Text → Text
  backup_root rule commit_id = store_root os rule ++ (wide "\\backups\\" ++ commit_id)

  -- `BackupPathFor`
  unfoldable pub backup_path_for : OverlayRule → Text → Text → Text
  backup_path_for rule commit_id real_path =
      backup_root rule commit_id
      ++ (wide "\\drive\\" ++ path_without_drive_colon (normalize_path os real_path))

  -- `driveRoot` of `Commit` and `Discard`
  unfoldable pub drive_root : OverlayRule → Text
  drive_root rule = store_root os rule ++ wide "\\drive"

  -- An error message in place of a lock, or a failed reading.
  abbrev pub refuse_if : Bool → Text → OperationResult ⊤ → OperationResult ⊤
  refuse_if test message rest = if test then failure message else rest

  -- `if (!TryOpenExclusive(path)) { return Fail(lockError); }` unless the path is a directory
  unfoldable pub check_lock :
      os.Fs → Text → OperationResult Bool → OperationResult ⊤ → OperationResult ⊤
  check_lock fs path (failure message) rest = failure message
  check_lock fs path (success true) rest = rest
  check_lock fs path (success false) rest = elim (try_open_exclusive os fs path) [
    | none ↦ rest
    | some message ↦ failure message
  ]

  -- The checks of the real path in `ValidateCommitPreconditions`.
  unfoldable pub check_real : os.Fs → ChangeRecord → OperationResult ⊤ → OperationResult ⊤
  check_real fs r rest = elim (try_get_file_info os fs r.real_path) [
    | none ↦ failure (wide "failed to read real file metadata during commit preflight")
    | some info ↦
        refuse_if (not (file_info_matches r info))
          (wide "commit conflict: real file changed since overlay record was created")
          (elim (is_directory_path os fs r.real_path) [
            | failure message ↦ failure message
            | success is_directory ↦
                if info.exists then check_lock fs r.real_path (success is_directory) rest else rest
          ])
  ]

  -- The checks of the shadow.
  unfoldable pub check_shadow : os.Fs → ChangeRecord → OperationResult ⊤ → OperationResult ⊤
  check_shadow fs r rest =
      if needs_shadow r.state
      then elim (try_get_file_info os fs r.shadow_path) [
        | none ↦ failure (wide "failed to read shadow file metadata during commit preflight")
        | some info ↦
            refuse_if (not info.exists) (wide "shadow file is missing during commit")
              (check_lock fs r.shadow_path (is_directory_path os fs r.shadow_path) rest)
      ]
      else rest

  -- The checks of the target of a rename.
  unfoldable pub check_target : os.Fs → ChangeRecord → OperationResult ⊤ → OperationResult ⊤
  check_target fs r rest =
      if is_renamed r.state
      then refuse_if (is_empty r.target_path)
          (wide "rename target path is missing during commit preflight")
          (elim (try_get_file_info os fs r.target_path) [
            | none ↦ failure (wide "failed to read rename target metadata during commit preflight")
            | some info ↦
                refuse_if info.exists (wide "commit conflict: rename target already exists") rest
          ])
      else rest

  -- `ValidateCommitPreconditions`
  unfoldable pub validate_commit_preconditions : os.Fs → List ChangeRecord → OperationResult ⊤
  validate_commit_preconditions fs [] = success tt
  validate_commit_preconditions fs (r ∷ rest) =
      let others = validate_commit_preconditions fs rest in
      check_real fs r (check_shadow fs r (check_target fs r others))

  module _ (engine : Engine) (rule : OverlayRule) (commit_id : Text) where
    -- `AddCommitLog`
    unfoldable pub add_commit_log : Text → Text → M os ⊤
    add_commit_log status message = on_metadata os (
        add_commit_record engine
          (commit_record rule commit_id status (backup_root rule commit_id) message))

    -- `FailCommit`
    unfoldable pub fail_commit : {A : Type 0} → Text → M os A
    fail_commit message = do ignore (add_commit_log (wide "failed") message); fail message

    -- `if (test) { return FailCommit(message); }`
    unfoldable pub fail_commit_if : Bool → Text → M os ⊤
    fail_commit_if test message = when test (fail_commit message)

    -- `if (!result.success) { return FailCommit(result.message); }`
    unfoldable pub or_fail_commit : M os ⊤ → M os ⊤
    or_fail_commit m = do
      result ← attempt m
      on_result result (λ _. pure tt) (λ message. fail_commit message)

    -- The backup of a real path that exists.
    unfoldable pub back_up : Text → M os ⊤
    back_up real_path = do
      fs ← gets (λ w. w.fs)
      when (os.exists fs real_path).value (
          or_fail_commit
            (copy_path_with_parents os real_path (backup_path_for rule commit_id real_path)))

    -- The branch of `Commit` for `kCreated` and `kModified`.
    unfoldable pub commit_write : ChangeRecord → M os ⊤
    commit_write r = do
      fs ← gets (λ w. w.fs)
      fail_if (not (os.exists fs r.shadow_path).value) (wide "shadow file is missing during commit")
      back_up r.real_path
      made ← perform os (create_directories (parent_path r.real_path))
      fail_commit_if (is_error made) (wide "failed to create real parent directory during commit")
      kind ← gets (λ w. os.is_directory w.fs r.shadow_path)
      if kind.value
          then (do
            copied ← perform os (copy_tree true r.shadow_path r.real_path)
            fail_commit_if (is_error copied) (wide "failed to create real directory during commit"))
          else (do
            fail_commit_if (is_error kind.code)
                (wide "failed to read shadow path type during commit")
            copied ← perform os (copy_file true r.shadow_path r.real_path)
            fail_commit_if (is_error copied) (wide "failed to write shadow file to real path"))

    -- The branch of `Commit` for `kDeleted` and `kTombstone`.
    unfoldable pub commit_delete : ChangeRecord → M os ⊤
    commit_delete r = do
      fs ← gets (λ w. w.fs)
      when (os.exists fs r.real_path).value (do
        back_up r.real_path
        removed ← perform os (remove_all r.real_path)
        fail_commit_if (is_error removed) (wide "failed to delete real path during commit"))

    -- The branch of `Commit` for `kRenamed`.
    unfoldable pub commit_rename : ChangeRecord → M os ⊤
    commit_rename r = do
      fail_commit_if (is_empty r.target_path) (wide "rename target path is missing during commit")
      fs ← gets (λ w. w.fs)
      fail_commit_if (os.exists fs r.target_path).value (wide "rename target exists during commit")
      back_up r.real_path
      made ← perform os (create_directories (parent_path r.target_path))
      fail_commit_if (is_error made) (wide "failed to create rename target parent during commit")
      kind ← gets (λ w. os.is_directory w.fs r.shadow_path)
      if kind.value
          then (do
            copied ← perform os (copy_tree false r.shadow_path r.target_path)
            fail_commit_if (is_error copied)
                (wide "failed to write renamed directory during commit"))
          else (do
            fail_commit_if (is_error kind.code)
                (wide "failed to read renamed shadow path type during commit")
            copied ← perform os (copy_file false r.shadow_path r.target_path)
            fail_commit_if (is_error copied) (wide "failed to write renamed file during commit"))
      left ← gets (λ w. os.exists w.fs r.real_path)
      when left.value (do
        removed ← perform os (remove_all r.real_path)
        fail_commit_if (is_error removed) (wide "failed to remove rename source during commit"))

    -- The body of the loop of `Commit`.
    unfoldable pub commit_change : ChangeRecord → M os ⊤
    commit_change r = elim r.state [
      | created ↦ commit_write r
      | modified ↦ commit_write r
      | deleted ↦ commit_delete r
      | tombstone ↦ commit_delete r
      | renamed ↦ commit_rename r
    ]

    -- The part of `Commit` behind the preflight.
    unfoldable pub apply_changes : List ChangeRecord → M os ⊤
    apply_changes records = do
      made ← perform os (create_directories (backup_root rule commit_id))
      fail_commit_if (is_error made) (wide "failed to create commit backup directory")
      for_each records commit_change
      removed ← perform os (remove_all (drive_root rule))
      fail_commit_if (is_error removed) (wide "failed to clean shadow data after commit")
      or_fail_commit (on_metadata os (delete_changes_for_rule engine rule.id))
      add_commit_log (wide "done") []

    -- `Commit`
    unfoldable pub commit : M os ⊤
    commit = do
      records ← on_metadata os (list_changes engine rule.id)
      fs ← gets (λ w. w.fs)
      on_result (validate_commit_preconditions fs records) (λ _. apply_changes records)
          (λ message. fail_commit message)
