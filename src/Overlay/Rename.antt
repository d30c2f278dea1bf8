-- ===== src/Overlay/Rename.antt =====
-- `RecordRename` of common/overlay_operations.cpp.
use path_overlay.Base.{ℕ, Bool, false, ◌&&◌, ◌||◌, not, Option, none, some, List, [], ◌∷◌}
use path_overlay.Base.{◌==◌, if◌then◌else◌}
use path_overlay.Wide.{Text, wide, is_empty}
use path_overlay.Os.{Os, create_directories, rename}
use path_overlay.Paths.{normalize_path}
use path_overlay.Rules.{
  OverlayRule, map_real_path_to_shadow_path, find_first_reparse_point_in_rule_path,
}
use path_overlay.Action.{
  OperationResult, success, failure, ⊤, pure, gets, or_fail, fail_if, when, for_each, ◌>>=◌, ◌>>◌,
}
use path_overlay.Metadata.Records.{created, renamed, ChangeRecord}
use path_overlay.Metadata.Sql.{Engine}
use path_overlay.Metadata.Store.{list_changes, delete_change}
use path_overlay.Overlay.World.{M, perform, on_metadata, is_error}
use path_overlay.Overlay.FsPath.{parent_path, is_same_path_or_descendant}
use path_overlay.Overlay.Copy.{copy_missing_directory_tree}
use path_overlay.Overlay.Records.{is_deletion, is_created, persist_change}
use path_overlay.Overlay.Prepare.{is_some, prepare_copy_on_write}

-- Both paths have a drive, and the letters differ.
unfoldable pub is_cross_volume : (ℕ → ℕ) → Text → Text → Bool
is_cross_volume lower (a ∷ b ∷ s) (c ∷ d ∷ t) = not (lower a == lower c)
is_cross_volume lower source target = false

module _ (os : Os) where
  -- The record is about the target of the rename, or ends there.
  unfoldable pub takes_target : Text → ChangeRecord → Bool
  takes_target normalized_target r =
      os.wcsicmp (normalize_path os r.real_path) normalized_target
      || (not (is_empty r.target_path)
          && os.wcsicmp (normalize_path os r.target_path) normalized_target)

  -- The loop of `RecordRename` that finds the record of the source, the last one that fits.
  unfoldable pub scan_records :
      Text → Text → Option ChangeRecord → List ChangeRecord → OperationResult (Option ChangeRecord)
  scan_records normalized_source normalized_target found [] = success found
  scan_records normalized_source normalized_target found (r ∷ rest) =
      let found' : Option ChangeRecord =
        (if os.wcsicmp (normalize_path os r.real_path) normalized_source then some r else found) in
      let more = scan_records normalized_source normalized_target found' rest in
      if takes_target normalized_target r
      then failure (wide "rename target already has overlay metadata")
      else more

  -- The source's record is one of a deletion, or one of a creation.
  abbrev pub source_is_deleted : Option ChangeRecord → Bool
  source_is_deleted none = false
  source_is_deleted (some r) = is_deletion r.state

  abbrev pub source_is_created : Option ChangeRecord → Bool
  source_is_created none = false
  source_is_created (some r) = is_created r.state

  abbrev pub of_result : {A : Type 0} → OperationResult A → M os A
  of_result r w = (r, w)

  module _ (engine : Engine) (rule : OverlayRule) where
    -- The loop that drops the records below a renamed directory.
    unfoldable pub forget_descendant : Text → ChangeRecord → M os ⊤
    forget_descendant normalized_source r =
        let record_path = normalize_path os r.real_path in
        when
          (not (os.wcsicmp record_path normalized_source)
            && is_same_path_or_descendant os normalized_source record_path)
          (on_metadata os (delete_change engine os rule.id record_path))

    -- The shadow of the source: as it is, or prepared by `PrepareCopyOnWrite`.
    unfoldable pub active_source_shadow : Text → Text → M os Text
    active_source_shadow source_shadow normalized_source = do
      fs ← gets (λ w. w.fs)
      if (os.exists fs source_shadow).value
          then pure source_shadow
          else prepare_copy_on_write os engine rule normalized_source

    -- The part of `RecordRename` that moves the shadow.
    unfoldable pub move_shadow : Text → Text → Text → Text → M os Bool
    move_shadow normalized_source normalized_target active_source target_shadow = do
      fs ← gets (λ w. w.fs)
      fail_if (not (os.exists fs active_source).value) (wide "rename source does not exist")
      let kind = os.is_directory fs active_source
      fail_if (is_error kind.code) (wide "failed to read rename source type")
      fail_if (kind.value && is_same_path_or_descendant os normalized_source normalized_target)
          (wide "directory cannot be renamed into itself")
      let source_state = os.exists fs normalized_source
      when (kind.value && source_state.value)
          (copy_missing_directory_tree os normalized_source active_source)
      fail_if (kind.value && is_error source_state.code) (wide "failed to read rename source state")
      made ← perform os (create_directories (parent_path target_shadow))
      fail_if (is_error made) (wide "failed to create rename target parent")
      moved ← perform os (rename active_source target_shadow)
      fail_if (is_error moved) (wide "failed to move shadow file for rename")
      pure kind.value

    -- The part of `RecordRename` that records the move.
    unfoldable pub record_move :
        Text → Text → Text → List ChangeRecord → Option ChangeRecord → Bool → M os ⊤
    record_move normalized_source normalized_target target_shadow records found is_directory = do
      when is_directory (for_each records (forget_descendant normalized_source))
      if source_is_created found
          then (do
            on_metadata os (delete_change engine os rule.id normalized_source)
            persist_change os engine rule normalized_target target_shadow created [])
          else persist_change os engine rule normalized_source target_shadow renamed
              normalized_target

    -- `RecordRename` behind its checks of the paths.
    unfoldable pub rename_in_rule : Text → Text → Text → Text → M os ⊤
    rename_in_rule normalized_source normalized_target source_shadow target_shadow = do
      records ← on_metadata os (list_changes engine rule.id)
      found ← of_result (scan_records normalized_source normalized_target none records)
      fail_if (source_is_deleted found) (wide "tombstoned path cannot be renamed")
      fs ← gets (λ w. w.fs)
      fail_if ((os.exists fs normalized_target).value || (os.exists fs target_shadow).value)
          (wide "rename target already exists")
      active ← active_source_shadow source_shadow normalized_source
      is_directory ← move_shadow normalized_source normalized_target active target_shadow
      record_move normalized_source normalized_target target_shadow records found is_directory

    -- `RecordRename`
    unfoldable pub record_rename : Text → Text → M os ⊤
    record_rename source_real_path target_real_path = do
      fs ← gets (λ w. w.fs)
      source_shadow ←
          or_fail (map_real_path_to_shadow_path os fs rule source_real_path)
            (wide "rename source and target must be inside the same rule")
      target_shadow ←
          or_fail (map_real_path_to_shadow_path os fs rule target_real_path)
            (wide "rename source and target must be inside the same rule")
      fail_if
          (is_some (find_first_reparse_point_in_rule_path os fs rule source_real_path)
            || is_some (find_first_reparse_point_in_rule_path os fs rule target_real_path))
          (wide "reparse passthrough path is outside overlay scope")
      let normalized_source = normalize_path os source_real_path
      let normalized_target = normalize_path os target_real_path
      when (not (os.wcsicmp normalized_source normalized_target)) (do
        fail_if (is_cross_volume os.towlower normalized_source normalized_target)
            (wide "cross-volume rename is not supported")
        rename_in_rule normalized_source normalized_target source_shadow target_shadow)
