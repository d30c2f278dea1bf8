-- ===== src/Service/Hidden.antt =====
-- The paths that the service hides: `IsTombstoned` and `IsHiddenByRenameSource` of
-- service/PathOverlaySvc/main.cpp.
use path_overlay.Base.{Bool, true, false, ◌&&◌, ◌||◌, not, List, [], ◌∷◌, if◌then◌else◌}
use path_overlay.Wide.{Text}
use path_overlay.Os.{Os}
use path_overlay.Paths.{normalize_path}
use path_overlay.Action.{success, failure}
use path_overlay.Metadata.Records.{ChangeRecord}
use path_overlay.Metadata.Sql.{Engine}
use path_overlay.Metadata.Store.{list_changes}
use path_overlay.Overlay.World.{World, is_error}
use path_overlay.Overlay.FsPath.{is_same_path_or_descendant}
use path_overlay.Overlay.Records.{is_deletion, is_renamed}

module _ (os : Os) where
  -- `IsHiddenByRenameSource`
  unfoldable pub is_hidden_by_rename_source : os.Fs → ChangeRecord → Text → Bool
  is_hidden_by_rename_source fs r real_path =
      let kind = os.is_directory fs r.shadow_path in
      if not (is_renamed r.state)
      then false
      else if os.wcsicmp (normalize_path os r.real_path) (normalize_path os real_path)
      then true
      else if not kind.value || is_error kind.code
      then false
      else is_same_path_or_descendant os r.real_path real_path

  -- The loop of `IsTombstoned`.
  unfoldable pub is_tombstoned_in : os.Fs → List ChangeRecord → Text → Bool
  unfolding is_hidden_by_rename_source
  is_tombstoned_in fs [] real_path = false
  is_tombstoned_in fs (r ∷ rest) real_path =
      ((os.wcsicmp (normalize_path os r.real_path) (normalize_path os real_path)
          && is_deletion r.state)
        || is_hidden_by_rename_source fs r real_path)
      || is_tombstoned_in fs rest real_path

  -- `IsTombstoned`: false also where the records cannot be read.
  unfoldable pub is_tombstoned : Engine → World os → Text → Text → Bool
  is_tombstoned engine w rule_id real_path = elim (list_changes engine rule_id w.tables).0 [
    | failure _ ↦ false
    | success records ↦ is_tombstoned_in w.fs records real_path
  ]
