-- ===== src/Overlay/Records.antt =====
-- Change records as common/overlay_operations.cpp writes and compares them.
use path_overlay.Base.{Bool, true, false, ◌&&◌, ◌||◌, none, some, List, [], ◌∷◌}
use path_overlay.Base.{if◌then◌else◌}
use path_overlay.Wide.{Text, wide, same_text, is_empty}
use path_overlay.Os.{Os}
use path_overlay.Paths.{to_lower, normalize_path}
use path_overlay.Rules.{OverlayRule}
use path_overlay.Action.{⊤, gets, or_fail, ◌>>=◌}
use path_overlay.Metadata.Records.{
  ChangeState, created, modified, deleted, tombstone, renamed, ChangeRecord,
}
use path_overlay.Metadata.Sql.{Engine}
use path_overlay.Metadata.Store.{add_or_update_change}
use path_overlay.Overlay.World.{M, on_metadata}
use path_overlay.Overlay.FsPath.{parent_path}
use path_overlay.Overlay.Files.{FileInfo, no_file, try_get_file_info}

-- `kTombstone` or `kDeleted`
abbrev pub is_deletion : ChangeState → Bool
is_deletion state = elim state [ tombstone ↦ true | deleted ↦ true | _ ↦ false ]

abbrev pub is_renamed : ChangeState → Bool
is_renamed state = elim state [ renamed ↦ true | _ ↦ false ]

abbrev pub is_created : ChangeState → Bool
is_created state = elim state [ created ↦ true | _ ↦ false ]

-- `kCreated`, `kModified` or `kRenamed`; also `ShadowRequiredForDiagnostic` of the service
abbrev pub needs_shadow : ChangeState → Bool
needs_shadow state = elim state [ created ↦ true | modified ↦ true | renamed ↦ true | _ ↦ false ]

module _ (os : Os) where
  -- The record that `PersistChange` fills in.
  unfoldable pub persisted_record :
      Text → Text → ChangeState → Text → FileInfo → FileInfo → ChangeRecord
  persisted_record real_path shadow_path state target_path original current = record {
    real_path = normalize_path os real_path;
    shadow_path = normalize_path os shadow_path;
    target_path = if is_empty target_path then [] else normalize_path os target_path;
    state = state;
    original_exists = original.exists;
    original_size = original.size;
    original_last_write_time = original.last_write_time;
    current_size = if current.exists then current.size else 0;
    last_write_time = if current.exists then current.last_write_time else [];
  }

  -- `PersistChange`. Where the information on the shadow cannot be read, it counts as missing.
  unfoldable pub persist_change : Engine → OverlayRule → Text → Text → ChangeState → Text → M os ⊤
  persist_change engine rule real_path shadow_path state target_path = do
    fs ← gets (λ w. w.fs)
    original ←
        or_fail (try_get_file_info os fs real_path) (wide "failed to read original file metadata")
    let current : FileInfo = elim (try_get_file_info os fs shadow_path) [
      | none ↦ no_file
      | some info ↦ info
    ]
    on_metadata os (
        add_or_update_change engine os rule.id
          (persisted_record real_path shadow_path state target_path original current))

  -- `IsDirectTombstoneChild`
  unfoldable pub is_direct_tombstone_child : List ChangeRecord → Text → Text → Bool
  is_direct_tombstone_child [] directory child = false
  is_direct_tombstone_child (r ∷ rest) directory child =
      let normalized_directory = to_lower os (normalize_path os directory) in
      let normalized_child = to_lower os (normalize_path os child) in
      let normalized_record = to_lower os (normalize_path os r.real_path) in
      ((is_deletion r.state || is_renamed r.state)
        && (same_text (parent_path normalized_record) normalized_directory
            && same_text normalized_record normalized_child))
      || is_direct_tombstone_child rest directory child
