-- ===== src/Overlay/Prepare.antt =====
-- `PrepareCopyOnWrite`, `PrepareDirectoryView`, `PrepareRenamedTargetPath`, `RecordCreatedFile` and
-- `RecordDelete` of common/overlay_operations.cpp. The shadow path that a method hands back through
-- its pointer is the result of its success.
use path_overlay.Base.{ℕ, Bool, true, false, ◌&&◌, ◌||◌, not, Option, none, some, List, [], ◌∷◌}
use path_overlay.Base.{if◌then◌else◌}
use path_overlay.Wide.{Text, wide, is_empty}
use path_overlay.Os.{Os, Entry, Checked, create_directories, remove_all}
use path_overlay.Paths.{normalize_path}
use path_overlay.Rules.{
  OverlayRule, map_real_path_to_shadow_path, is_reparse_point_path,
  find_first_reparse_point_in_rule_path,
}
use path_overlay.Action.{⊤, pure, gets, or_fail, fail_if, when, on_option, for_each, ◌>>=◌, ◌>>◌}
use path_overlay.Metadata.Records.{created, modified, tombstone, ChangeRecord}
use path_overlay.Metadata.Sql.{Engine}
use path_overlay.Metadata.Store.{list_changes}
use path_overlay.Overlay.World.{M, perform, on_metadata, is_error, fail_filesystem_if}
use path_overlay.Overlay.FsPath.{
  filesystem_path, display_path, parent_path, path_append, is_same_path_or_descendant,
  relative_path_under,
}
use path_overlay.Overlay.Copy.{copy_file_with_parents, copy_missing_path}
use path_overlay.Overlay.Records.{
  is_deletion, is_renamed, persist_change, is_direct_tombstone_child,
}

abbrev pub is_some : Option Text → Bool
is_some none = false
is_some (some _) = true

module _ (os : Os) (engine : Engine) (rule : OverlayRule) where
  -- The two checks at the head of the methods, with the mapped path.
  unfoldable pub check_scope : Text → M os Text
  check_scope real_path = do
    fs ← gets (λ w. w.fs)
    mapped ←
        or_fail (map_real_path_to_shadow_path os fs rule real_path)
          (wide "real path is outside rule or rule is invalid")
    fail_if (is_some (find_first_reparse_point_in_rule_path os fs rule real_path))
        (wide "reparse passthrough path is outside overlay scope")
    pure mapped

  -- The first loop of `PrepareDirectoryView`: what was deleted loses its shadow.
  unfoldable pub hide_tombstone : List ChangeRecord → Text → ChangeRecord → M os ⊤
  hide_tombstone records real_path r = do
    fs ← gets (λ w. w.fs)
    if is_deletion r.state && is_direct_tombstone_child os records real_path r.real_path
        then (on_option (map_real_path_to_shadow_path os fs rule r.real_path) (pure tt)
            λ mapped_tombstone. do
              removed ← perform os (remove_all (filesystem_path mapped_tombstone))
              fail_if (is_error removed)
                  (wide "failed to remove existing shadow item for tombstone"))
        else pure tt

  -- What the second loop does with a child that has no shadow yet, with the error code that it leaves.
  unfoldable pub show_child : Entry → Text → Text → M os ℕ
  show_child entry real_child mapped_child =
      if entry.is_directory.value
      then (do
        made ← perform os (create_directories (filesystem_path mapped_child))
        fail_filesystem_if made (wide "failed to create shadow child directory") mapped_child
        pure 0)
      else (do
        when entry.is_regular_file.value (copy_file_with_parents os real_child mapped_child)
        pure entry.is_regular_file.code)

  -- The body of the second loop of `PrepareDirectoryView` behind the test of the error code.
  unfoldable pub view_entry : List ChangeRecord → Text → Entry → M os ℕ
  view_entry records real_path entry = do
    fs ← gets (λ w. w.fs)
    let real_child = display_path entry.path
    if is_direct_tombstone_child os records real_path real_child
          || is_reparse_point_path os fs real_child
        then pure 0
        else (on_option (map_real_path_to_shadow_path os fs rule real_child) (pure 0)
            λ mapped_child.
              if (os.exists fs (filesystem_path mapped_child)).value
              then pure 0
              else show_child entry real_child mapped_child)

  -- The second loop of `PrepareDirectoryView`, over the entries of the real directory. `code` is the
  -- error code at the head of the round. A step of the iterator that fails throws in the source, since
  -- the `for` over it has no error code; here the entries end before it.
  unfoldable pub view_entries : List ChangeRecord → Text → ℕ → List Entry → M os ⊤
  view_entries records real_path code [] = pure tt
  view_entries records real_path code (entry ∷ rest) = do
    fail_if (is_error code) (wide "failed to enumerate real directory")
    left ← view_entry records real_path entry
    view_entries records real_path left rest

  -- `PrepareDirectoryView`
  unfoldable pub prepare_directory_view : Text → M os Text
  prepare_directory_view real_path = do
    mapped ← check_scope real_path
    let normalized_real = normalize_path os real_path
    let normalized_shadow = normalize_path os mapped
    made ← perform os (create_directories (filesystem_path normalized_shadow))
    fail_filesystem_if made (wide "failed to create shadow directory view") normalized_shadow
    fs ← gets (λ w. w.fs)
    if not (os.exists fs (filesystem_path normalized_real)).value
        then (do
          persist_change os engine rule normalized_real normalized_shadow created []
          pure mapped)
        else (do
          fail_if (not (os.is_directory fs (filesystem_path normalized_real)).value)
              (wide "directory view target is not a directory")
          records ← on_metadata os (list_changes engine rule.id)
          for_each records (hide_tombstone records normalized_real)
          listing ← gets (λ w. os.list_directory w.fs (filesystem_path normalized_real))
          view_entries records normalized_real listing.open_code listing.entries
          pure mapped)

  -- The part of `PrepareCopyOnWrite` for a real path that is no directory.
  unfoldable pub copy_file_on_write : Text → Text → Text → Bool → M os Text
  copy_file_on_write mapped normalized_real normalized_shadow real_exists = do
    fs ← gets (λ w. w.fs)
    when (real_exists && not (os.exists fs (filesystem_path normalized_shadow)).value)
        (copy_file_with_parents os normalized_real normalized_shadow)
    persist_change os engine rule normalized_real normalized_shadow
        (if real_exists then modified else created) []
    pure mapped

  -- The part of `PrepareCopyOnWrite` that asks what stands at the real path.
  unfoldable pub copy_kind_on_write : Text → Text → Text → Bool → Checked Bool → M os Text
  copy_kind_on_write mapped normalized_real normalized_shadow real_exists kind =
      if real_exists && kind.value then prepare_directory_view normalized_real else (do
        fail_if (real_exists && is_error kind.code) (wide "failed to read real path type")
        copy_file_on_write mapped normalized_real normalized_shadow real_exists)

  -- `PrepareCopyOnWrite`
  unfoldable pub prepare_copy_on_write : Text → M os Text
  prepare_copy_on_write real_path = do
    mapped ← check_scope real_path
    let normalized_real = normalize_path os real_path
    let normalized_shadow = normalize_path os mapped
    let shadow_parent = parent_path normalized_shadow
    made ← perform os (create_directories (filesystem_path shadow_parent))
    fail_filesystem_if made (wide "failed to create shadow parent directory") shadow_parent
    fs ← gets (λ w. w.fs)
    let real = os.exists fs (filesystem_path normalized_real)
    let kind = os.is_directory fs (filesystem_path normalized_real)
    fail_if (is_error real.code) (wide "failed to read real path state")
    copy_kind_on_write mapped normalized_real normalized_shadow real.value kind

  -- A round of the loop of `PrepareRenamedTargetPath`; `next` is the rest of the loop.
  unfoldable pub renamed_target_round : Text → ChangeRecord → M os Text → M os Text
  renamed_target_round normalized_real r next = do
    fs ← gets (λ w. w.fs)
    let relative = relative_path_under os r.target_path normalized_real
    let target_shadow =
        (if is_empty relative
          then normalize_path os r.shadow_path
          else path_append r.shadow_path relative)
    let source_path =
        (if is_empty relative
          then normalize_path os r.real_path
          else path_append r.real_path relative)
    let state = os.exists fs (filesystem_path target_shadow)
    if not (is_renamed r.state)
          || (is_empty r.target_path
              || not (is_same_path_or_descendant os r.target_path normalized_real))
        then next
        else (if state.value then pure target_shadow else (do
          fail_if (is_error state.code) (wide "failed to read renamed target shadow state")
          copy_missing_path os source_path target_shadow
          pure target_shadow))

  -- The loop of `PrepareRenamedTargetPath`; the empty path stands for no renamed target.
  unfoldable pub renamed_target_loop : Text → List ChangeRecord → M os Text
  renamed_target_loop normalized_real [] = pure []
  renamed_target_loop normalized_real (r ∷ rest) =
      renamed_target_round normalized_real r (renamed_target_loop normalized_real rest)

  -- `PrepareRenamedTargetPath`
  unfoldable pub prepare_renamed_target_path : Text → M os Text
  prepare_renamed_target_path real_path = do
    fs ← gets (λ w. w.fs)
    let normalized_real = normalize_path os real_path
    if is_some (find_first_reparse_point_in_rule_path os fs rule normalized_real)
        then pure []
        else (do
          records ← on_metadata os (list_changes engine rule.id)
          renamed_target_loop normalized_real records)

  -- `RecordCreatedFile`
  unfoldable pub record_created_file : Text → M os ⊤
  record_created_file real_path = do
    mapped ← check_scope real_path
    let shadow_parent = parent_path mapped
    made ← perform os (create_directories (filesystem_path shadow_parent))
    fail_filesystem_if made (wide "failed to create shadow parent directory") shadow_parent
    persist_change os engine rule real_path mapped created []

  -- `RecordDelete`
  unfoldable pub record_delete : Text → M os ⊤
  record_delete real_path = do
    mapped ← check_scope real_path
    fs ← gets (λ w. w.fs)
    when (os.exists fs (filesystem_path mapped)).value (do
      removed ← perform os (remove_all (filesystem_path mapped))
      fail_if (is_error removed) (wide "failed to remove existing shadow item for tombstone"))
    persist_change os engine rule real_path mapped tombstone []
