-- ===== src/Overlay/Copy.antt =====
-- Copying files and directory trees: `CopyFileWithParents`, `CopyPathWithParents`,
-- `CopyMissingDirectoryTree` and `CopyMissingPath` of common/overlay_operations.cpp.
use path_overlay.Base.{ℕ, Bool, true, false, ◌&&◌, ◌||◌, not, Option, none, some, List, [], ◌∷◌}
use path_overlay.Base.{ltb, if◌then◌else◌}
use path_overlay.Wide.{Text, wide}
use path_overlay.Os.{Os, Entry, create_directories, copy_file}
use path_overlay.Rules.{is_reparse_point_path}
use path_overlay.Action.{success, ⊤, pure, gets, fail_if, when, ◌>>=◌, ◌>>◌}
use path_overlay.Overlay.World.{M, perform, is_error, fail_filesystem_if}
use path_overlay.Overlay.FsPath.{filesystem_path, parent_path, path_append}

module _ (os : Os) where
  -- `CopyFileWithParents`
  unfoldable pub copy_file_with_parents : Text → Text → M os ⊤
  copy_file_with_parents source target = do
    fs ← gets (λ w. w.fs)
    fail_if (is_reparse_point_path os fs source)
        (wide "reparse passthrough path is outside overlay scope")
    created ← perform os (create_directories (filesystem_path (parent_path target)))
    fail_filesystem_if created (wide "failed to create target directory") (parent_path target)
    copied ← perform os (copy_file true (filesystem_path source) (filesystem_path target))
    fail_if (is_error copied) (wide "failed to copy file")

  -- The part of the loop's body in `CopyMissingDirectoryTree` that copies a regular file.
  unfoldable pub copy_missing_file : Entry → Text → M os ⊤
  copy_missing_file entry target_path = do
    fs ← gets (λ w. w.fs)
    when (not (os.exists fs (filesystem_path target_path)).value) (do
      created ← perform os (create_directories (filesystem_path (parent_path target_path)))
      fail_filesystem_if created (wide "failed to create target child parent directory")
          (parent_path target_path)
      copied ← perform os (copy_file false entry.path (filesystem_path target_path))
      fail_if (is_error copied) (wide "failed to copy target child file"))

  -- The body of the loop for an entry that is no reparse point.
  unfoldable pub copy_missing_entry : Text → Entry → M os ⊤
  copy_missing_entry target entry =
      let target_path = path_append target entry.relative.value in
      if entry.is_directory.value
      then (do
        created ← perform os (create_directories (filesystem_path target_path))
        fail_filesystem_if created (wide "failed to create target child directory") target_path)
      else (do
        fail_if (is_error entry.is_directory.code)
            (wide "failed to read source directory entry type")
        when entry.is_regular_file.value (copy_missing_file entry target_path))

  -- A round of the loop over the entries: `code` is the error code at its head, `skipped` says that
  -- the entry is left out, and `next` is the rest of the loop.
  unfoldable pub copy_missing_round : Text → ℕ → Bool → Bool → Entry → M os ⊤ → M os ⊤ → M os ⊤
  copy_missing_round target code skipped reparse entry skip_on next =
      if skipped then skip_on else (do
        fail_if (is_error code) (wide "failed to enumerate source directory tree")
        fail_if (is_error entry.relative.code) (wide "failed to compute relative directory path")
        when (not reparse) (copy_missing_entry target entry)
        next)

  -- The loop over the entries. `skip` is the depth below which `disable_recursion_pending` leaves the
  -- entries out.
  unfoldable pub copy_missing_entries : Text → ℕ → Option ℕ → List Entry → M os ⊤
  copy_missing_entries target code skip [] w = (success tt, w)
  copy_missing_entries target code skip (entry ∷ rest) w =
      let skipped : Bool = elim skip [ none ↦ false | some depth ↦ ltb depth entry.depth ] in
      let reparse = is_reparse_point_path os w.fs entry.path in
      let below : Option ℕ =
        if reparse && entry.is_directory.value then some entry.depth else none in
      copy_missing_round target code skipped reparse entry
        (copy_missing_entries target code skip rest) (copy_missing_entries target 0 below rest) w

  -- `CopyMissingDirectoryTree`
  unfoldable pub copy_missing_directory_tree : Text → Text → M os ⊤
  copy_missing_directory_tree source target = do
    fs ← gets (λ w. w.fs)
    when (not (is_reparse_point_path os fs source)) (do
      created ← perform os (create_directories (filesystem_path target))
      fail_filesystem_if created (wide "failed to create target directory") target
      listing ← gets (λ w. os.list_tree w.fs (filesystem_path source))
      copy_missing_entries target listing.open_code none listing.entries)

  -- `CopyPathWithParents`
  unfoldable pub copy_path_with_parents : Text → Text → M os ⊤
  copy_path_with_parents source target = do
    fs ← gets (λ w. w.fs)
    fail_if (is_reparse_point_path os fs source)
        (wide "reparse passthrough path is outside overlay scope")
    kind ← gets (λ w. os.is_directory w.fs (filesystem_path source))
    if kind.value
        then (do
          created ← perform os (create_directories (filesystem_path (parent_path target)))
          fail_filesystem_if created (wide "failed to create target directory") (parent_path target)
          copy_missing_directory_tree source target)
        else (do
          fail_if (is_error kind.code) (wide "failed to read source path type")
          copy_file_with_parents source target)

  -- `CopyMissingPath`
  unfoldable pub copy_missing_path : Text → Text → M os ⊤
  copy_missing_path source target = do
    fs ← gets (λ w. w.fs)
    let state = os.exists fs (filesystem_path source)
    let kind = os.is_directory fs (filesystem_path source)
    let target_state = os.exists fs (filesystem_path target)
    if is_reparse_point_path os fs source || not state.value then pure tt else (do
      fail_if (is_error state.code) (wide "failed to read source path state")
      if kind.value then copy_missing_directory_tree source target else (do
        fail_if (is_error kind.code) (wide "failed to read source path type")
        when (not target_state.value) (do
          fail_if (is_error target_state.code) (wide "failed to read target path state")
          copy_file_with_parents source target)))
