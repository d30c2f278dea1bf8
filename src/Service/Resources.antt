-- ===== src/Service/Resources.antt =====
-- The files of a rule whose occupancy is checked: service/PathOverlaySvc/main.cpp.
use path_overlay.Base.{
  Bool, false, ◌&&◌, ◌||◌, not, none, some, List, [], ◌∷◌, ◌++◌, drop, ◌==◌, if◌then◌else◌,
}
use path_overlay.Wide.{Text, wide, backslash, slash, colon, is_empty, starts_with}
use path_overlay.Os.{Os}
use path_overlay.Paths.{normalize_path}
use path_overlay.Metadata.Records.{ChangeRecord}
use path_overlay.Action.{⊤}

module _ (os : Os) where
  unfoldable pub is_drive_absolute_path : Text → Bool
  is_drive_absolute_path (drive ∷ second ∷ third ∷ rest) =
      os.iswalpha drive && second == colon && (third == backslash || third == slash)
  is_drive_absolute_path _ = false

  abbrev extended : Text
  extended = backslash ∷ backslash ∷ b'?' ∷ backslash ∷ []

  unfoldable pub path_for_win32_file_api : Text → Text
  unfolding starts_with is_drive_absolute_path wide
  path_for_win32_file_api path =
      let normalized = normalize_path os path in
      if starts_with path extended
        || starts_with path (backslash ∷ backslash ∷ b'.' ∷ backslash ∷ [])
      then path
      else if starts_with normalized (backslash ∷ backslash ∷ [])
      then extended ++ wide "UNC" ++ (backslash ∷ drop 2 normalized)
      else if is_drive_absolute_path normalized
      then extended ++ normalized
      else normalized

  unfoldable pub is_existing_regular_file : os.Fs → Text → Bool
  is_existing_regular_file fs path =
      elim (os.get_file_attributes fs (path_for_win32_file_api path)) [
        | none ↦ false
        | some attributes ↦ not attributes.directory
      ]

  -- The loop of `AddUniquePath` over the paths that are there.
  unfoldable pub is_listed : Text → List Text → Bool
  is_listed normalized [] = false
  is_listed normalized (existing ∷ paths) =
      os.wcsicmp existing normalized || is_listed normalized paths

  unfoldable pub add_unique_path : os.Fs → Text → List Text → List Text
  add_unique_path fs path paths =
      let normalized = normalize_path os path in
      if is_empty path || not (is_existing_regular_file fs path)
      then paths
      else if is_listed normalized paths
      then paths
      else paths ++ (normalized ∷ [])

  -- The loop of `CollectOccupancyResourcePaths`, from the paths so far.
  unfoldable pub collect_paths : os.Fs → Bool → List ChangeRecord → List Text → List Text
  collect_paths fs is_commit [] paths = paths
  collect_paths fs is_commit (record_ ∷ records) paths = collect_paths fs is_commit records (
      if is_commit
      then add_unique_path fs record_.target_path
          (add_unique_path fs record_.shadow_path (add_unique_path fs record_.real_path paths))
      else add_unique_path fs record_.shadow_path paths)

  unfoldable pub collect_occupancy_resource_paths : os.Fs → List ChangeRecord → Bool → List Text
  collect_occupancy_resource_paths fs records is_commit = collect_paths fs is_commit records []

-- To unfold this is to unfold the collection of the paths.
unfoldable pub resources : ⊤
unfolding is_drive_absolute_path path_for_win32_file_api is_existing_regular_file is_listed
    add_unique_path collect_paths collect_occupancy_resource_paths
resources = tt
