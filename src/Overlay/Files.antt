-- ===== src/Overlay/Files.antt =====
-- What common/overlay_operations.cpp reads of files.
use path_overlay.Base.{ℕ, ◌+◌, ◌*◌, ◌%◌, ◌^◌, Bool, true, false, ◌&&◌, not, Option, none, some}
use path_overlay.Base.{[], ◌++◌, ◌==◌, if◌then◌else◌}
use path_overlay.Wide.{Text, wide, same_text, decimal}
use path_overlay.Os.{Os, FileData, found, missing, unreadable}
use path_overlay.Action.{OperationResult, success, failure}
use path_overlay.Metadata.Records.{ChangeRecord}
use path_overlay.Overlay.World.{is_error}
use path_overlay.Overlay.FsPath.{filesystem_path}

-- `ULARGE_INTEGER::QuadPart` of its two 32-bit halves
unfoldable pub quad_part : ℕ → ℕ → ℕ
quad_part low high = low % 2 ^ 32 + 2 ^ 32 * (high % 2 ^ 32)

-- `FileTimeToText`
unfoldable pub file_time_to_text : ℕ → ℕ → Text
unfolding quad_part
file_time_to_text low high = decimal (quad_part low high)

pub record FileInfo : Type 0 where
  pub exists : Bool
  pub size : ℕ
  pub last_write_time : Text

abbrev pub no_file : FileInfo
no_file = record { exists = false; size = 0; last_write_time = [] }

-- The body of `TryGetFileInfo`, from what the API answers; `none` where it returns false.
unfoldable pub file_info : FileData → Option FileInfo
unfolding file_time_to_text
file_info (found size_low size_high time_low time_high) = some (record {
  exists = true;
  size = quad_part size_low size_high;
  last_write_time = file_time_to_text time_low time_high;
})
file_info missing = some no_file
file_info unreadable = none

-- `==` on `bool`
unfoldable pub same_bool : Bool → Bool → Bool
same_bool true b = b
same_bool false b = not b

-- `FileInfoMatches`, and `OriginalInfoMatchesForDryRun` of the service
unfoldable pub file_info_matches : ChangeRecord → FileInfo → Bool
unfolding same_bool
file_info_matches r info =
    if not (same_bool r.original_exists info.exists)
    then false
    else if not info.exists
    then true
    else r.original_size == info.size && same_text r.original_last_write_time info.last_write_time

module _ (os : Os) where
  -- `TryGetFileInfo`
  unfoldable pub try_get_file_info : os.Fs → Text → Option FileInfo
  unfolding file_info
  try_get_file_info fs path = file_info (os.get_file_attributes_ex fs path)

  -- `TryOpenExclusive` for reading: its message if it fails.
  unfoldable pub try_open_exclusive : os.Fs → Text → Option Text
  try_open_exclusive fs path = elim (os.open_exclusive fs path) [
    | none ↦ none
    | some code ↦
        some
          (wide "file is occupied or inaccessible: " ++ (path ++ (wide " error=" ++ decimal code)))
  ]

  -- `IsDirectoryPath`
  unfoldable pub is_directory_path : os.Fs → Text → OperationResult Bool
  is_directory_path fs path =
      let state = os.exists fs (filesystem_path path) in
      let kind = os.is_directory fs (filesystem_path path) in
      if is_error state.code
      then failure (wide "failed to read path state")
      else if not state.value
      then success false
      else if is_error kind.code
      then failure (wide "failed to read path type")
      else success kind.value
