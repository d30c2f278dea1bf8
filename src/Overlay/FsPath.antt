-- ===== src/Overlay/FsPath.antt =====
-- Paths as common/overlay_operations.cpp hands them to `std::filesystem`, and the comparisons of
-- normalized paths there.
use path_overlay.Base.{Bool, true, false, ◌&&◌, ◌||◌, not, none, some, [], ◌∷◌, ◌++◌}
use path_overlay.Base.{reverse, length, drop, ◌==◌, if◌then◌else◌}
use path_overlay.Wide.{Text, backslash, colon, same_text, is_empty, starts_with, back}
use path_overlay.Os.{Os}
use path_overlay.Paths.{is_slash, ends_with_slash, to_lower, normalize_path}

-- `\\?\`, `\\` and `\\?\UNC\`
abbrev pub long_prefix : Text
long_prefix = backslash ∷ backslash ∷ b'?' ∷ backslash ∷ []

abbrev pub unc_prefix : Text
unc_prefix = backslash ∷ backslash ∷ []

abbrev pub long_unc_prefix : Text
long_unc_prefix = backslash ∷ backslash ∷ b'?' ∷ backslash ∷ b'U' ∷ b'N' ∷ b'C' ∷ backslash ∷ []

-- `path.size() >= 3 && path[1] == L':' && (path[2] == L'\\' || path[2] == L'/')`
unfoldable pub is_drive_absolute : Text → Bool
is_drive_absolute (a ∷ b ∷ c ∷ rest) = b == colon && is_slash c
is_drive_absolute path = false

-- `FilesystemPath`
unfoldable pub filesystem_path : Text → Text
unfolding starts_with is_drive_absolute
filesystem_path path =
    if starts_with path long_prefix
    then path
    else if starts_with path unc_prefix
    then long_unc_prefix ++ drop 2 path
    else if is_drive_absolute path
    then long_prefix ++ path
    else path

-- `DisplayPath`
unfoldable pub display_path : Text → Text
unfolding starts_with
display_path value =
    if starts_with value long_unc_prefix
    then unc_prefix ++ drop 8 value
    else if starts_with value long_prefix
    then drop 4 value
    else value

-- `fs::path::parent_path` on the reversed text: the file name is dropped, then the separators in
-- front of it, but for the root's.
unfoldable pub drop_separators : Text → Text
drop_separators [] = []
drop_separators (ch ∷ []) = ch ∷ []
drop_separators (ch ∷ d ∷ rest) =
    if is_slash ch && not (d == colon) then drop_separators (d ∷ rest) else ch ∷ d ∷ rest

unfoldable pub drop_file_name : Text → Text
drop_file_name [] = []
drop_file_name (ch ∷ rest) = if is_slash ch then ch ∷ rest else drop_file_name rest

unfoldable pub parent_path : Text → Text
unfolding drop_separators drop_file_name
parent_path path = reverse (drop_separators (drop_file_name (reverse path)))

-- `fs::path::operator/`, for a right side that is not rooted.
unfoldable pub path_append : Text → Text → Text
path_append left right =
    if is_empty left || ends_with_slash left then left ++ right else left ++ (backslash ∷ right)

-- `parentWithSlash` of `IsSamePathOrDescendant`
unfoldable pub with_backslash : Text → Text
unfolding back
with_backslash path = elim (back path) [
  | none ↦ path
  | some ch ↦ if ch == backslash then path else path ++ (backslash ∷ [])
]

-- The offset loop of `RelativePathUnder`: leading separators are skipped.
unfoldable pub skip_slashes : Text → Text
skip_slashes [] = []
skip_slashes (ch ∷ rest) = if is_slash ch then skip_slashes rest else ch ∷ rest

module _ (os : Os) where
  -- `IsSamePathOrDescendant`, in overlay_operations.cpp and in the service
  unfoldable pub is_same_path_or_descendant : Text → Text → Bool
  unfolding with_backslash
  is_same_path_or_descendant parent child =
      let normalized_parent = to_lower os (normalize_path os parent) in
      let normalized_child = to_lower os (normalize_path os child) in
      if same_text normalized_parent normalized_child
      then true
      else starts_with normalized_child (with_backslash normalized_parent)

  -- `RelativePathUnder`
  unfoldable pub relative_path_under : Text → Text → Text
  unfolding skip_slashes
  relative_path_under parent child =
      let normalized_parent = normalize_path os parent in
      let normalized_child = normalize_path os child in
      if os.wcsicmp normalized_parent normalized_child
      then []
      else if not (is_same_path_or_descendant normalized_parent normalized_child)
      then []
      else skip_slashes (drop (length normalized_parent) normalized_child)
