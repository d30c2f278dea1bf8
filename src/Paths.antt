-- ===== src/Paths.antt =====
-- The path functions of common/path_overlay_common.cpp that look at text alone.
pub mod Child
pub mod Trim
use path_overlay.Base.{ℕ, zero, suc, ◌+◌, Bool, true, false, ◌&&◌, ◌||◌, not, Option, none, some}
use path_overlay.Base.{[], ◌∷◌, ◌++◌, map, reverse, length, take, drop}
use path_overlay.Base.{ltb, leb, ◌==◌, if◌then◌else◌}
use path_overlay.Wide.{Text, wide, backslash, slash, colon, same_text, is_empty, starts_with, back}
use path_overlay.Os.{Os}

-- `IsSlash`
abbrev pub is_slash : ℕ → Bool
is_slash ch = ch == backslash || ch == slash

-- `IsSlash(path.back())`, false on an empty path.
unfoldable pub ends_with_slash : Text → Bool
ends_with_slash path = elim (back path) [ none ↦ false | some ch ↦ is_slash ch ]

-- `IsUncPath`
unfoldable pub is_unc_path : Text → Bool
unfolding starts_with
is_unc_path path = starts_with path (backslash ∷ backslash ∷ [])

-- The loop of `TrimTrailingSlashes` on the reversed path, whose head is the back.
unfoldable pub trim_reversed : Text → Text
trim_reversed [] = []
trim_reversed (ch ∷ rest) =
    if ltb 3 (length (ch ∷ rest)) && is_slash ch then trim_reversed rest else ch ∷ rest

-- `TrimTrailingSlashes`
unfoldable pub trim_trailing_slashes : Text → Text
trim_trailing_slashes path = reverse (trim_reversed (reverse path))

-- `JoinPath`
unfoldable pub join_path : Text → Text → Text
join_path left right =
    if is_empty left
    then right
    else if is_empty right
    then left
    else if ends_with_slash left
    then left ++ right
    else left ++ (backslash ∷ right)

-- `PathWithoutDriveColon`
unfoldable pub path_without_drive_colon : Text → Text
path_without_drive_colon (drive ∷ ch ∷ rest) =
    if ch == colon then drive ∷ rest else drive ∷ ch ∷ rest
path_without_drive_colon path = path

-- `find_last_of(L"\\/")`: the offset of the last separator, counted from `index`.
unfoldable pub find_last_slash_from : ℕ → Text → Option ℕ
find_last_slash_from index [] = none
find_last_slash_from index (ch ∷ rest) = elim (find_last_slash_from (index + 1) rest) [
  | some later ↦ some later
  | none ↦ if is_slash ch then some index else none
]

unfoldable pub find_last_slash : Text → Option ℕ
unfolding find_last_slash_from
find_last_slash path = find_last_slash_from 0 path

-- The comparison of `SameOrChildPath`, once both paths are trimmed and in lower case.
unfoldable pub same_or_child_text : Text → Text → Bool
same_or_child_text parent child =
    if same_text parent child
    then true
    else if leb (length child) (length parent)
    then false
    else starts_with child parent
      && elim (drop (length parent) child) [ [] ↦ false | ch ∷ rest ↦ is_slash ch ]

module _ (os : Os) where
  -- `ToLower`, and `ToLowerPath` of overlay_operations.cpp
  unfoldable pub to_lower : Text → Text
  to_lower value = map os.towlower value

  -- `IsDriveRootPath`
  unfoldable pub is_drive_root_path : Text → Bool
  is_drive_root_path (a ∷ b ∷ c ∷ []) = os.iswalpha a && (b == colon && is_slash c)
  is_drive_root_path path = false

  -- `ExpandLongPathIfExists`: both calls of the API see the same path.
  unfoldable pub expand_long_path_if_exists : Text → Text
  expand_long_path_if_exists path = elim (os.get_long_path_name path) [
    | none ↦ path
    | some long ↦ long
  ]

  -- `ExpandLongPathBestEffort`. Each call is on a shorter path, so the length is enough fuel.
  unfoldable pub expand_long_path_loop : ℕ → Text → Text
  unfolding expand_long_path_if_exists
  expand_long_path_loop zero path = path
  expand_long_path_loop (suc fuel) path =
      let expanded = expand_long_path_if_exists path in
      if not (same_text expanded path) then expanded else elim (find_last_slash path) [
        | none ↦ path
        | some separator ↦
            let parent = expand_long_path_loop fuel (take separator path) in
            let leaf = drop (separator + 1) path in
            let joined =
              (if ends_with_slash parent then parent ++ leaf else parent ++ (backslash ∷ leaf)) in
            if ltb separator 3 || leb (length path) (separator + 1) then path else joined
      ]

  unfoldable pub expand_long_path_best_effort : Text → Text
  unfolding expand_long_path_loop
  expand_long_path_best_effort path = expand_long_path_loop (suc (length path)) path

  -- `std::replace` of `/` by `\` in `NormalizePath`
  abbrev pub use_backslashes : Text → Text
  use_backslashes path = map (λ ch. if ch == slash then backslash else ch) path

  -- `NormalizePath`
  unfoldable pub normalize_path : Text → Text
  unfolding trim_trailing_slashes
  normalize_path path =
      if is_empty path then [] else elim (os.get_full_path_name (use_backslashes path)) [
        | none ↦ trim_trailing_slashes (use_backslashes path)
        | some full ↦ trim_trailing_slashes (expand_long_path_best_effort full)
      ]

  -- `SameOrChildPath`
  unfoldable pub same_or_child_path : Text → Text → Bool
  same_or_child_path maybe_parent maybe_child =
      same_or_child_text (to_lower (trim_trailing_slashes maybe_parent))
        (to_lower (trim_trailing_slashes maybe_child))

  -- `DefaultStoreRoot`
  unfoldable pub default_store_root : Text
  default_store_root = elim os.program_data [
    | none ↦ wide "C:\\ProgramData\\PathOverlay\\Boxes\\Default"
    | some root ↦ join_path root (wide "PathOverlay\\Boxes\\Default")
  ]

  -- The loop that makes a path segment safe, in `DefaultStoreRootForRule` and `SafePathSegment`
  unfoldable pub safe_path_segment : Text → Text
  safe_path_segment value =
      if is_empty value
      then wide "default"
      else map (λ ch. if os.iswalnum ch || (ch == b'-' || ch == b'_') then ch else b'_') value

  -- `DefaultStoreRootForRule`
  unfoldable pub default_store_root_for_rule : Text → Text
  default_store_root_for_rule rule_id =
      let root = default_store_root in
      let boxes_root : Text = elim (find_last_slash root) [
        | none ↦ root
        | some leaf ↦ take leaf root
      ] in
      join_path boxes_root (safe_path_segment rule_id)
