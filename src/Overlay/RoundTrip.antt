-- ===== src/Overlay/RoundTrip.antt =====
-- `DisplayPath` and `FilesystemPath` of common/overlay_operations.cpp, one after the other.
use path_overlay.Base.{◌≡◌, refl, false, [], ◌∷◌, arith}
use path_overlay.Wide.{Text, starts_with}
use path_overlay.Overlay.FsPath.{filesystem_path, display_path, is_drive_absolute, long_prefix}

-- A path that does not begin with `\\?\` is displayed as it was.
pub display_path-filesystem_path :
    (path : Text)
    → starts_with path long_prefix ≡ false
    → display_path (filesystem_path path) ≡ path
unfolding display_path filesystem_path is_drive_absolute starts_with
display_path-filesystem_path [] h = refl
display_path-filesystem_path (a ∷ []) h = ground arith
display_path-filesystem_path (a ∷ b ∷ []) h = ground arith
display_path-filesystem_path (a ∷ b ∷ c ∷ rest) h = ground arith
