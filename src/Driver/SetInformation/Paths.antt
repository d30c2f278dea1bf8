-- ===== src/Driver/SetInformation/Paths.antt =====
-- The status for a path that `PathOverlayPreSetInformation` of driver/PathOverlayFlt/Driver.c cannot put together.
use path_overlay.Base.{ℕ, ◌≡◌, refl, Bool, true, false, length, if◌then◌else◌}
use path_overlay.Wide.{Text}
use path_overlay.Driver.Status
use path_overlay.Driver.Status.{nt_success}
use path_overlay.Driver.Kernel.{RuleEntry, DriverState, Kernel}
use path_overlay.Driver.Buffers.{text_of}
use path_overlay.Driver.Shadow.{
  Built, built, refused, overran, build_path, sub_ushort, byte_length, build_real_path_from_shadow,
}
use path_overlay.Driver.SetInformation.{real_path_of}

-- A path that was built, or a status that is a failure.
abbrev pub IsOrFails : Built → Type 0
IsOrFails (refused status) = nt_success status ≡ false
IsOrFails _ = Unit

module _ {S : Type 0} (kernel : Kernel S) where
  build_path-IsOrFails :
      (prefix path : Text) (skip suffix_bytes : ℕ) (s : DriverState S)
      → IsOrFails (build_path kernel prefix path skip suffix_bytes s)
  unfolding build_path
  build_path-IsOrFails prefix path skip suffix_bytes s = either _ _ _ _
    where
      either :
          (long short over : Bool) (text : Text)
          → IsOrFails (
              if long
              then refused Status.name_too_long
              else if short
              then refused Status.insufficient_resources
              else if over
              then overran
              else built text)
      either true short over text = refl
      either false true over text = refl
      either false false true text = tt
      either false false false text = tt

  pub real_path_of-IsOrFails :
      (rule : RuleEntry) (source_path : Bool) (path : Text) (s : DriverState S)
      → IsOrFails (real_path_of kernel rule source_path path s)
  unfolding real_path_of build_real_path_from_shadow build_path
  real_path_of-IsOrFails rule true path s = tt
  real_path_of-IsOrFails rule false path s =
      build_path-IsOrFails (text_of rule.source_nt_path) path (length (text_of rule.store_nt_path))
        (sub_ushort (byte_length path) (byte_length (text_of rule.store_nt_path))) s
