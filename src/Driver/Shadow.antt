-- ===== src/Driver/Shadow.antt =====
-- The paths that driver/PathOverlayFlt/Driver.c puts together, and the questions about them. The lengths
-- of a `UNICODE_STRING` are 16-bit numbers of bytes, two for a character.
pub mod Paths
use path_overlay.Base.{
  ℕ, ◌+◌, ◌-◌, ◌*◌, ◌/◌, ◌%◌, ◌^◌, Bool, true, false, ◌&&◌, ◌||◌, not, Option, none, some, ◌++◌,
  length, take, drop, ltb, ◌==◌, if◌then◌else◌,
}
use path_overlay.Wide.{Text}
use path_overlay.Service.Request.{max_path_chars}
use path_overlay.Driver.Status
use path_overlay.Driver.Status.{nt_success}
use path_overlay.Driver.Kernel.{DriverState, Kernel}

-- `(USHORT)(a + b)` and `(USHORT)(a - b)`
abbrev pub add_ushort : ℕ → ℕ → ℕ
add_ushort a b = (a + b) % 2 ^ 16

abbrev pub sub_ushort : ℕ → ℕ → ℕ
sub_ushort a b = (a + 2 ^ 16 - b) % 2 ^ 16

-- `Length` of a text
abbrev pub byte_length : Text → ℕ
byte_length text = 2 * length text

abbrev pub max_path_bytes : ℕ
max_path_bytes = 2 * (max_path_chars - 1)

-- A path in a buffer of its own, the status of a refusal, or a copy that goes past the end of its buffer.
pub data Built : Type 0 where
  built : Text → Built
  refused : ℕ → Built
  overran : Built

module _ {S : Type 0} (kernel : Kernel S) where
  -- `prefix`, and the last `suffix_bytes` of `path` from `skip` characters on, in a new buffer: the end of
  -- `PathOverlayBuildShadowPath` and of `PathOverlayBuildRealPathFromShadow`.
  unfoldable pub build_path : Text → Text → ℕ → ℕ → DriverState S → Built
  build_path prefix path skip suffix_bytes s =
      let total = add_ushort (byte_length prefix) suffix_bytes in
      if total == 0 || ltb max_path_bytes total
      then refused Status.name_too_long
      else if not (kernel.allocate_pool (total + 2) s)
      then refused Status.insufficient_resources
      else if ltb total (byte_length prefix + suffix_bytes)
      then overran
      else built (prefix ++ take (suffix_bytes / 2) (drop skip path))

  -- `PathOverlayBuildShadowPath`
  unfoldable pub build_shadow_path : Text → Text → Text → DriverState S → Built
  unfolding build_path
  build_shadow_path store source real_path s =
      if ltb (byte_length real_path) (byte_length source)
      then refused Status.object_path_invalid
      else build_path store real_path (length source)
          (sub_ushort (byte_length real_path) (byte_length source)) s

  -- `PathOverlayBuildRealPathFromShadow`
  unfoldable pub build_real_path_from_shadow : Text → Text → Text → DriverState S → Built
  unfolding build_path
  build_real_path_from_shadow source store shadow_path s =
      build_path source shadow_path (length store)
        (sub_ushort (byte_length shadow_path) (byte_length store)) s

  -- `PathOverlayAllocateUnicodeStringCopy`: the copy, or a status.
  unfoldable pub allocate_copy : Text → DriverState S → Built
  allocate_copy source s =
      if length source == 0 || ltb max_path_bytes (byte_length source)
      then refused Status.name_too_long
      else if not (kernel.allocate_pool (byte_length source + 2) s)
      then refused Status.insufficient_resources
      else built source

  -- `PathOverlayNtPathExists`
  unfoldable pub nt_path_exists : Text → DriverState S → Bool
  nt_path_exists path s = kernel.at_passive_level s && nt_success (kernel.create_file path s)

  -- `PathOverlayQueryPathInformation`: the status, and the bytes returned. `length` is that of the
  -- buffer, `none` where there is none.
  unfoldable pub query_path_information : Text → Option ℕ → DriverState S → ℕ × ℕ
  query_path_information path none s =
      if not (kernel.at_passive_level s)
      then (Status.invalid_device_state, 0)
      else (Status.invalid_parameter, 0)
  query_path_information path (some size) s =
      if not (kernel.at_passive_level s)
      then (Status.invalid_device_state, 0)
      else if size == 0
      then (Status.invalid_parameter, 0)
      else if not (nt_success (kernel.create_file path s))
      then (kernel.create_file path s, 0)
      else (let (status, returned) = kernel.query_information path size s in
          if nt_success status then (status, returned) else (status, 0))
