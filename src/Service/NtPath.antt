-- ===== src/Service/NtPath.antt =====
-- Names of the kernel and paths with a drive, in service/PathOverlaySvc/main.cpp.
use path_overlay.Base.{
  ℕ, zero, suc, ◌+◌, Bool, true, false, ◌&&◌, ◌||◌, not, Option, none, some, [], ◌∷◌, ◌++◌, reverse,
  length, drop, ltb, leb, ◌==◌, if◌then◌else◌,
}
use path_overlay.Wide.{Text, backslash, colon, is_empty}
use path_overlay.Os.{Os}
use path_overlay.Paths.{use_backslashes, normalize_path}

-- What the service asks of Windows beside `Os`. `query_dos_device` is `none` where the name of the
-- device does not fit; `wcsnicmp s t n` is true where `_wcsnicmp` returns 0; `metadata_opens` says
-- whether the database can be opened and initialized.
pub record Devices : Type 0 where
  pub query_dos_device : Text → Option Text
  pub wcsnicmp : Text → Text → ℕ → Bool
  pub metadata_opens : Bool

-- The loop of `TrimTrailingSlashes` on the reversed text: backslashes alone.
unfoldable pub trim_backslashes_reversed : Text → Text
trim_backslashes_reversed [] = []
trim_backslashes_reversed (ch ∷ rest) =
    if ltb 3 (length (ch ∷ rest)) && ch == backslash
    then trim_backslashes_reversed rest
    else ch ∷ rest

-- `TrimTrailingSlashes` of the service
unfoldable pub trim_trailing_backslashes : Text → Text
trim_trailing_backslashes value = reverse (trim_backslashes_reversed (reverse value))

-- `CopyProtocolPath`: the copy, if the text and a zero fit.
unfoldable pub copy_protocol_path : Text → ℕ → Option Text
copy_protocol_path source destination_chars =
    if leb destination_chars (length source) then none else some source

module _ (os : Os) (devices : Devices) where
  -- `NormalizeAbsoluteDosPath`; the empty text stands for none.
  unfoldable pub normalize_absolute_dos_path : Text → Bool → Text
  normalize_absolute_dos_path dos_path expand_long_path =
      if is_empty dos_path then [] else elim (os.get_full_path_name (use_backslashes os dos_path)) [
        | none ↦ []
        | some full ↦
            if expand_long_path
            then normalize_path os (trim_trailing_backslashes full)
            else trim_trailing_backslashes full
      ]

  -- The end of `DosPathToNtPathInternal`, from a path with a drive.
  unfoldable pub device_path : Text → Text
  device_path (drive ∷ ch ∷ root ∷ rest) =
      if not (ch == colon) || not (root == backslash)
      then []
      else elim (devices.query_dos_device (drive ∷ colon ∷ [])) [
        | none ↦ []
        | some device ↦ trim_trailing_backslashes device ++ (root ∷ rest)
      ]
  device_path path = []

  -- `DosPathToNtPath`
  unfoldable pub dos_path_to_nt_path : Text → Text
  dos_path_to_nt_path dos_path = device_path (normalize_absolute_dos_path dos_path true)

  -- The rest of the path behind the device, if the path is on it.
  unfoldable pub behind_device : Text → Text → Option Text
  behind_device nt_path device =
      let rest = drop (length device) nt_path in
      if devices.wcsnicmp nt_path device (length device)
        && (length nt_path == length device || elim rest [ [] ↦ false | ch ∷ _ ↦ ch == backslash ])
      then some rest
      else none

  -- The loop of `NtPathToDosPath` from a drive letter on, over the letters that are left.
  unfoldable pub nt_path_to_dos_path_from : ℕ → ℕ → Text → Text
  nt_path_to_dos_path_from zero letter nt_path = []
  nt_path_to_dos_path_from (suc left) letter nt_path =
      let later = nt_path_to_dos_path_from left (letter + 1) nt_path in
      elim (devices.query_dos_device (letter ∷ colon ∷ [])) [
        | none ↦ later
        | some name ↦ elim (behind_device nt_path (trim_trailing_backslashes name)) [
          | none ↦ later
          | some rest ↦ letter ∷ colon ∷ rest
        ]
      ]

  -- `NtPathToDosPath`: the letters from A to Z.
  unfoldable pub nt_path_to_dos_path : Text → Text
  nt_path_to_dos_path nt_path = nt_path_to_dos_path_from 26 b'A' nt_path
