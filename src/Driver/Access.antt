-- ===== src/Driver/Access.antt =====
-- What the parameters of a create say, in driver/PathOverlayFlt/Driver.c. The flags are those of the
-- headers of Windows.
use Prim.Native.Nat.{bit_and}
use path_overlay.Base.{
  ℕ, ◌+◌, ◌/◌, ◌%◌, ◌^◌, Bool, true, false, ◌&&◌, ◌||◌, not, Option, none, some, ◌==◌,
  if◌then◌else◌,
}
use path_overlay.Wide.{Text}

-- The path that `FltGetFileNameInformation` and its relatives give, or their status.
pub data NameResult : Type 0 where
  named : Text → NameResult
  unnamed : ℕ → NameResult

-- A create: `Data->Iopb->Parameters.Create`, the two answers of `FltGetFileNameInformation` on it, and
-- the name in the file object, `none` where there is no object.
pub record CreateCall : Type 0 where
  pub requestor : ℕ
  pub normalized_name : NameResult
  pub opened_name : NameResult
  pub options : ℕ
  pub file_attributes : ℕ
  pub security_context : Option ℕ
  pub file_object_name : Option Text

-- `PathOverlayGetFileNameInformationWithFallback`
unfoldable pub file_name : NameResult → NameResult → NameResult
file_name (named path) opened = named path
file_name (unnamed _) opened = opened

abbrev pub file_create : ℕ
file_create = 2

abbrev pub file_directory_file : ℕ
file_directory_file = 1

abbrev pub file_non_directory_file : ℕ
file_non_directory_file = 0x40

abbrev pub file_open_reparse_point : ℕ
file_open_reparse_point = 0x200000

abbrev pub file_attribute_directory : ℕ
file_attribute_directory = 0x10

-- `FILE_WRITE_DATA`, `FILE_APPEND_DATA`, `FILE_WRITE_EA`, `FILE_DELETE_CHILD`, `FILE_WRITE_ATTRIBUTES`,
-- `DELETE`, `WRITE_DAC`, `WRITE_OWNER`, `GENERIC_ALL` and `GENERIC_WRITE`
abbrev pub write_access : ℕ
write_access = 2 + 4 + 0x10 + 0x40 + 0x100 + 0x10000 + 0x40000 + 0x80000 + 0x10000000 + 0x40000000

-- `FILE_WRITE_ATTRIBUTES`, `GENERIC_ALL` and `GENERIC_WRITE`
abbrev pub attribute_access : ℕ
attribute_access = 0x100 + 0x10000000 + 0x40000000

abbrev pub has_flag : ℕ → ℕ → Bool
has_flag value flags = not (bit_and value flags == 0)

-- `(options >> 24) & 0xff`
abbrev pub disposition_of : ℕ → ℕ
disposition_of options = options / 2 ^ 24 % 2 ^ 8

-- The dispositions that may create a file or overwrite one: `FILE_CREATE`, `FILE_OPEN_IF`,
-- `FILE_OVERWRITE`, `FILE_OVERWRITE_IF` and `FILE_SUPERSEDE`.
unfoldable pub may_write : ℕ → Bool
may_write disposition =
    disposition == file_create
    || (disposition == 3 || (disposition == 4 || (disposition == 5 || disposition == 0)))

-- `PathOverlayGetCreateDesiredAccess`
unfoldable pub desired_access : CreateCall → ℕ
desired_access call = elim call.security_context [ none ↦ 0 | some access ↦ access ]

-- `PathOverlayHasWriteIntent`
unfoldable pub has_write_intent : CreateCall → Bool
has_write_intent call =
    may_write (disposition_of call.options)
    || elim call.security_context [ none ↦ false | some access ↦ has_flag access write_access ]

-- `PathOverlayIsDirectoryOpen`
unfoldable pub is_directory_open : CreateCall → Bool
is_directory_open call = has_flag call.options file_directory_file

-- `PathOverlayHasDirectoryCreateHint`
unfoldable pub has_directory_create_hint : CreateCall → Bool
has_directory_create_hint call =
    has_flag call.file_attributes file_attribute_directory
    && not (has_flag call.options file_non_directory_file)

-- `PathOverlayShouldPassThroughReparsePointOpen`
unfoldable pub should_pass_through_reparse_point_open : CreateCall → Bool
unfolding desired_access may_write
should_pass_through_reparse_point_open call =
    if not (has_flag call.options file_open_reparse_point)
    then false
    else if may_write (disposition_of call.options)
    then has_flag (desired_access call) attribute_access
    else true
