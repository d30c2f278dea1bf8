-- ===== src/Os.antt =====
-- What the program asks of Windows, the C runtime and `std::filesystem`, none of which is code of
-- the repository: an abstract file system, the queries on it, and the calls that change it, each
-- named as a value of `Effect`. Every `std::error_code` is a number, 0 for none.
use path_overlay.Base.{ℕ, Bool, Option, List}
use path_overlay.Wide.{Text}

-- The bits that are read of `GetFileAttributesW`; `none` stands for `INVALID_FILE_ATTRIBUTES`.
pub record Attributes : Type 0 where
  pub directory : Bool
  pub reparse_point : Bool

-- `GetFileAttributesExW`: the two halves of the size and of the last write time, or the failure
-- with one of the two codes for a missing file, or any other failure.
pub data FileData : Type 0 where
  found : ℕ → ℕ → ℕ → ℕ → FileData
  missing : FileData
  unreadable : FileData

-- The answer of a call that takes a `std::error_code`.
pub record Checked (A : Type 0) : Type 0 where
  pub value : A
  pub code : ℕ

-- An entry of a directory iterator: its path, its depth below the iterator's root, its path
-- relative to that root, and its type.
pub record Entry : Type 0 where
  pub path : Text
  pub depth : ℕ
  pub relative : Checked Text
  pub is_directory : Checked Bool
  pub is_regular_file : Checked Bool

-- Opening an iterator sets a code. An iterator that fails becomes the end iterator, so the entries
-- stop there, and the code of that last step is kept beside them.
pub record Listing : Type 0 where
  pub open_code : ℕ
  pub entries : List Entry
  pub end_code : ℕ

-- The calls that change the file system. The flag of a copy is `overwrite_existing`.
pub data Effect : Type 0 where
  create_directories : Text → Effect
  copy_file : Bool → Text → Text → Effect
  copy_tree : Bool → Text → Text → Effect
  remove_all : Text → Effect
  rename : Text → Text → Effect

pub record SystemTime : Type 0 where
  pub year : ℕ
  pub month : ℕ
  pub day : ℕ
  pub hour : ℕ
  pub minute : ℕ
  pub second : ℕ

pub record Os : Type 1 where
  pub Fs : Type 0
  -- The C runtime. `wcsicmp` is true where `_wcsicmp` returns 0.
  pub towlower : ℕ → ℕ
  pub iswalpha : ℕ → Bool
  pub iswalnum : ℕ → Bool
  pub wcsicmp : Text → Text → Bool
  -- `GetFullPathNameW`, `GetLongPathNameW`, and the variable `ProgramData`: `none` if it fails.
  pub get_full_path_name : Text → Option Text
  pub get_long_path_name : Text → Option Text
  pub program_data : Option Text
  pub get_file_attributes : Fs → Text → Option Attributes
  pub get_file_attributes_ex : Fs → Text → FileData
  -- `CreateFileW` with no sharing: the error code if it fails.
  pub open_exclusive : Fs → Text → Option ℕ
  pub exists : Fs → Text → Checked Bool
  pub is_directory : Fs → Text → Checked Bool
  pub list_directory : Fs → Text → Listing
  pub list_tree : Fs → Text → Listing
  pub perform : Effect → Fs → ℕ × Fs
  -- The clock at each reading, and the identity of the process.
  pub system_time : ℕ → SystemTime
  pub tick_count : ℕ → ℕ
  pub process_id : ℕ
