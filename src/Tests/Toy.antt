-- ===== src/Tests/Toy.antt =====
-- A machine with the drives C and D that keeps, for each drive, the paths that exist and whether
-- they are directories. Full and long names are the names themselves.
use path_overlay.Base.{
  ℕ, ◌+◌, ◌≡◌, ◌∙◌, sym, refl, ap, subst, inl, inr, Bool-cases, ltb, Bool, true, false, ◌&&◌, ◌||◌,
  not, none, some, List, [], ◌∷◌, ◌++◌, if◌then◌else◌,
}
use path_overlay.Base.{leb, ◌==◌, map, reverse, arith, length}
use path_overlay.Base.Lists.{select, All}
use path_overlay.Wide.{Text, same_text, starts_with}
use path_overlay.Os.{
  Os, Effect, create_directories, copy_file, copy_tree, remove_all, rename, found, missing,
}
use path_overlay.Paths.{is_slash, to_lower, trim_trailing_slashes, trim_reversed}
use path_overlay.Paths.Child.{same_or_child_path_sound}
use path_overlay.Rules.{OverlayRule}
use path_overlay.Metadata.Sql.{Engine, Tables}
use path_overlay.Overlay.FsPath.{is_drive_absolute, display_path, filesystem_path}
use path_overlay.Overlay.Isolation.{touched, IsFramed, InStore}
use mathlib.Core.List.{reverse-append, reverse-reverse}

abbrev pub Drive : Type 0
Drive = List (Text × Bool)

pub record Disks : Type 0 where
  pub c : Drive
  pub d : Drive

abbrev pub lower : ℕ → ℕ
lower ch = if leb 65 ch && leb ch 90 then ch + 32 else ch

abbrev is_letter : ℕ → Bool
is_letter ch = leb 97 (lower ch) && leb (lower ch) 122

abbrev is_digit : ℕ → Bool
is_digit ch = leb 48 ch && leb ch 57

unfoldable pub has_path : Text → Drive → Bool
has_path path [] = false
has_path path ((p, directory) ∷ rest) = same_text p path || has_path path rest

unfoldable pub has_directory : Text → Drive → Bool
has_directory path [] = false
has_directory path ((p, directory) ∷ rest) =
    (same_text p path && directory) || has_directory path rest

abbrev add : Text → Bool → Drive → Drive
add path directory drive = (path, directory) ∷ drive

abbrev remove : Text → Drive → Drive
remove path drive = select (λ p. not (starts_with p.0 path)) drive

-- The path is on the drive D.
unfoldable pub is_on_d : Text → Bool
is_on_d path = elim (display_path path) [ [] ↦ false | ch ∷ _ ↦ lower ch == 100 ]

unfoldable pub on_drive : Text → (Drive → Drive) → Disks → Disks
on_drive path f disks =
    if is_on_d path then record disks { d = f disks.d } else record disks { c = f disks.c }

unfoldable pub toy_perform : Effect → Disks → ℕ × Disks
toy_perform (create_directories p) disks = (0, on_drive p (add (display_path p) true) disks)
toy_perform (copy_file overwrite p q) disks = (0, on_drive q (add (display_path q) false) disks)
toy_perform (copy_tree overwrite p q) disks = (0, on_drive q (add (display_path q) true) disks)
toy_perform (remove_all p) disks = (0, on_drive p (remove (display_path p)) disks)
toy_perform (rename p q) disks =
    (0, on_drive q (add (display_path q) true) (on_drive p (remove (display_path p)) disks))

abbrev pub toy : Os
toy = record {
  Fs = Disks;
  towlower = lower;
  iswalpha = is_letter;
  iswalnum = λ ch. is_letter ch || is_digit ch;
  wcsicmp = λ s t. same_text (map lower s) (map lower t);
  get_full_path_name = λ path. some path;
  get_long_path_name = λ path. some path;
  program_data = none;
  get_file_attributes = λ disks path.
      if has_path path (disks.c ++ disks.d)
      then some
          (record { directory = has_directory path (disks.c ++ disks.d); reparse_point = false })
      else none;
  get_file_attributes_ex = λ disks path.
      if has_path (display_path path) (disks.c ++ disks.d) then found 7 0 1 2 else missing;
  open_exclusive = λ disks path. none;
  exists =
      λ disks path. record { value = has_path (display_path path) (disks.c ++ disks.d); code = 0 };
  is_directory = λ disks path. record {
    value = has_directory (display_path path) (disks.c ++ disks.d);
    code = 0;
  };
  list_directory = λ disks path. record { open_code = 0; entries = []; end_code = 0 };
  list_tree = λ disks path. record { open_code = 0; entries = []; end_code = 0 };
  perform = toy_perform;
  system_time = λ n. record { year = 2024; month = 5; day = 6; hour = 7; minute = 8; second = n };
  tick_count = λ n. n;
  process_id = 42;
}

-- An engine that never fails and keeps the order of the rows; the texts are ASCII, with a byte for each unit.
abbrev pub sqlite : Engine
sqlite = record {
  prepare_fails = λ sql t. none;
  step_fails = λ sql t. none;
  constraint_failed = λ sql. [];
  collate = λ s t. true;
  wide_char_to_multi_byte = λ text. text;
  multi_byte_to_wide_char = λ bytes. bytes;
}

abbrev pub store : Text
store = 68 ∷ 58 ∷ 92 ∷ 98 ∷ 111 ∷ 120 ∷ []

abbrev pub source : Text
source = 67 ∷ 58 ∷ 92 ∷ 115 ∷ 114 ∷ 99 ∷ []

abbrev pub file : Text
file = 67 ∷ 58 ∷ 92 ∷ 115 ∷ 114 ∷ 99 ∷ 92 ∷ 97 ∷ []

abbrev pub rule : OverlayRule
rule = record { id = 114 ∷ []; name = 114 ∷ []; enabled = true; source = source; store = store }

abbrev pub no_tables : Tables
no_tables = record {
  rules = rule ∷ [];
  changes = [];
  commits = [];
  operations = [];
  cleanup_queue = [];
}

abbrev pub two_disks : Disks
two_disks = record { c = (source, true) ∷ (file, false) ∷ []; d = (store, true) ∷ [] }

-- `TrimTrailingSlashes` leaves a beginning of the path.
trim_reversed-suffix : (r : Text) → (x : Text) × (r ≡ x ++ trim_reversed r)
unfolding trim_reversed
trim_reversed-suffix [] = ([], refl)
trim_reversed-suffix (ch ∷ r) = elim (Bool-cases (ltb 3 (length (ch ∷ r)) && is_slash ch)) [
  | inl drops ↦ let (x, e) = trim_reversed-suffix r in (ch ∷ x, rw drops (ap (λ t. ch ∷ t) e))
  | inr stays ↦ ([], rw stays refl)
]

trim_trailing_slashes-prefix : (p : Text) → (x : Text) × (p ≡ trim_trailing_slashes p ++ x)
unfolding trim_trailing_slashes
trim_trailing_slashes-prefix p =
    let (x, e) = trim_reversed-suffix (reverse p) in
    (
      reverse x,
      sym (reverse-reverse p) ∙ (ap reverse e ∙ reverse-append x (trim_reversed (reverse p))),
    )

-- A path whose drive is D, with what stands behind it.
on_d-head :
    (t x r : Text) → map lower t ≡ 100 ∷ 58 ∷ 92 ∷ r → is_on_d (filesystem_path (t ++ x)) ≡ true
unfolding is_on_d filesystem_path display_path is_drive_absolute starts_with
on_d-head [] x r e = cc
on_d-head (a ∷ []) x r e = cc
on_d-head (a ∷ b ∷ []) x r e = cc
on_d-head (a ∷ b ∷ c ∷ t) x r e =
    let drive : lower a ≡ 100 = cc in
    let colon_ : lower b ≡ 58 = cc in let slash_ : lower c ≡ 92 = cc in ground arith

-- A path in the store is on the drive D.
InStore-is_on_d : (t : Text) → InStore toy store t → is_on_d t ≡ true
unfolding to_lower trim_trailing_slashes trim_reversed
InStore-is_on_d t (p, e, h) =
    let (r, f, k) = same_or_child_path_sound toy store p h in
    let (x, g) = trim_trailing_slashes-prefix p in
    subst (λ s. is_on_d s ≡ true) (sym (e ∙ ap filesystem_path g))
      (on_d-head (trim_trailing_slashes p) x (98 ∷ 111 ∷ 120 ∷ r) f)

on_drive-c :
    (t : Text) (f : Drive → Drive) (disks : Disks)
    → InStore toy store t
    → (on_drive t f disks).c ≡ disks.c
unfolding on_drive
on_drive-c t f disks h = rw (InStore-is_on_d t h)

toy_perform-c :
    (e : Effect) (disks : Disks)
    → All (InStore toy store) (touched e)
    → (toy_perform e disks).1.c ≡ disks.c
unfolding toy_perform
toy_perform-c (create_directories p) disks (h, _) = on_drive-c p _ disks h
toy_perform-c (copy_file overwrite p q) disks (h, _) = on_drive-c q _ disks h
toy_perform-c (copy_tree overwrite p q) disks (h, _) = on_drive-c q _ disks h
toy_perform-c (remove_all p) disks (h, _) = on_drive-c p _ disks h
toy_perform-c (rename p q) disks (h, (k, _)) = on_drive-c q _ _ k ∙ on_drive-c p _ disks h

-- What is observed at a path: whether it is on the drive C.
pub toy-IsFramed : IsFramed toy store
toy-IsFramed = record {
  Node = Bool;
  node = λ disks q. has_path q disks.c;
  frame = λ e disks q h a. ap (has_path q) (toy_perform-c e disks h);
}
