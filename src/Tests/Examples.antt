-- ===== src/Tests/Examples.antt =====
-- The theorems on paths, rules and isolation, and on the checks before a commit, at concrete inputs.
use path_overlay.Base.{◌≡◌, ◌++◌, refl, ◌⊎◌, true, false, [], ◌∷◌}
use path_overlay.Base.Lists.{All}
use path_overlay.Wide.{Text, wide, decimal, same_text, starts_with, back}
use path_overlay.Paths.{
  normalize_path, same_or_child_path, same_or_child_text, to_lower, trim_trailing_slashes,
  trim_reversed, join_path, path_without_drive_colon, ends_with_slash, expand_long_path_best_effort,
  expand_long_path_loop, expand_long_path_if_exists, find_last_slash, find_last_slash_from,
  is_unc_path, is_drive_root_path,
}
use path_overlay.Paths.Child.{Apart, canonical}
use path_overlay.Rules.{
  OverlayRule, is_ok, store_root, shadow_path, validate_overlay_rule, validate_overlay_rule_set,
  validate_paths, validate_source_attributes, validate_store_attributes, validate_against,
  validate_pair,
}
use path_overlay.Rules.Shadow.{IsPlainStore, KeepsBackslash}
use path_overlay.Rules.Disjoint.{drive_root_store_is_accepted}
use path_overlay.Action.{success}
use path_overlay.Metadata.Records.{
  ChangeRecord, deleted, try_parse_change_state, change_state_to_string,
}
use path_overlay.Overlay.Files.{
  file_info_matches, try_get_file_info, try_open_exclusive, is_directory_path, file_time_to_text,
  file_info, quad_part,
}
use path_overlay.Overlay.FsPath.{filesystem_path, display_path, is_drive_absolute}
use path_overlay.Overlay.World.{World}
use path_overlay.Overlay.Prepare.{
  prepare_copy_on_write, prepare_directory_view, record_delete, record_created_file,
}
use path_overlay.Overlay.Isolation
use path_overlay.Overlay.Isolation.{HasNormalShadow}
use path_overlay.Overlay.Isolation.Methods.{
  prepare_copy_on_write_isolated, prepare_directory_view_isolated, record_delete_isolated,
}
use path_overlay.Overlay.Commit.{
  commit, validate_commit_preconditions, check_lock, check_real, check_shadow, check_target,
}
use path_overlay.Overlay.Preflight.{IsCommittable, IsRefused, commit-IsCommittable}
use path_overlay.Metadata.Store.{list_changes, run_query, change_record}
use path_overlay.Metadata.Sql.{order_by, ChangeRow}
use path_overlay.Base.Lists.{select}
use path_overlay.Tests.Toy.{
  Disks, toy, sqlite, store, source, file, rule, no_tables, two_disks, toy-IsFramed, has_path,
  has_directory,
}

-- What the examples compute with.
unfoldable pub paths : Unit {0}
unfolding wide same_text starts_with back normalize_path same_or_child_path same_or_child_text
    to_lower trim_trailing_slashes trim_reversed join_path path_without_drive_colon ends_with_slash
    expand_long_path_best_effort expand_long_path_loop expand_long_path_if_exists find_last_slash
    find_last_slash_from is_unc_path is_drive_root_path store_root shadow_path
paths = tt

unfoldable pub rules : Unit {0}
unfolding paths has_path has_directory validate_overlay_rule validate_overlay_rule_set
    validate_paths validate_source_attributes validate_store_attributes validate_against
    validate_pair
rules = tt

abbrev pub world : World toy
world = record { fs = two_disks; tables = no_tables; ticks = 0 }

abbrev pub outside : Text
outside = 67 ∷ 58 ∷ 92 ∷ 122 ∷ []

outside-Apart : Apart toy (store_root toy rule) outside
unfolding paths
outside-Apart = (refl, refl)

toy-KeepsBackslash : KeepsBackslash toy
toy-KeepsBackslash = record { lower_backslash = refl }

store_root-eq : store_root toy rule ≡ store
unfolding paths
store_root-eq = refl

rule-IsPlainStore : IsPlainStore (store_root toy rule)
unfolding paths
rule-IsPlainStore = record { nonempty = refl; no_separator = refl }

normalize_path-file : normalize_path toy file ≡ file
unfolding paths
normalize_path-file = refl

file-HasNormalShadow : HasNormalShadow toy rule file
unfolding paths
file-HasNormalShadow = refl

source-HasNormalShadow : HasNormalShadow toy rule source
unfolding paths
source-HasNormalShadow = refl

rule-IsFramed : path_overlay.Overlay.Isolation.IsFramed toy (store_root toy rule)
rule-IsFramed = rw (store_root-eq) toy-IsFramed

-- `PrepareCopyOnWrite` of a file on the drive C.
prepare_copy_on_write_isolated_example :
    rule-IsFramed.node (prepare_copy_on_write toy sqlite rule file world).1.fs outside
    ≡ rule-IsFramed.node two_disks outside
prepare_copy_on_write_isolated_example =
    prepare_copy_on_write_isolated toy sqlite rule toy-KeepsBackslash rule-IsPlainStore
      rule-IsFramed file file-HasNormalShadow (rw (normalize_path-file) file-HasNormalShadow) world
      outside outside-Apart

prepare_directory_view_isolated_example :
    rule-IsFramed.node (prepare_directory_view toy sqlite rule source world).1.fs outside
    ≡ rule-IsFramed.node two_disks outside
prepare_directory_view_isolated_example =
    prepare_directory_view_isolated toy sqlite rule toy-KeepsBackslash rule-IsPlainStore
      rule-IsFramed source source-HasNormalShadow world outside outside-Apart

record_delete_isolated_example :
    (rule-IsFramed.node (record_delete toy sqlite rule file world).1.fs outside
      ≡ rule-IsFramed.node two_disks outside)
    × (rule-IsFramed.node (record_created_file toy sqlite rule file world).1.fs outside
        ≡ rule-IsFramed.node two_disks outside)
record_delete_isolated_example =
    record_delete_isolated toy sqlite rule toy-KeepsBackslash rule-IsPlainStore rule-IsFramed file
      world outside outside-Apart

-- A rule set with one rule, and a candidate for another source.
abbrev other_rule : OverlayRule
other_rule = record {
  id = 115 ∷ [];
  name = 115 ∷ [];
  enabled = true;
  source = outside;
  store = 68 ∷ 58 ∷ 92 ∷ 98 ∷ 50 ∷ [];
}

abbrev three_disks : Disks
three_disks = record { c = (outside, true) ∷ two_disks.c; d = two_disks.d }

-- `D:\` above `D:\data`.
abbrev drive_store : Text
drive_store = 68 ∷ 58 ∷ 92 ∷ []

abbrev data_source : Text
data_source = 68 ∷ 58 ∷ 92 ∷ 100 ∷ 97 ∷ []

data_canonical : canonical toy data_source ≡ canonical toy drive_store ++ (100 ∷ 97 ∷ [])
unfolding paths
data_canonical = refl

no_unc : (is_unc_path data_source ≡ false) × (is_unc_path drive_store ≡ false)
unfolding paths
no_unc = (refl, refl)

no_drive_root : is_drive_root_path toy data_source ≡ false
unfolding paths
no_drive_root = refl

drive_root_store_is_accepted_example : is_ok (validate_paths toy data_source drive_store) ≡ true
drive_root_store_is_accepted_example =
    drive_root_store_is_accepted toy data_source drive_store 100 (97 ∷ []) data_canonical refl refl
      refl no_unc.0 no_unc.1 no_drive_root

abbrev pub file_time : Text
file_time = file_time_to_text 1 2

unfoldable pub files : Unit {0}
unfolding rules validate_commit_preconditions check_lock check_real check_shadow check_target
    file_info_matches try_get_file_info try_open_exclusive is_directory_path filesystem_path
    display_path is_drive_absolute file_time_to_text file_info quad_part decimal order_by select
    list_changes run_query change_record try_parse_change_state change_state_to_string
files = tt

-- A record of a file that is unchanged and deleted in the overlay.
abbrev pub deletion : ChangeRecord
deletion = record {
  real_path = file;
  shadow_path = store;
  target_path = [];
  state = deleted;
  original_exists = true;
  original_size = 7;
  original_last_write_time = file_time;
  current_size = 0;
  last_write_time = [];
}

deletion_passes : validate_commit_preconditions toy two_disks (deletion ∷ []) ≡ success tt
unfolding files
deletion_passes = refl

abbrev pub deletion_row : ChangeRow
deletion_row = record {
  rule_id = rule.id;
  real_path = file;
  shadow_path = store;
  target_path = [];
  state = change_state_to_string deleted;
  original_exists = true;
  original_size = 7;
  original_last_write_time = file_time;
  current_size = 0;
  last_write_time = [];
}

abbrev pub deletion_world : World toy
deletion_world = record world { tables = record no_tables { changes = deletion_row ∷ [] } }

deletion_listed :
    list_changes sqlite rule.id deletion_world.tables
    ≡ (success (deletion ∷ []), deletion_world.tables)
unfolding files
deletion_listed = refl

commit-IsCommittable_example :
    All (IsCommittable toy two_disks) (deletion ∷ [])
    ⊎ IsRefused toy sqlite rule [] deletion_world (commit toy sqlite rule [] deletion_world)
commit-IsCommittable_example =
    commit-IsCommittable toy sqlite rule [] (deletion ∷ []) deletion_world deletion_listed
