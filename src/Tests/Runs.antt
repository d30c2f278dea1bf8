-- ===== src/Tests/Runs.antt =====
-- Runs of the methods on the concrete machine, and the theorems on the metadata at concrete inputs.
use path_overlay.Base.{
  ◌++◌, ◌<◌, ◌^◌, sym, ap, ◌≡◌, refl, true, false, List, [], ◌∷◌, none, some, arith,
}
use path_overlay.Base.Lists.{All}
use path_overlay.Metadata.Statement.{stored_text}
use path_overlay.Metadata.RoundTrip.{IsKept}
use path_overlay.Wide.{Text, wide, same_text, starts_with}
use mathlib.Core.Bool.{false≢true}
use path_overlay.Paths.{normalize_path}
use path_overlay.Rules.{is_reparse_point_path}
use path_overlay.Action.{OperationResult, success, actions, for_each, ignore}
use path_overlay.Metadata.Records.{
  renamed, OperationRecord, CleanupRecord, try_parse_change_state, change_state_to_string,
}
use path_overlay.Metadata.Sql.{Tables, insert_sorted, update_id, delete_rule_rows, has_id, find_id}
use path_overlay.Metadata.Store.{
  change_row, change_record, run_statement, run_query_one, delete_changes_for_rule,
  add_commit_record, add_or_update_change, delete_change, update_operation_record, get_rule,
  set_rule_enabled,
}
use path_overlay.Metadata.Changes.{find_change}
use path_overlay.Metadata.Changes.Statements.{
  Outcome, HasRows, upserted, without_key, without_rule, add_or_update_change_refines,
  delete_change_refines, delete_changes_for_rule_refines,
}
use path_overlay.Metadata.Owned.{IsOwned}
use path_overlay.Metadata.Owned.Calls.{
  StoreCall, upsert_rule_call, add_or_update_change_call, set_rule_enabled_call, delete_rule_call,
  recover_call, run_store_call, store_calls_keep_owners,
}
use path_overlay.Metadata.RoundTrip.{try_parse_change_state-to_string, change_record-change_row}
use path_overlay.Metadata.Recovery.{
  recovered_record, list_running_operations, restore_rule, recover_operation, recover_operations,
  recover_interrupted_operations,
}
use path_overlay.Metadata.Recovered.{recover_interrupted_operations_stops}
use path_overlay.Overlay.World.{World, perform, on_metadata, fail_filesystem_if}
use path_overlay.Overlay.FsPath.{
  display_path, filesystem_path, long_prefix, parent_path, drop_separators, drop_file_name,
}
use path_overlay.Overlay.RoundTrip.{display_path-filesystem_path}
use path_overlay.Overlay.Copy.{copy_path_with_parents, copy_file_with_parents}
use path_overlay.Overlay.Commit.{
  commit_record, backup_root, backup_path_for, drive_root, add_commit_log, fail_commit,
  fail_commit_if, or_fail_commit, back_up, commit_delete, commit_change, apply_changes, commit,
}
use path_overlay.Overlay.Discard.{
  queue_cleanup, isolate_shadow, discard_records, discard, process_cleanup_queue,
}
use path_overlay.Overlay.Cleared.{commit_clears, discard_clears}
use path_overlay.Overlay.Cleanup.{Cleaned, process_cleanup_queue_stays_in_stores}
use path_overlay.Overlay.OtherRules.Ending.{
  Call, copy_on_write_of, deletion_of, rename_to, commit_as, discard_all, run,
  calls_keep_other_rules,
}
use path_overlay.Tests.Toy.{
  toy, sqlite, rule, file, store, no_tables, two_disks, on_drive, is_on_d, toy_perform,
}
use path_overlay.Tests.Examples.{paths, files, world, deletion, deletion_row, deletion_world}

unfoldable pub methods : Unit {0}
unfolding files actions commit apply_changes commit_change commit_delete back_up or_fail_commit
    fail_commit_if fail_commit add_commit_log perform on_metadata copy_path_with_parents
    copy_file_with_parents run_statement delete_changes_for_rule add_commit_record delete_rule_rows
    backup_root backup_path_for drive_root parent_path drop_separators drop_file_name
    is_reparse_point_path fail_filesystem_if toy_perform on_drive is_on_d has_id commit_record
methods = tt

commit_run : (commit toy sqlite rule [] deletion_world).0 ≡ success tt
unfolding methods
commit_run = refl

pub of_success :
    {A S : Type 0} (p : OperationResult A × S) (a : A) → p.0 ≡ success a → p ≡ (success a, p.1)
of_success p a h = ap (λ r. (r, p.1)) h

-- A commit of a deletion, and a discard of it.
commit_clears_example :
    find_change rule.id file (commit toy sqlite rule [] deletion_world).1.tables.changes ≡ none
commit_clears_example =
    commit_clears toy sqlite rule [] deletion_world (commit toy sqlite rule [] deletion_world).1
      (of_success (commit toy sqlite rule [] deletion_world) tt commit_run) file

discard_run : (discard toy sqlite rule deletion_world).0 ≡ success tt
unfolding methods discard isolate_shadow discard_records queue_cleanup
discard_run = refl

discard_clears_example :
    find_change rule.id file (discard toy sqlite rule deletion_world).1.tables.changes ≡ none
discard_clears_example =
    discard_clears toy sqlite rule deletion_world (discard toy sqlite rule deletion_world).1
      (of_success (discard toy sqlite rule deletion_world) tt discard_run) file

-- A write, a deletion, a rename, a commit and a discard.
abbrev calls : List Call
calls =
    copy_on_write_of file
    ∷ deletion_of file
    ∷ rename_to file store
    ∷ commit_as []
    ∷ discard_all
    ∷ []

calls_keep_other_rules_example :
    ((for_each calls (run toy sqlite rule) world).1.tables.rules ≡ no_tables.rules)
    × ((id path : Text)
        → same_text rule.id id ≡ false
        → find_change id path (for_each calls (run toy sqlite rule) world).1.tables.changes
          ≡ find_change id path [])
calls_keep_other_rules_example = calls_keep_other_rules toy sqlite rule calls world

add_or_update_change_refines_example :
    Outcome no_tables
      (HasRows no_tables.rules (upserted (change_row sqlite toy rule.id deletion) []))
      (add_or_update_change sqlite toy rule.id deletion no_tables)
add_or_update_change_refines_example =
    add_or_update_change_refines sqlite toy rule.id deletion no_tables

delete_change_refines_example :
    Outcome deletion_world.tables
      (HasRows no_tables.rules
        (without_key rule.id (stored_text sqlite (normalize_path toy file)) (deletion_row ∷ [])))
      (delete_change sqlite toy rule.id file deletion_world.tables)
delete_change_refines_example = delete_change_refines sqlite toy rule.id file deletion_world.tables

delete_changes_for_rule_refines_example :
    Outcome deletion_world.tables
      (HasRows no_tables.rules (without_rule rule.id (deletion_row ∷ [])))
      (delete_changes_for_rule sqlite rule.id deletion_world.tables)
delete_changes_for_rule_refines_example =
    delete_changes_for_rule_refines sqlite rule.id deletion_world.tables

-- An operation that was interrupted while it was applying.
abbrev interrupted : OperationRecord
interrupted = record {
  id = 111 ∷ [];
  rule_id = rule.id;
  action = [];
  status = wide "running";
  phase = wide "applying";
  started_at = [];
  updated_at = [];
  finished_at = [];
  backup_root = [];
  error = [];
  rule_was_enabled = true;
}

abbrev interrupted_tables : Tables
interrupted_tables = record no_tables { operations = interrupted ∷ [] }

recovery_run :
    (recover_interrupted_operations sqlite interrupted_tables).0
    ≡ success (recovered_record interrupted ∷ [])
unfolding methods recover_interrupted_operations list_running_operations recover_operations
    recover_operation restore_rule recovered_record update_operation_record update_id get_rule
    run_query_one find_id set_rule_enabled insert_sorted
recovery_run = refl

recover_interrupted_operations_stops_example :
    All
      (λ (o : OperationRecord). same_text o.status (wide "running") ≡ false)
      (recover_interrupted_operations sqlite interrupted_tables).1.operations
recover_interrupted_operations_stops_example =
    recover_interrupted_operations_stops sqlite interrupted_tables
      (recover_interrupted_operations sqlite interrupted_tables).1
      (recovered_record interrupted ∷ [])
      (of_success (recover_interrupted_operations sqlite interrupted_tables)
        (recovered_record interrupted ∷ []) recovery_run)

-- A cleanup below the store, and one of the store itself.
abbrev cleanup_of : Text → CleanupRecord
cleanup_of path = record {
  id = path;
  rule_id = rule.id;
  path = path;
  status = wide "pending";
  attempts = 0;
  last_error = [];
  created_at = [];
  updated_at = [];
}

abbrev cleanup_world : World toy
cleanup_world = record world {
  tables = record no_tables {
    cleanup_queue = cleanup_of store ∷ cleanup_of (store ++ (92 ∷ 120 ∷ [])) ∷ [];
  };
}

process_cleanup_queue_stays_in_stores_example :
    ((process_cleanup_queue toy sqlite cleanup_world).1.tables.rules ≡ no_tables.rules)
    × Cleaned toy sqlite no_tables.rules two_disks
        (process_cleanup_queue toy sqlite cleanup_world).1.fs
process_cleanup_queue_stays_in_stores_example =
    process_cleanup_queue_stays_in_stores toy sqlite cleanup_world

normal_file : normalize_path toy file ≡ file
unfolding paths
normal_file = refl

normal_store : normalize_path toy store ≡ store
unfolding paths
normal_store = refl

no_target : {A : Type 0} → true ≡ false → A
no_target e = absurd (false≢true (sym e))

seven_fits : 7 < 2 ^ 64
seven_fits = omega arith

zero_fits : 0 < 2 ^ 64
zero_fits = omega arith

texts-IsKept :
    IsKept sqlite toy deletion.real_path
    × IsKept sqlite toy deletion.shadow_path
    × IsKept sqlite toy deletion.target_path
    × IsKept sqlite toy deletion.original_last_write_time
    × IsKept sqlite toy deletion.last_write_time
unfolding stored_text files
texts-IsKept = (refl, refl, refl, refl, refl)

change_record-change_row_example : change_record (change_row sqlite toy rule.id deletion) ≡ deletion
change_record-change_row_example =
    change_record-change_row sqlite toy rule.id deletion normal_file normal_store no_target
      texts-IsKept.0 texts-IsKept.1 texts-IsKept.2 texts-IsKept.3 texts-IsKept.4 seven_fits
      zero_fits

try_parse_change_state-to_string_example :
    try_parse_change_state (change_state_to_string renamed) ≡ some renamed
try_parse_change_state-to_string_example = try_parse_change_state-to_string renamed

file_is_short : starts_with file long_prefix ≡ false
unfolding paths
file_is_short = refl

display_path-filesystem_path_example : display_path (filesystem_path file) ≡ file
display_path-filesystem_path_example = display_path-filesystem_path file file_is_short

-- A rule with a deletion, and calls that end with the deletion of the rule.
abbrev owned_tables : Tables
owned_tables = record no_tables { rules = rule ∷ []; changes = deletion_row ∷ [] }

abbrev store_calls : List StoreCall
store_calls =
    upsert_rule_call rule
    ∷ add_or_update_change_call rule.id deletion
    ∷ set_rule_enabled_call rule.id false
    ∷ delete_rule_call rule.id
    ∷ recover_call
    ∷ []

owned_tables-IsOwned : IsOwned owned_tables
unfolding has_id same_text
owned_tables-IsOwned = (refl, tt)

store_calls_keep_owners_example :
    IsOwned (for_each store_calls (λ call. ignore (run_store_call sqlite toy call)) owned_tables).1
store_calls_keep_owners_example =
    store_calls_keep_owners sqlite toy store_calls owned_tables owned_tables-IsOwned
