-- ===== src/Tests/Answers.antt =====
-- The theorems on the service at concrete inputs.
use path_overlay.Base.{◌≡◌, refl, true, List, [], ◌∷◌, some, map, take}
use path_overlay.Base.Lists.{select}
use path_overlay.Metadata.Statement.{stored_text}
use path_overlay.Metadata.RoundTrip.{IsKept}
use path_overlay.Wide.{Text, same_text, same_text_refl}
use path_overlay.Paths.{normalize_path}
use path_overlay.Rules.{
  find_first_reparse_point_in_rule_path, find_reparse_loop, next_component, is_reparse_point_path,
  validate_real_path_in_rule, map_real_path_to_shadow_path,
}
use path_overlay.Action.{success}
use path_overlay.Metadata.Records.{ChangeRecord}
use path_overlay.Metadata.Sql.{
  ChangeRow, order_by, has_change, is_change_key, upsert_change_row, update_change,
}
use path_overlay.Metadata.Store.{
  change_record, change_row, list_changes, run_query, add_or_update_change,
}
use path_overlay.Overlay.World.{World}
use path_overlay.Overlay.Records.{persist_change, persisted_record}
use path_overlay.Overlay.Prepare.{record_delete, check_scope}
use path_overlay.Service.Hidden.{is_tombstoned}
use path_overlay.Service.Deleted.{record_delete_hides}
use path_overlay.Service.NtPath.{Devices}
use path_overlay.Service.Request.{ServiceRequest, process_driver_request}
use path_overlay.Service.Answered.{IsProper, process_driver_request_acts_for_enabled_rules}
use path_overlay.Tests.Toy.{toy, sqlite, rule, file, lower}
use path_overlay.Tests.Examples.{paths, rules, world}
use path_overlay.Tests.Runs.{methods, of_success}

-- The file is deleted in the overlay.
deletion_run : (record_delete toy sqlite rule file world).0 ≡ success tt
unfolding methods rules record_delete check_scope persist_change persisted_record
    find_first_reparse_point_in_rule_path find_reparse_loop next_component is_reparse_point_path
    validate_real_path_in_rule map_real_path_to_shadow_path add_or_update_change change_row
    has_change is_change_key upsert_change_row update_change
deletion_run = refl

abbrev after : World toy
after = (record_delete toy sqlite rule file world).1

abbrev listed_records : List ChangeRecord
listed_records = map change_record (
    order_by (λ (a b : ChangeRow). true)
      (select (λ (row : ChangeRow). same_text row.rule_id rule.id) after.tables.changes))

listed : list_changes sqlite rule.id after.tables ≡ (success listed_records, after.tables)
unfolding list_changes run_query
listed = refl

toy_reflexive : (s : Text) → toy.wcsicmp s s ≡ true
toy_reflexive s = same_text_refl (map lower s)

file_normal : normalize_path toy (normalize_path toy file) ≡ normalize_path toy file
unfolding paths
file_normal = refl

file-IsKept : IsKept sqlite toy (normalize_path toy file)
unfolding paths stored_text
file-IsKept = refl

record_delete_hides_example : is_tombstoned toy sqlite after rule.id file ≡ true
record_delete_hides_example =
    record_delete_hides toy sqlite rule file toy_reflexive file_normal file-IsKept world after
      (of_success (record_delete toy sqlite rule file world) tt deletion_run) listed_records listed

-- Each drive is a device with the name of its letter.
abbrev pub devices : Devices
devices = record {
  query_dos_device = λ drive. some (92 ∷ take 1 drive);
  wcsnicmp = λ s t n. same_text (take n s) (take n t);
  metadata_opens = true;
}

abbrev delete_request : ServiceRequest
delete_request = record {
  version = 2;
  command = 3;
  rule_id = rule.id;
  real_nt_path = 92 ∷ 67 ∷ 92 ∷ 115 ∷ 114 ∷ 99 ∷ 92 ∷ 97 ∷ [];
  target_nt_path = [];
}

process_driver_request_acts_for_enabled_rules_example :
    IsProper toy devices sqlite delete_request world
      (process_driver_request toy devices sqlite delete_request world)
process_driver_request_acts_for_enabled_rules_example =
    process_driver_request_acts_for_enabled_rules toy devices sqlite delete_request world
