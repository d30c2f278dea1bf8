-- ===== src/Tests/Served.antt =====
-- The driver and the service together, on the toy machine.
use path_overlay.Base.{◌≡◌, refl, ap, true, false, none, some, List, [], ◌∷◌, map}
use path_overlay.Metadata.Statement.{stored_text}
use path_overlay.Metadata.RoundTrip.{IsKept}
use path_overlay.Wide.{Text, same_text, same_text_refl}
use path_overlay.Paths.{normalize_path}
use path_overlay.Action.{success}
use path_overlay.Overlay.World.{World}
use path_overlay.Service.Thread.{answer_message, IsServed}
use path_overlay.Driver.Status
use path_overlay.Driver.Kernel.{RuleEntry, DriverState, Kernel}
use path_overlay.Driver.Access.{named}
use path_overlay.Driver.Create.{complete}
use path_overlay.Driver.SetInformation.{SetInformationCall, disposition_information}
use path_overlay.Base.Lists.{select}
use path_overlay.Metadata.Records.{ChangeRecord}
use path_overlay.Metadata.Sql.{ChangeRow, order_by}
use path_overlay.Metadata.Store.{change_record, list_changes, run_query}
use path_overlay.Service.Checked.{IsFound}
use path_overlay.Driver.Shadow.{built}
use path_overlay.Driver.Access.{CreateCall}
use path_overlay.Driver.Create.{source_of, pre_create}
use path_overlay.Driver.Query.{
  QueryCall, to_irp, pre_network_query_open, pre_query_open, should_defer_query_open,
}
use path_overlay.Driver.Tombstones.{IsHidden, callbacks_hide_tombstones}
use path_overlay.Driver.Deletion.{sent_id, service_path, deletion_hides_path}
use path_overlay.Tests.Toy.{lower, toy, sqlite, rule}
use path_overlay.Tests.Examples.{world}
use path_overlay.Tests.Runs.{methods}
use path_overlay.Tests.Answers.{devices}
use path_overlay.Service.NtPath.{
  trim_backslashes_reversed, trim_trailing_backslashes, copy_protocol_path,
  normalize_absolute_dos_path, device_path, dos_path_to_nt_path, behind_device,
  nt_path_to_dos_path_from, nt_path_to_dos_path,
}
use path_overlay.Service.Request.{
  answer_normal, answer_query, answer_result, answer_command, answer_for_rule,
  process_driver_request,
}
use path_overlay.Service.Hidden.{is_hidden_by_rename_source, is_tombstoned_in, is_tombstoned}
use path_overlay.Service.Thread.{status_code, state_code, reply_of, answer_message}
use path_overlay.Driver.Buffers.{
  zeros, null_terminated_length, text_of, chars_to_copy, copy_null_terminated,
  trim_slashes_reversed, trim_trailing_slashes,
}
use path_overlay.Driver.Components.{
  count_separators, count_component, next_path_component, component_matches, match_components,
  match_source_path_prefix, same_or_child_path,
}
use path_overlay.Driver.Cache.{
  copy_field, entry_of, set_rule, run_command, driver_message, is_service_process, match_entry,
  find_source_loop, find_store_loop, is_store_path, matched_source, find_source_rule,
  find_source_rule_for_path, find_source_or_store_rule,
}
use path_overlay.Driver.Send.{
  sent_text, request_of, is_too_long, starts_insensitive, contains_from, contains_insensitive,
  should_trace_pre_create, receive, send_service_request, trace_request, send_trace_request,
  snippet, trace_detail, trace_pre_create_decision,
}
use path_overlay.Driver.Shadow.{
  build_path, build_shadow_path, build_real_path_from_shadow, allocate_copy, nt_path_exists,
  query_path_information,
}
use path_overlay.Driver.Access.{
  file_name, may_write, desired_access, has_write_intent, is_directory_open,
  has_directory_create_hint, should_pass_through_reparse_point_open,
}
use path_overlay.Driver.SetInformation.{
  is_rename, deletes, real_path_of, is_passed, send_rename, rename_both, rename_found, rename_to,
  rename_in_rule, delete_in_rule, pre_set_information,
}
use path_overlay.Overlay.Prepare.{
  check_scope, hide_tombstone, show_child, view_entry, view_entries, prepare_directory_view,
  copy_file_on_write, copy_kind_on_write, prepare_copy_on_write, renamed_target_round,
  renamed_target_loop, prepare_renamed_target_path, record_created_file, record_delete,
}
use path_overlay.Action.{
  fail, gets, attempt, ignore, or_fail, fail_if, when, on_option, on_result, for_each, actions,
}
use path_overlay.Metadata.Store.{get_rule, run_query_one, add_or_update_change, change_row}
use path_overlay.Metadata.Sql.{find_id, has_change, is_change_key, upsert_change_row, update_change}
use path_overlay.Overlay.Records.{persist_change, persisted_record}
use path_overlay.Rules.{
  find_first_reparse_point_in_rule_path, find_reparse_loop, next_component, is_reparse_point_path,
  validate_real_path_in_rule, map_real_path_to_shadow_path,
}
use path_overlay.Driver.Kernel.{reads}

-- A volume with the service behind the port.
abbrev served_volume : Kernel (World toy)
served_volume = record {
  upcase = λ ch. ch;
  equal_unicode_string = same_text;
  compares_equal = same_text;
  allocate_pool = λ bytes s. true;
  at_passive_level = λ s. true;
  create_file = λ path s. 0;
  query_information = λ path size s. (0, size);
  replace_file_object_name = λ path s. 0;
  send_message = λ request s. (
    (answer_message toy devices sqlite request s.outside).0,
    record s { outside = (answer_message toy devices sqlite request s.outside).1 },
  );
  format_detail = λ detail. none;
}

served_volume-IsServed : IsServed toy devices sqlite served_volume
served_volume-IsServed request s = refl

-- `\C\src`, `\D\b` and `\C\src\a`
abbrev rule_entry : RuleEntry
rule_entry = record {
  rule_id = 114 ∷ 0 ∷ [];
  source_nt_path = 92 ∷ 67 ∷ 92 ∷ 115 ∷ 114 ∷ 99 ∷ 0 ∷ [];
  source_alias_nt_path = 0 ∷ [];
  store_nt_path = 92 ∷ 68 ∷ 92 ∷ 98 ∷ 0 ∷ [];
}

abbrev nt_file : Text
nt_file = 92 ∷ 67 ∷ 92 ∷ 115 ∷ 114 ∷ 99 ∷ 92 ∷ 97 ∷ []

abbrev served_driver : DriverState (World toy)
served_driver = record {
  filter_handle = true;
  server_port = true;
  client_port = true;
  cache = record { service_process_id = 4; rules = rule_entry ∷ [] };
  outside = world;
}

abbrev file_deletion : SetInformationCall
file_deletion = record {
  requestor = 8;
  normalized_name = named nt_file;
  information_class = disposition_information;
  rename_buffer = none;
  delete_file = some true;
  disposition_flags = none;
}

unfoldable service_calls : Unit {0}
unfolding methods trim_backslashes_reversed trim_trailing_backslashes copy_protocol_path
    normalize_absolute_dos_path device_path dos_path_to_nt_path behind_device
    nt_path_to_dos_path_from nt_path_to_dos_path answer_normal answer_query answer_result
    answer_command answer_for_rule process_driver_request is_hidden_by_rename_source
    is_tombstoned_in is_tombstoned status_code state_code reply_of answer_message check_scope
    hide_tombstone show_child view_entry view_entries prepare_directory_view copy_file_on_write
    copy_kind_on_write prepare_copy_on_write renamed_target_round renamed_target_loop
    prepare_renamed_target_path record_created_file record_delete fail gets attempt ignore or_fail
    fail_if when on_option on_result for_each actions get_rule run_query_one find_id
    add_or_update_change change_row has_change is_change_key upsert_change_row update_change
    persist_change persisted_record find_first_reparse_point_in_rule_path find_reparse_loop
    next_component is_reparse_point_path validate_real_path_in_rule map_real_path_to_shadow_path
    path_overlay.Action.◌>>=◌ path_overlay.Action.pure
service_calls = tt

unfoldable driver_calls : Unit {0}
unfolding zeros null_terminated_length text_of chars_to_copy copy_null_terminated
    trim_slashes_reversed trim_trailing_slashes count_separators count_component next_path_component
    component_matches match_components match_source_path_prefix same_or_child_path copy_field
    entry_of set_rule run_command driver_message is_service_process match_entry find_source_loop
    find_store_loop is_store_path matched_source find_source_rule find_source_rule_for_path
    find_source_or_store_rule sent_text request_of is_too_long starts_insensitive contains_from
    contains_insensitive should_trace_pre_create receive send_service_request trace_request
    send_trace_request snippet trace_detail trace_pre_create_decision build_path build_shadow_path
    build_real_path_from_shadow allocate_copy nt_path_exists query_path_information file_name
    may_write desired_access has_write_intent is_directory_open has_directory_create_hint
    should_pass_through_reparse_point_open is_rename deletes real_path_of is_passed send_rename
    rename_both rename_found rename_to rename_in_rule delete_in_rule pre_set_information
    path_overlay.Driver.Kernel.◌>>=◌ path_overlay.Driver.Kernel.pure reads
driver_calls = tt

deletion_ends : (pre_set_information served_volume file_deletion served_driver).0 ≡ complete 0 0
unfolding service_calls driver_calls
deletion_ends = refl

abbrev after_deletion : DriverState (World toy)
after_deletion = (pre_set_information served_volume file_deletion served_driver).1

rule-IsFound : IsFound toy devices sqlite (sent_id rule_entry) rule after_deletion.outside
unfolding service_calls driver_calls
rule-IsFound = (refl, refl)

nothing_on_the_way :
    find_first_reparse_point_in_rule_path toy after_deletion.outside.fs rule
      (service_path toy devices nt_file)
    ≡ none
unfolding service_calls driver_calls
nothing_on_the_way = refl

path_normal :
    normalize_path toy (normalize_path toy (service_path toy devices nt_file))
    ≡ normalize_path toy (service_path toy devices nt_file)
unfolding service_calls driver_calls
path_normal = refl

abbrev records_after : List ChangeRecord
records_after = map change_record (
    order_by (λ (a b : ChangeRow). true)
      (select (λ (row : ChangeRow). same_text row.rule_id rule.id)
        after_deletion.outside.tables.changes))

records_listed :
    list_changes sqlite rule.id after_deletion.outside.tables
    ≡ (success records_after, after_deletion.outside.tables)
unfolding list_changes run_query
records_listed = refl

abbrev nt_shadow : Text
nt_shadow = 92 ∷ 68 ∷ 92 ∷ 98 ∷ 92 ∷ 97 ∷ []

abbrev nt_source : Text
nt_source = 92 ∷ 67 ∷ 92 ∷ 115 ∷ 114 ∷ 99 ∷ []

file_has_rule :
    find_source_rule_for_path served_volume served_driver.cache nt_file
    ≡ some (rule_entry, nt_source)
unfolding service_calls driver_calls
file_has_rule = refl

file_has_shadow :
    build_shadow_path served_volume
      (text_of rule_entry.store_nt_path)
      (source_of rule_entry nt_source)
      nt_file
      after_deletion
    ≡ built nt_shadow
unfolding driver_calls source_of
file_has_shadow = refl

asks_deletion : deletes file_deletion ≡ true
unfolding deletes
asks_deletion = refl

abbrev file_open : CreateCall
file_open = record {
  requestor = 8;
  normalized_name = named nt_file;
  opened_name = named nt_file;
  options = 0;
  file_attributes = 0;
  security_context = none;
  file_object_name = none;
}

abbrev file_query : QueryCall
file_query = record {
  requestor = 8;
  normalized_name = named nt_file;
  opened_name = named nt_file;
  buffer_length = some 56;
  has_irp = true;
}

file_named : file_name (named nt_file) (named nt_file) ≡ named nt_file
unfolding file_name
file_named = refl

other_process : is_service_process served_driver.cache 8 ≡ false
unfolding is_service_process
other_process = refl

path-IsKept : IsKept sqlite toy (normalize_path toy (service_path toy devices nt_file))
unfolding service_calls driver_calls stored_text
path-IsKept = refl

deletion_hides_path_example :
    ((pre_create served_volume file_open after_deletion).0
      ≡ complete Status.object_name_not_found 0)
    × ((pre_query_open served_volume file_query after_deletion).0
        ≡ complete Status.object_name_not_found 0)
    × ((pre_network_query_open served_volume file_query after_deletion).0 ≡ (
      complete Status.success 0,
      to_irp served_volume file_query Status.object_name_not_found 0,
    ))
    × ((should_defer_query_open served_volume file_query after_deletion).0 ≡ true)
deletion_hides_path_example =
    deletion_hides_path toy devices sqlite served_volume served_volume-IsServed
      (λ text. same_text_refl (map lower text)) file_deletion file_open file_query nt_file nt_source
      nt_shadow rule_entry served_driver after_deletion 0 0 rule records_after other_process refl
      file_has_rule asks_deletion (ap (λ how. (how, after_deletion)) deletion_ends) refl path_normal
      path-IsKept rule-IsFound nothing_on_the_way records_listed file_has_shadow other_process
      other_process file_named file_named

-- A service that answers every query by a tombstone.
abbrev hidden_volume : Kernel (World toy)
hidden_volume = record served_volume {
  send_message = λ request s. ((0, record { status = 0; path_state = 1; shadow_nt_path = [] }), s);
}

IsHidden-file : IsHidden hidden_volume rule_entry nt_file served_driver
unfolding driver_calls
IsHidden-file = refl

hidden_has_rule :
    find_source_rule_for_path hidden_volume served_driver.cache nt_file
    ≡ some (rule_entry, nt_source)
unfolding service_calls driver_calls
hidden_has_rule = refl

hidden_has_shadow :
    build_shadow_path hidden_volume
      (text_of rule_entry.store_nt_path)
      (source_of rule_entry nt_source)
      nt_file
      served_driver
    ≡ built nt_shadow
unfolding driver_calls source_of
hidden_has_shadow = refl

callbacks_hide_tombstones_example :
    ((pre_create hidden_volume file_open served_driver).0 ≡ complete Status.object_name_not_found 0)
    × ((pre_query_open hidden_volume file_query served_driver).0
        ≡ complete Status.object_name_not_found 0)
    × ((pre_network_query_open hidden_volume file_query served_driver).0 ≡ (
      complete Status.success 0,
      to_irp hidden_volume file_query Status.object_name_not_found 0,
    ))
    × ((should_defer_query_open hidden_volume file_query served_driver).0 ≡ true)
callbacks_hide_tombstones_example =
    callbacks_hide_tombstones hidden_volume nt_file rule_entry nt_source nt_shadow served_driver
      hidden_has_rule hidden_has_shadow IsHidden-file file_open file_query other_process
      other_process file_named file_named
