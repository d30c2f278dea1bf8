-- ===== src/Driver/Deletion.antt =====
-- The driver and the service together: driver/PathOverlayFlt/Driver.c, with the service of
-- service/PathOverlaySvc/main.cpp behind its port.
pub mod Requests
use path_overlay.Base.{
  ℕ, ◌≡◌, ◌≢◌, refl, sym, ap, subst, ◌∙◌, inl, inr, Bool, true, false, ◌&&◌, ◌||◌, not, Bool-cases,
  Option, none, some, List, [], length, ◌==◌, if◌then◌else◌, arith,
}
use mathlib.Core.Bool.{false≢true}
use path_overlay.Metadata.RoundTrip.{IsKept}
use path_overlay.Wide.{Text}
use path_overlay.Os.{Os}
use path_overlay.Paths.{normalize_path}
use path_overlay.Rules.{OverlayRule, find_first_reparse_point_in_rule_path}
use path_overlay.Action.{OperationResult, success, failure}
use path_overlay.Metadata.Records.{ChangeRecord}
use path_overlay.Metadata.Sql.{Engine}
use path_overlay.Metadata.Store.{list_changes}
use path_overlay.Overlay.World.{World}
use path_overlay.Service.NtPath.{Devices, nt_path_to_dos_path}
use path_overlay.Service.Request.{
  respond, tombstoned, NtStatus, status_success, status_unsuccessful, object_name_not_found,
  ServiceRequest, ServiceResponse, query_path, record_delete_command, max_path_chars,
  process_driver_request,
}
use path_overlay.Service.Thread.{status_code, state_code, reply_of, answer_message, IsServed}
use path_overlay.Service.Checked.{Succeeds, IsFound}
use path_overlay.Service.Served.{deleted_path_is_tombstoned}
use path_overlay.Driver.Status
use path_overlay.Driver.Status.{nt_success}
use path_overlay.Driver.Kernel.{RuleEntry, DriverState, Kernel, Reply, D, ◌>>=◌, pure, reads}
use path_overlay.Driver.Buffers.{Buffer, null_terminated_length, text_of}
use path_overlay.Driver.Cache.{
  max_rule_id_chars, is_service_process, is_store_path, find_source_rule, find_source_rule_for_path,
  find_source_or_store_rule,
}
use path_overlay.Driver.Access.{named, CreateCall, file_name}
use path_overlay.Driver.Send.{
  no_reply, sent_text, request_of, is_too_long, receive, send_service_request,
}
use path_overlay.Driver.Shadow.{built, build_shadow_path}
use path_overlay.Driver.Create.{
  Preop, passthrough_state, success_no_callback, complete, source_of, pre_create,
}
use path_overlay.Driver.SetInformation.{
  InformationClass, rename_information, rename_information_ex,
  rename_information_bypass_access_check, rename_information_ex_bypass_access_check,
  other_information, SetInformationCall, disposition_information, disposition_information_ex,
  is_rename, deletes, real_path_of, is_passed, delete_in_rule, pre_set_information,
}
use path_overlay.Driver.Query.{
  QueryCall, to_irp, pre_network_query_open, pre_query_open, should_defer_query_open,
}
use path_overlay.Driver.Tombstones.{IsTombstone, IsHidden, callbacks_hide_tombstones}
use path_overlay.Driver.Deletion.Requests.{
  status_code-success, from_if, or_left, negated, not_complete, same_status, both_pass,
  find_source_or_store_rule-source, sent-open, delete_in_rule-sends, deletes-no_rename, both_false,
  kept, served_request, receive-state, request_keeps_driver, received_success, answer_message-state,
  answer_message-IsTombstone,
}

-- The identifier and the path that the service gets in a request.
abbrev pub sent_id : RuleEntry → Text
sent_id entry = sent_text max_rule_id_chars entry.rule_id (null_terminated_length entry.rule_id)

abbrev pub service_path : Os → Devices → Text → Text
service_path os devices path =
    nt_path_to_dos_path os devices (sent_text max_path_chars path (length path))

module _ (os : Os) (devices : Devices) (engine : Engine) (kernel : Kernel (World os))
    (served : IsServed os devices engine kernel) where
  -- A deletion that the service has accepted, in state `s`.
  module _ (path : Text) (entry : RuleEntry) (s : DriverState (World os))
      (done : nt_success
          (send_service_request kernel record_delete_command entry.rule_id path none s).0.0
        ≡ true) where
    abbrev deletion : ServiceRequest
    deletion = request_of record_delete_command entry.rule_id path none

    abbrev after : DriverState (World os)
    after = (send_service_request kernel record_delete_command entry.rule_id path none s).1

    deletion-Succeeds :
        Succeeds (process_driver_request os devices engine deletion s.outside)
        × (after ≡ record s {
          outside = (process_driver_request os devices engine deletion s.outside).1;
        })
    deletion-Succeeds =
        let (connected, short) = sent-open kernel record_delete_command entry.rule_id path s done in
        let reached =
          served_request os devices engine kernel served record_delete_command entry.rule_id path s
            connected short in
        (
          received_success os devices engine kernel served deletion s.outside _
              (ap (λ m. nt_success m.0.0) (sym reached) ∙ done),
          ap (λ m. m.1) reached
              ∙ (receive-state os devices engine kernel served _
                  ∙ ap (λ w. record s { outside = w })
                      (answer_message-state os devices engine kernel served deletion s.outside)),
        )

    deletion-IsHidden :
        ((text : Text) → os.wcsicmp text text ≡ true)
        → (rule : OverlayRule) (records : List ChangeRecord)
        → normalize_path os (normalize_path os (service_path os devices path))
          ≡ normalize_path os (service_path os devices path)
        → IsKept engine os (normalize_path os (service_path os devices path))
        → IsFound os devices engine (sent_id entry) rule after.outside
        → find_first_reparse_point_in_rule_path os after.outside.fs rule
            (service_path os devices path)
          ≡ none
        → list_changes engine rule.id after.outside.tables ≡ (success records, after.outside.tables)
        → IsHidden kernel entry path after
    unfolding request_of
    deletion-IsHidden reflexive rule records is_normal kept found no_reparse listed =
        let (connected, short) = sent-open kernel record_delete_command entry.rule_id path s done in
        let (succeeds, state) = deletion-Succeeds in
        let query = request_of query_path entry.rule_id path none in
        subst IsTombstone
          (sym (
            ap (λ m. m.0)
              (served_request os devices engine kernel served query_path entry.rule_id path after
                (ap (λ t. t.client_port) state ∙ connected) short)))
          (answer_message-IsTombstone os devices engine kernel served query after.outside _ (
            deleted_path_is_tombstoned os devices engine reflexive deletion query rule s.outside
              after.outside records is_normal kept refl succeeds (sym (ap (λ t. t.outside) state))
              (refl, refl, refl) refl found no_reparse listed))

IsHidden-after :
    (os : Os) (devices : Devices) (engine : Engine) (kernel : Kernel (World os))
    (served : IsServed os devices engine kernel) (path : Text) (entry : RuleEntry)
    (s : DriverState (World os))
    (done : nt_success
        (send_service_request kernel record_delete_command entry.rule_id path none s).0.0
      ≡ true)
    (t : DriverState (World os))
    → (send_service_request kernel record_delete_command entry.rule_id path none s).1 ≡ t
    → ((text : Text) → os.wcsicmp text text ≡ true)
    → (rule : OverlayRule) (records : List ChangeRecord)
    → normalize_path os (normalize_path os (service_path os devices path))
      ≡ normalize_path os (service_path os devices path)
    → IsKept engine os (normalize_path os (service_path os devices path))
    → IsFound os devices engine (sent_id entry) rule t.outside
    → find_first_reparse_point_in_rule_path os t.outside.fs rule (service_path os devices path)
      ≡ none
    → list_changes engine rule.id t.outside.tables ≡ (success records, t.outside.tables)
    → IsHidden kernel entry path t
IsHidden-after os devices engine kernel served path entry s done t same reflexive rule records
      is_normal kept =
    subst
      (λ u.
        IsFound os devices engine (sent_id entry) rule u.outside
        → find_first_reparse_point_in_rule_path os u.outside.fs rule (service_path os devices path)
          ≡ none
        → list_changes engine rule.id u.outside.tables ≡ (success records, u.outside.tables)
        → IsHidden kernel entry path u)
      same
      (deletion-IsHidden os devices engine kernel served path entry s done reflexive rule records
        is_normal kept)

pre_set_information-deletes :
    {S : Type 0} (kernel : Kernel S) (call : SetInformationCall) (path : Text) (entry : RuleEntry)
    (matched : Text) (s : DriverState S)
    → is_service_process s.cache call.requestor ≡ false
    → call.normalized_name ≡ named path
    → find_source_rule_for_path kernel s.cache path ≡ some (entry, matched)
    → deletes call ≡ true
    → pre_set_information kernel call s ≡ delete_in_rule kernel entry true path s
unfolding pre_set_information ◌>>=◌ reads
pre_set_information-deletes kernel call path entry matched s other name found asks =
    rw
      (
        other,
        name,
        find_source_or_store_rule-source kernel path s found,
        deletes-no_rename call asks,
        asks,
      )
      refl

-- A file that is deleted through the driver is gone: once `PathOverlayPreSetInformation` has completed a deletion
-- with a success, an open of the path and the queries about it are answered by no such name, in
-- every process but the service. The service runs behind the port and answers every message in time; after
-- the deletion it still finds the rule, enabled, reads its records, and finds no reparse point on the way
-- to the path. The path has one rule and its shadow is built; the normal form of its name for the service
-- is its own, and is read from the table as it was bound: so it is for well-formed UTF-16, not where a
-- surrogate stands alone; and `_wcsicmp` finds a text equal to itself.
pub deletion_hides_path :
    (os : Os) (devices : Devices) (engine : Engine) (kernel : Kernel (World os))
    → IsServed os devices engine kernel
    → ((text : Text) → os.wcsicmp text text ≡ true)
    → (call : SetInformationCall) (create : CreateCall) (query : QueryCall)
      (path matched shadow : Text) (entry : RuleEntry) (s t : DriverState (World os))
      (status information : ℕ) (rule : OverlayRule) (records : List ChangeRecord)
    → is_service_process s.cache call.requestor ≡ false
    → call.normalized_name ≡ named path
    → find_source_rule_for_path kernel s.cache path ≡ some (entry, matched)
    → deletes call ≡ true
    → pre_set_information kernel call s ≡ (complete status information, t)
    → nt_success status ≡ true
    → normalize_path os (normalize_path os (service_path os devices path))
      ≡ normalize_path os (service_path os devices path)
    → IsKept engine os (normalize_path os (service_path os devices path))
    → IsFound os devices engine (sent_id entry) rule t.outside
    → find_first_reparse_point_in_rule_path os t.outside.fs rule (service_path os devices path)
      ≡ none
    → list_changes engine rule.id t.outside.tables ≡ (success records, t.outside.tables)
    → build_shadow_path kernel (text_of entry.store_nt_path) (source_of entry matched) path t
      ≡ built shadow
    → is_service_process s.cache create.requestor ≡ false
    → is_service_process s.cache query.requestor ≡ false
    → file_name create.normalized_name create.opened_name ≡ named path
    → file_name query.normalized_name query.opened_name ≡ named path
    → ((pre_create kernel create t).0 ≡ complete Status.object_name_not_found 0)
      × ((pre_query_open kernel query t).0 ≡ complete Status.object_name_not_found 0)
      × ((pre_network_query_open kernel query t).0
          ≡ (complete Status.success 0, to_irp kernel query Status.object_name_not_found 0))
      × ((should_defer_query_open kernel query t).0 ≡ true)
deletion_hides_path os devices engine kernel served reflexive call create query path matched shadow
      entry s t status information rule records other name found asks ends succeeds is_normal kept
      rule_found no_reparse listed is_built other_create other_query create_name query_name =
    let asked = (send_service_request kernel query_path entry.rule_id path none s).1 in
    let (asked_cache, asked_port) =
      request_keeps_driver os devices engine kernel served query_path entry.rule_id path s in
    let runs = pre_set_information-deletes kernel call path entry matched s other name found asks in
    let (same_status, same_state) =
      delete_in_rule-sends kernel entry path s status information
        (ap (λ m. m.0) (sym runs ∙ ends)) in
    let done : nt_success
          (send_service_request kernel record_delete_command entry.rule_id path none asked).0.0
        ≡ true =
      ap nt_success same_status ∙ succeeds in
    let (sent_cache, sent_port) =
      request_keeps_driver os devices engine kernel served record_delete_command entry.rule_id path
        asked in
    let same : after os devices engine kernel served path entry asked done ≡ t =
      sym same_state ∙ ap (λ m. m.1) (sym runs ∙ ends) in
    let cache : t.cache ≡ s.cache = ap (λ u. u.cache) (sym same) ∙ (sent_cache ∙ asked_cache) in
    let hidden : IsHidden kernel entry path t =
      IsHidden-after os devices engine kernel served path entry asked done t same reflexive rule
        records is_normal kept rule_found no_reparse listed in
    callbacks_hide_tombstones kernel path entry matched shadow t
      (ap (λ c. find_source_rule_for_path kernel c path) cache ∙ found) is_built hidden create query
      (ap (λ c. is_service_process c create.requestor) cache ∙ other_create)
      (ap (λ c. is_service_process c query.requestor) cache ∙ other_query) create_name query_name
