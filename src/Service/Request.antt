-- ===== src/Service/Request.antt =====
-- `ProcessDriverRequest` of service/PathOverlaySvc/main.cpp, with the messages of
-- common/path_overlay_protocol.h. What is written to the log is left out.
use path_overlay.Base.{ℕ, ◌&&◌, ◌||◌, not, [], ◌==◌, if◌then◌else◌}
use path_overlay.Wide.{Text, is_empty}
use path_overlay.Os.{Os}
use path_overlay.Rules.{OverlayRule, find_first_reparse_point_in_rule_path}
use path_overlay.Action.{pure, gets, attempt, on_result, on_option, ◌>>=◌}
use path_overlay.Metadata.Sql.{Engine}
use path_overlay.Metadata.Store.{get_rule}
use path_overlay.Overlay.World.{M, on_metadata}
use path_overlay.Overlay.Prepare.{
  is_some, prepare_copy_on_write, prepare_directory_view, prepare_renamed_target_path,
  record_delete,
}
use path_overlay.Overlay.Rename.{record_rename}
use path_overlay.Service.NtPath.{
  Devices, copy_protocol_path, dos_path_to_nt_path, nt_path_to_dos_path,
}
use path_overlay.Service.Hidden.{is_tombstoned}

-- The status codes that the service answers with.
pub data NtStatus : Type 0 where
  status_success status_unsuccessful object_name_not_found : NtStatus

pub data PathState : Type 0 where
  normal tombstoned passthrough : PathState

pub record ServiceRequest : Type 0 where
  pub version : ℕ
  pub command : ℕ
  pub rule_id : Text
  pub real_nt_path : Text
  pub target_nt_path : Text

pub record ServiceResponse : Type 0 where
  pub status : NtStatus
  pub path_state : PathState
  pub shadow_nt_path : Text

-- The commands, and the sizes of the protocol.
abbrev pub query_path : ℕ
query_path = 1

abbrev pub prepare_copy_on_write_command : ℕ
prepare_copy_on_write_command = 2

abbrev pub record_delete_command : ℕ
record_delete_command = 3

abbrev pub prepare_directory_view_command : ℕ
prepare_directory_view_command = 4

abbrev pub record_rename_command : ℕ
record_rename_command = 5

abbrev pub trace_create : ℕ
trace_create = 6

abbrev pub protocol_version : ℕ
protocol_version = 2

abbrev pub max_path_chars : ℕ
max_path_chars = 520

abbrev pub respond : NtStatus → PathState → Text → ServiceResponse
respond status path_state shadow = record {
  status = status;
  path_state = path_state;
  shadow_nt_path = shadow;
}

module _ (os : Os) (devices : Devices) (engine : Engine) where
  -- The branch for `QueryPath` once the path is known not to be hidden.
  unfoldable pub answer_normal : OverlayRule → Text → M os ServiceResponse
  answer_normal rule real_path = do
    target ← attempt (prepare_renamed_target_path os engine rule real_path)
    on_result target
        (λ renamed_shadow.
          if is_empty renamed_shadow
          then pure (respond status_success normal [])
          else (let nt_path = dos_path_to_nt_path os devices renamed_shadow in
              if is_empty nt_path
              then pure (respond status_unsuccessful normal [])
              else on_option (copy_protocol_path nt_path max_path_chars)
                  (pure (respond status_unsuccessful normal []))
                  (λ copied. pure (respond status_success normal copied))))
        (λ _. pure (respond status_unsuccessful normal []))

  -- The branch for `QueryPath`.
  unfoldable pub answer_query : OverlayRule → Text → M os ServiceResponse
  answer_query rule real_path = do
    world ← gets (λ w. w)
    if is_some (find_first_reparse_point_in_rule_path os world.fs rule real_path)
        then pure (respond status_success passthrough [])
        else (if is_tombstoned os engine world rule.id real_path
            then pure (respond status_success tombstoned [])
            else answer_normal rule real_path)

  -- The status of a method's result.
  unfoldable pub answer_result : {A : Type 0} → M os A → M os ServiceResponse
  answer_result m = do
    result ← attempt m
    on_result result (λ _. pure (respond status_success normal []))
        (λ _. pure (respond status_unsuccessful normal []))

  -- The commands, for a rule that is enabled.
  unfoldable pub answer_command : ℕ → OverlayRule → Text → Text → M os ServiceResponse
  answer_command command rule real_path target_path =
      if command == query_path
      then answer_query rule real_path
      else if command == prepare_copy_on_write_command
      then answer_result (prepare_copy_on_write os engine rule real_path)
      else if command == prepare_directory_view_command
      then answer_result (prepare_directory_view os engine rule real_path)
      else if command == record_delete_command
      then answer_result (record_delete os engine rule real_path)
      else if command == record_rename_command
      then answer_result (record_rename os engine rule real_path target_path)
      else pure (respond status_unsuccessful normal [])

  -- The part of `ProcessDriverRequest` that looks for the rule.
  unfoldable pub answer_for_rule : ServiceRequest → Text → Text → M os ServiceResponse
  answer_for_rule request real_path target_path = do
    found ← attempt (on_metadata os (get_rule engine request.rule_id))
    on_result found
        (λ rule.
          if not rule.enabled
          then pure (respond object_name_not_found normal [])
          else answer_command request.command rule real_path target_path)
        (λ _. pure (respond object_name_not_found normal []))

  -- `ProcessDriverRequest`
  unfoldable pub process_driver_request : ServiceRequest → M os ServiceResponse
  process_driver_request request =
      let real_path = nt_path_to_dos_path os devices request.real_nt_path in
      let target_path = nt_path_to_dos_path os devices request.target_nt_path in
      if not (request.version == protocol_version)
      then pure (respond status_unsuccessful normal [])
      else if request.command == trace_create
      then pure (respond status_success normal [])
      else if is_empty real_path
      then pure (respond status_unsuccessful normal [])
      else if request.command == record_rename_command && is_empty target_path
      then pure (respond status_unsuccessful normal [])
      else if not devices.metadata_opens || is_empty request.rule_id
      then pure (respond status_unsuccessful normal [])
      else answer_for_rule request real_path target_path
