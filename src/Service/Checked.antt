-- ===== src/Service/Checked.antt =====
-- What `ProcessDriverRequest` of service/PathOverlaySvc/main.cpp has checked when it answers with a success.
use path_overlay.Base.{
  ◌≡◌, ◌≢◌, refl, sym, subst, Bool, true, false, ◌&&◌, ◌||◌, not, ◌==◌, [], if◌then◌else◌, arith,
}
use mathlib.Core.Bool.{false≢true}
use path_overlay.Wide.{Text, is_empty}
use path_overlay.Os.{Os}
use path_overlay.Rules.{OverlayRule}
use path_overlay.Action.{OperationResult, success, failure, pure, attempt, on_result, ◌>>=◌}
use path_overlay.Metadata.Sql.{Engine}
use path_overlay.Metadata.Store.{get_rule}
use path_overlay.Overlay.World.{World, M, on_metadata}
use path_overlay.Overlay.Cleanup.{get_rule-Member}
use path_overlay.Service.NtPath.{Devices, nt_path_to_dos_path}
use path_overlay.Service.Request.{
  ServiceRequest, ServiceResponse, status_unsuccessful, status_success, object_name_not_found,
  normal, respond, answer_command, answer_for_rule, process_driver_request, protocol_version,
  trace_create, record_rename_command,
}

-- The response is a success.
abbrev pub Succeeds : {A : Type 0} → OperationResult ServiceResponse × A → Type 0
Succeeds (success response, t) = response.status ≡ status_success
Succeeds (failure message, t) = ⊥

pub unsuccessful_is_none : status_unsuccessful ≢ status_success
unsuccessful_is_none e = cc

pub not_found_is_none : object_name_not_found ≢ status_success
not_found_is_none e = cc

module _ (os : Os) (devices : Devices) (engine : Engine) where
  -- What the service checks of a request.
  pub record IsChecked (request : ServiceRequest) : Type 0 where
    pub version : not (request.version == protocol_version) ≡ false
    pub path : is_empty (nt_path_to_dos_path os devices request.real_nt_path) ≡ false
    pub rule : (not devices.metadata_opens || is_empty request.rule_id) ≡ false

  -- A test before a call that succeeds.
  pub past :
      (w : World os) (test : Bool) (response : ServiceResponse) (m : M os ServiceResponse)
      → response.status ≢ status_success
      → Succeeds ((if test then pure response else m) w)
      → (test ≡ false) × Succeeds (m w)
  unfolding pure
  past w true response m fails h = absurd (fails h)
  past w false response m fails h = (refl, h)

  pub behind :
      (w : World os) (test : Bool) (response : ServiceResponse) (m : M os ServiceResponse)
      → test ≡ false
      → Succeeds ((if test then pure response else m) w)
      → Succeeds (m w)
  unfolding pure
  behind w true response m fails h = absurd (false≢true (sym fails))
  behind w false response m fails h = h

  -- A request that succeeds, and is not one of a trace, is checked and goes on to its rule.
  pub process_driver_request-IsChecked :
      (request : ServiceRequest) (w : World os)
      → (request.command == trace_create) ≡ false
      → Succeeds (process_driver_request os devices engine request w)
      → IsChecked request
        × Succeeds (
            answer_for_rule os devices engine request
              (nt_path_to_dos_path os devices request.real_nt_path)
              (nt_path_to_dos_path os devices request.target_nt_path)
              w)
  unfolding process_driver_request
  process_driver_request-IsChecked request w no_trace h =
      let target_path = nt_path_to_dos_path os devices request.target_nt_path in
      let refused : M os ServiceResponse = pure (respond status_unsuccessful normal []) in
      let answer : M os ServiceResponse =
        answer_for_rule os devices engine request
          (nt_path_to_dos_path os devices request.real_nt_path) target_path in
      let no_rule = not devices.metadata_opens || is_empty request.rule_id in
      let no_target = request.command == record_rename_command && is_empty target_path in
      let from_target : M os ServiceResponse =
        if no_target then refused else if no_rule then refused else answer in
      let from_path : M os ServiceResponse =
        if is_empty (nt_path_to_dos_path os devices request.real_nt_path)
        then refused
        else from_target in
      let unsuccessful = respond status_unsuccessful normal [] in
      let (version, h1) =
        past w (not (request.version == protocol_version)) unsuccessful
          (if request.command == trace_create
            then pure (respond status_success normal [])
            else from_path)
          unsuccessful_is_none h in
      let h2 =
        behind w (request.command == trace_create) (respond status_success normal []) from_path
          no_trace h1 in
      let (path, h3) =
        past w (is_empty (nt_path_to_dos_path os devices request.real_nt_path)) unsuccessful
          from_target unsuccessful_is_none h2 in
      let (target, h4) =
        past w no_target unsuccessful (if no_rule then refused else answer) unsuccessful_is_none
          h3 in
      let (rule, h5) = past w no_rule unsuccessful answer unsuccessful_is_none h4 in
      (record { version = version; path = path; rule = rule }, h5)

  -- The service finds an enabled rule for the request.
  abbrev pub IsFound : Text → OverlayRule → World os → Type 0
  IsFound rule_id rule w =
      ((get_rule engine rule_id w.tables).0 ≡ success rule) × (rule.enabled ≡ true)

  -- The end of `answer_for_rule`, with what was found.
  abbrev for_found :
      ServiceRequest → Text → Text → OperationResult OverlayRule → M os ServiceResponse
  for_found request real_path target_path found =
      on_result found
        (λ rule.
          if not rule.enabled
          then pure (respond object_name_not_found normal [])
          else answer_command os devices engine request.command rule real_path target_path)
        (λ _. pure (respond object_name_not_found normal []))

  pub for_found-enabled :
      (request : ServiceRequest) (real_path target_path : Text)
      (found : OperationResult OverlayRule) (w : World os)
      → Succeeds (for_found request real_path target_path found w)
      → (rule : OverlayRule) × (found ≡ success rule)
        × (rule.enabled ≡ true)
        × (for_found request real_path target_path found w
            ≡ answer_command os devices engine request.command rule real_path target_path w)
  unfolding on_result pure
  for_found-enabled request real_path target_path (failure message) w h =
      absurd (not_found_is_none h)
  for_found-enabled request real_path target_path (success rule) w h =
      let (enabled, h1) =
        past w (not rule.enabled) (respond object_name_not_found normal [])
          (answer_command os devices engine request.command rule real_path target_path)
          not_found_is_none h in
      (rule, refl, ground (arith, enabled), rw (enabled) refl)

  pub answer_for_rule-IsFound :
      (request : ServiceRequest) (real_path target_path : Text) (w : World os)
      → Succeeds (answer_for_rule os devices engine request real_path target_path w)
      → (rule : OverlayRule) × ((on_metadata os (get_rule engine request.rule_id) w).0
          ≡ success rule)
        × (rule.enabled ≡ true)
        × (answer_for_rule os devices engine request real_path target_path w
            ≡ answer_command os devices engine request.command rule real_path target_path w)
  unfolding answer_for_rule attempt ◌>>=◌
  answer_for_rule-IsFound request real_path target_path w h =
      let (same, member) = get_rule-Member os engine w.tables.rules request.rule_id w in
      let found = (on_metadata os (get_rule engine request.rule_id) w).0 in
      subst
        (λ t.
          Succeeds (for_found request real_path target_path found t)
          → (rule : OverlayRule) × (found ≡ success rule)
            × (rule.enabled ≡ true)
            × (for_found request real_path target_path found t
                ≡ answer_command os devices engine request.command rule real_path target_path w))
        (sym same) (for_found-enabled request real_path target_path found w) h

  -- A request that is checked, and no trace and no rename, goes on to its rule.
  pub process_driver_request-answer :
      (request : ServiceRequest) (w : World os)
      → IsChecked request
      → (request.command == trace_create) ≡ false
      → (request.command == record_rename_command) ≡ false
      → process_driver_request os devices engine request w
        ≡ answer_for_rule os devices engine request
            (nt_path_to_dos_path os devices request.real_nt_path)
            (nt_path_to_dos_path os devices request.target_nt_path)
            w
  unfolding process_driver_request
  process_driver_request-answer request w checked no_trace no_rename =
      rw (checked.version, no_trace, checked.path, no_rename, checked.rule) refl
