-- ===== src/Service/Answered.antt =====
-- Which requests `ProcessDriverRequest` of service/PathOverlaySvc/main.cpp acts on.
use path_overlay.Base.{
  ◌≡◌, refl, ◌⊎◌, inl, inr, Bool, true, false, ◌&&◌, ◌||◌, not, Bool-cases, ◌==◌, [], if◌then◌else◌,
  arith,
}
use path_overlay.Base.Lists.{Member}
use path_overlay.Wide.{Text, is_empty}
use path_overlay.Os.{Os}
use path_overlay.Rules.{OverlayRule}
use path_overlay.Action.{OperationResult, success, failure, pure, attempt, on_result, ◌>>=◌}
use path_overlay.Metadata.Sql.{Engine}
use path_overlay.Metadata.Store.{get_rule}
use path_overlay.Overlay.World.{World, M, on_metadata}
use path_overlay.Overlay.Cleanup.{get_rule-Member}
use path_overlay.Service.NtPath.{Devices, nt_path_to_dos_path}
use path_overlay.Service.Request.{
  ServiceRequest, ServiceResponse, status_unsuccessful, status_success, object_name_not_found,
  normal, respond, answer_command, answer_for_rule, process_driver_request, protocol_version,
  trace_create, record_rename_command,
}

module _ (os : Os) (devices : Devices) (engine : Engine) where
  -- The call leaves everything as it is, or runs the command for an enabled rule of the table.
  abbrev pub IsAnswered :
      ServiceRequest → Text → Text → World os → OperationResult ServiceResponse × World os → Type 0
  IsAnswered request real_path target_path w outcome =
      (outcome.1 ≡ w)
      ⊎ ((rule : OverlayRule) × Member rule w.tables.rules
          × (rule.enabled ≡ true)
          × (outcome
              ≡ answer_command os devices engine request.command rule real_path target_path w))

  found-IsAnswered :
      (request : ServiceRequest) (real_path target_path : Text)
      (found : OperationResult OverlayRule) (w : World os)
      → ((rule : OverlayRule) → found ≡ success rule → Member rule w.tables.rules)
      → IsAnswered request real_path target_path w (
          on_result found
            (λ rule.
              if not rule.enabled
              then pure (respond object_name_not_found normal [])
              else answer_command os devices engine request.command rule real_path target_path)
            (λ _. pure (respond object_name_not_found normal []))
            w)
  unfolding on_result pure
  found-IsAnswered request real_path target_path (failure message) w member = inl refl
  found-IsAnswered request real_path target_path (success rule) w member =
      elim (Bool-cases rule.enabled) [
        | inl enabled ↦ inr (rule, member rule refl, enabled, rw (enabled) refl)
        | inr disabled ↦ inl (rw (disabled) refl)
      ]

  answer_for_rule-IsAnswered :
      (request : ServiceRequest) (real_path target_path : Text) (w : World os)
      → IsAnswered request real_path target_path w
          (answer_for_rule os devices engine request real_path target_path w)
  unfolding answer_for_rule attempt ◌>>=◌
  answer_for_rule-IsAnswered request real_path target_path w =
      let (same, member) = get_rule-Member os engine w.tables.rules request.rule_id w in
      let looked = on_metadata os (get_rule engine request.rule_id) w in
      rw (same) (found-IsAnswered request real_path target_path looked.0 w member)

  -- The same of the whole request, with what its checks say.
  abbrev pub IsProper :
      ServiceRequest → World os → OperationResult ServiceResponse × World os → Type 0
  IsProper request w outcome =
      (outcome.1 ≡ w)
      ⊎ ((request.version ≡ protocol_version)
          × (is_empty (nt_path_to_dos_path os devices request.real_nt_path) ≡ false)
          × (rule : OverlayRule) × Member rule w.tables.rules
          × (rule.enabled ≡ true)
          × (outcome
              ≡ answer_command os devices engine request.command rule
                  (nt_path_to_dos_path os devices request.real_nt_path)
                  (nt_path_to_dos_path os devices request.target_nt_path) w))

  guarded :
      (w : World os) (test : Bool) (response : ServiceResponse) (m : M os ServiceResponse)
      → (P : OperationResult ServiceResponse × World os → Type 0) → P (success response, w)
      → (test ≡ false → P (m w))
      → P ((if test then pure response else m) w)
  unfolding pure
  guarded w true response m P refused passed = refused
  guarded w false response m P refused passed = passed refl

  -- `ProcessDriverRequest` leaves everything as it is, or the request has the version of the protocol
  -- and a path on a drive, and the answer is that of its command for an enabled rule of the table.
  pub process_driver_request_acts_for_enabled_rules :
      (request : ServiceRequest) (w : World os)
      → ((process_driver_request os devices engine request w).1 ≡ w)
        ⊎ ((request.version ≡ protocol_version)
            × (is_empty (nt_path_to_dos_path os devices request.real_nt_path) ≡ false)
            × (rule : OverlayRule) × Member rule w.tables.rules
            × (rule.enabled ≡ true)
            × (process_driver_request os devices engine request w
                ≡ answer_command os devices engine request.command rule
                    (nt_path_to_dos_path os devices request.real_nt_path)
                    (nt_path_to_dos_path os devices request.target_nt_path)
                    w))
  unfolding process_driver_request pure
  process_driver_request_acts_for_enabled_rules request w =
      let real_path = nt_path_to_dos_path os devices request.real_nt_path in
      let target_path = nt_path_to_dos_path os devices request.target_nt_path in
      let unsuccessful = respond status_unsuccessful normal [] in
      let P = IsProper request w in
      let answer = answer_for_rule os devices engine request real_path target_path in
      let no_rule = not devices.metadata_opens || is_empty request.rule_id in
      let no_target = request.command == record_rename_command && is_empty target_path in
      guarded w (not (request.version == protocol_version)) unsuccessful
        (if request.command == trace_create
          then pure (respond status_success normal [])
          else if is_empty real_path
          then pure unsuccessful
          else if no_target
          then pure unsuccessful
          else if no_rule
          then pure unsuccessful
          else answer)
        P (inl refl)
        λ current.
          guarded w (request.command == trace_create) (respond status_success normal [])
            (if is_empty real_path
              then pure unsuccessful
              else if no_target
              then pure unsuccessful
              else if no_rule
              then pure unsuccessful
              else answer)
            P (inl refl)
            λ _.
              guarded w (is_empty real_path) unsuccessful
                (if no_target
                  then pure unsuccessful
                  else if no_rule
                  then pure unsuccessful
                  else answer)
                P (inl refl)
                λ nonempty.
                  guarded w no_target unsuccessful (if no_rule then pure unsuccessful else answer) P
                    (inl refl)
                    λ _. guarded w no_rule unsuccessful answer P (inl refl) λ _.
                      elim (answer_for_rule-IsAnswered request real_path target_path w) [
                        | inl same ↦ inl same
                        | inr (rule, member, enabled, acted) ↦
                            inr (ground arith, nonempty, rule, member, enabled, acted)
                      ]
