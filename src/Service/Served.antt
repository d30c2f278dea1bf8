-- ===== src/Service/Served.antt =====
-- Requests of the driver that ask for a deletion, or about a path, at the service.
use path_overlay.Base.{
  ◌≡◌, refl, sym, ap, subst, ◌∙◌, inl, inr, Bool, true, false, not, Bool-cases, Option-cases, ◌==◌,
  List, [], ◌∷◌, none, some, if◌then◌else◌, arith,
}
use mathlib.Core.Bool.{false≢true}
use path_overlay.Metadata.RoundTrip.{IsKept}
use path_overlay.Wide.{Text, same_text, same_text_sound}
use path_overlay.Os.{Os}
use path_overlay.Paths.{normalize_path}
use path_overlay.Rules.{OverlayRule, find_first_reparse_point_in_rule_path}
use path_overlay.Action.{
  OperationResult, on_option, fail, success, pure, gets, attempt, on_result, ◌>>=◌, ⊤, result-cases,
}
use path_overlay.Metadata.Records.{ChangeRecord}
use path_overlay.Metadata.Sql.{Engine, find_id, select_rule}
use path_overlay.Metadata.Store.{get_rule, list_changes, run_query, run_query_one}
use path_overlay.Overlay.World.{World, M, on_metadata}
use path_overlay.Overlay.Cleanup.{get_rule-Member}
use path_overlay.Overlay.Prepare.{record_delete}
use path_overlay.Service.NtPath.{Devices, nt_path_to_dos_path}
use path_overlay.Service.Deleted.{record_delete_hides}
use path_overlay.Service.Hidden.{is_tombstoned}
use path_overlay.Service.Request.{
  ServiceRequest, ServiceResponse, status_unsuccessful, status_success, object_name_not_found,
  normal, tombstoned, respond, answer_query, answer_result, answer_command, answer_for_rule,
  process_driver_request, trace_create, query_path, record_delete_command, record_rename_command,
}
use path_overlay.Service.Checked.{
  IsChecked, IsFound, Succeeds, answer_for_rule-IsFound, process_driver_request-IsChecked,
  process_driver_request-answer, unsuccessful_is_none,
}

find_id-key :
    {A : Type 0} (id : A → Text) (key : Text) (rows : List A) (row : A)
    → find_id id key rows ≡ some row
    → same_text (id row) key ≡ true
unfolding find_id
find_id-key id key [] row h = cc
find_id-key id key (first ∷ rows) row h = elim (Bool-cases (same_text (id first) key)) [
  | inl hit ↦ subst (λ x. same_text (id x) key ≡ true) (ground (arith, hit, h)) hit
  | inr miss ↦ find_id-key id key rows row (ground arith)
]

module _ (os : Os) (devices : Devices) (engine : Engine) where
  answer_result-success :
      (m : M os ⊤) (w : World os)
      → Succeeds (answer_result os devices engine m w)
      → ((m w).0 ≡ success tt) × ((answer_result os devices engine m w).1 ≡ (m w).1)
  unfolding answer_result attempt ◌>>=◌ on_result pure
  answer_result-success m w h = elim (result-cases (m w).0) [
    | inl done ↦ (done, rw (done) refl)
    | inr (message, failed) ↦ absurd (
        unsuccessful_is_none (
          subst
            (λ (r : OperationResult ⊤). Succeeds (
              on_result r (λ _. pure (respond status_success normal []))
                (λ _. pure (respond status_unsuccessful normal [])) (m w).1))
            failed h))
  ]

  -- What a request for a deletion that succeeds has done.
  pub record IsDeleted (request : ServiceRequest) (w t : World os) : Type 0 where
    pub checked : IsChecked os devices engine request
    pub rule : OverlayRule
    pub found : (on_metadata os (get_rule engine request.rule_id) w).0 ≡ success rule
    pub deleted :
        record_delete os engine rule (nt_path_to_dos_path os devices request.real_nt_path) w
        ≡ (success tt, t)

  pub process_driver_request-IsDeleted :
      (request : ServiceRequest) (w : World os)
      → request.command ≡ record_delete_command
      → Succeeds (process_driver_request os devices engine request w)
      → IsDeleted request w (process_driver_request os devices engine request w).1
  unfolding answer_command
  process_driver_request-IsDeleted request w command h =
      let real_path = nt_path_to_dos_path os devices request.real_nt_path in
      let target_path = nt_path_to_dos_path os devices request.target_nt_path in
      let no_trace : (request.command == trace_create) ≡ false = rw (command) refl in
      let no_rename : (request.command == record_rename_command) ≡ false = rw (command) refl in
      let (checked, h1) = process_driver_request-IsChecked os devices engine request w no_trace h in
      let (rule, found, enabled, answered) =
        answer_for_rule-IsFound os devices engine request real_path target_path w h1 in
      let runs : answer_command os devices engine request.command rule real_path target_path w
          ≡ answer_result os devices engine (record_delete os engine rule real_path) w =
        rw (command) refl in
      let whole =
        process_driver_request-answer os devices engine request w checked no_trace no_rename
        ∙ (answered ∙ runs) in
      let (done, end) =
        answer_result-success (record_delete os engine rule real_path) w (subst Succeeds whole h) in
      record {
        checked = checked;
        rule = rule;
        found = found;
        deleted =
            ap (λ r. (r, (record_delete os engine rule real_path w).1)) done
            ∙ ap (λ t. (success tt, t)) (sym (ap (λ r. r.1) whole ∙ end));
      }

  answer_query-tombstoned :
      (rule : OverlayRule) (real_path : Text) (w : World os)
      → find_first_reparse_point_in_rule_path os w.fs rule real_path ≡ none
      → is_tombstoned os engine w rule.id real_path ≡ true
      → (answer_query os devices engine rule real_path w).0
        ≡ success (respond status_success tombstoned [])
  unfolding answer_query ◌>>=◌ gets pure
  answer_query-tombstoned rule real_path w no_reparse hidden = rw (no_reparse, hidden) refl

  not_taken :
      (test : Bool) (m n : M os ServiceResponse) (w : World os)
      (r : OperationResult ServiceResponse)
      → test ≡ false
      → (n w).0 ≡ r
      → ((if test then m else n) w).0 ≡ r
  not_taken true m n w r h k = absurd (false≢true (sym h))
  not_taken false m n w r h k = k

  -- A query about a path that is hidden, for an enabled rule.
  pub process_driver_request-tombstoned :
      (request : ServiceRequest) (rule : OverlayRule) (w : World os)
      → request.command ≡ query_path
      → IsChecked os devices engine request
      → (on_metadata os (get_rule engine request.rule_id) w).0 ≡ success rule
      → rule.enabled ≡ true
      → find_first_reparse_point_in_rule_path os w.fs rule
          (nt_path_to_dos_path os devices request.real_nt_path)
        ≡ none
      → is_tombstoned os engine w rule.id (nt_path_to_dos_path os devices request.real_nt_path)
        ≡ true
      → (process_driver_request os devices engine request w).0
        ≡ success (respond status_success tombstoned [])
  unfolding answer_for_rule attempt ◌>>=◌ on_result answer_command
  process_driver_request-tombstoned request rule w command checked found enabled no_reparse hidden =
      let (same, member) = get_rule-Member os engine w.tables.rules request.rule_id w in
      ap (λ r. r.0)
        (process_driver_request-answer os devices engine request w checked (rw (command) refl)
          (rw (command) refl))
      ∙ rw (found, command, same)
          (not_taken (not rule.enabled) (pure (respond object_name_not_found normal []))
            (answer_query os devices engine rule
              (nt_path_to_dos_path os devices request.real_nt_path))
            w (success (respond status_success tombstoned [])) (ground (arith, enabled))
            (answer_query-tombstoned rule (nt_path_to_dos_path os devices request.real_nt_path) w
              no_reparse hidden))

  -- `GetRule` gives a rule of the identifier.
  pub get_rule-id :
      (id : Text) (w : World os) (rule : OverlayRule)
      → (on_metadata os (get_rule engine id) w).0 ≡ success rule
      → rule.id ≡ id
  unfolding on_metadata get_rule run_query_one run_query ◌>>=◌ on_option pure fail
  get_rule-id id w rule h = elim (Option-cases (engine.prepare_fails select_rule w.tables)) [
    | inr (message, e) ↦ absurd (ground arith)
    | inl prepared ↦ elim (Option-cases (engine.step_fails select_rule w.tables)) [
      | inr (message, e) ↦ absurd (ground arith)
      | inl stepped ↦ elim (Option-cases (find_id (λ (r : OverlayRule). r.id) id w.tables.rules)) [
        | inl nothing ↦ absurd (ground arith)
        | inr (found, e) ↦
            same_text_sound rule.id id
              (find_id-key (λ (r : OverlayRule). r.id) id w.tables.rules rule (ground arith))
      ]
    ]
  ]

  -- After a request for a deletion that succeeds, the path is hidden: a query about it is answered by
  -- `PathOverlayPathStateTombstone`.
  pub deleted_path_is_tombstoned :
      ((s : Text) → os.wcsicmp s s ≡ true)
      → (request query : ServiceRequest) (rule : OverlayRule) (w t : World os)
      → (records : List ChangeRecord)
      → let real_path = nt_path_to_dos_path os devices request.real_nt_path in
        normalize_path os (normalize_path os real_path) ≡ normalize_path os real_path
        → IsKept engine os (normalize_path os real_path)
        → request.command ≡ record_delete_command
        → Succeeds (process_driver_request os devices engine request w)
        → (process_driver_request os devices engine request w).1 ≡ t
        → (query.version ≡ request.version)
          × (query.rule_id ≡ request.rule_id)
          × (query.real_nt_path ≡ request.real_nt_path)
        → query.command ≡ query_path
        → IsFound os devices engine query.rule_id rule t
        → find_first_reparse_point_in_rule_path os t.fs rule real_path ≡ none
        → list_changes engine rule.id t.tables ≡ (success records, t.tables)
        → (process_driver_request os devices engine query t).0
          ≡ success (respond status_success tombstoned [])
  unfolding on_metadata
  deleted_path_is_tombstoned reflexive request query rule w t records is_normal kept command done
        after (version, id, path) asks (found, enabled) no_reparse listed =
      let d = process_driver_request-IsDeleted request w command done in
      let same_id : d.rule.id ≡ rule.id =
        get_rule-id request.rule_id w d.rule d.found
        ∙ (sym id ∙ sym (get_rule-id query.rule_id t rule found)) in
      let hidden : is_tombstoned os engine t rule.id
            (nt_path_to_dos_path os devices request.real_nt_path)
          ≡ true =
        subst
          (λ i.
            is_tombstoned os engine t i (nt_path_to_dos_path os devices request.real_nt_path)
            ≡ true)
          same_id
          (record_delete_hides os engine d.rule
            (nt_path_to_dos_path os devices request.real_nt_path) reflexive is_normal kept w t
            (d.deleted ∙ ap (λ x. (success tt, x)) after) records
            (subst (λ i. list_changes engine i t.tables ≡ (success records, t.tables)) (sym same_id)
              listed)) in
      process_driver_request-tombstoned query rule t asks
        (record {
          version = rw (version) d.checked.version;
          path = rw (path) d.checked.path;
          rule = rw (id) d.checked.rule;
        })
        found enabled (rw (path) no_reparse) (rw (path) hidden)
