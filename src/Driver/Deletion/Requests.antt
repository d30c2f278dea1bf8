-- ===== src/Driver/Deletion/Requests.antt =====
-- Requests of driver/PathOverlayFlt/Driver.c to service/PathOverlaySvc/main.cpp, from end to end.
use path_overlay.Base.{
  ℕ, ◌≡◌, ◌≢◌, refl, sym, ap, ◌∙◌, inl, inr, Bool, true, false, ◌&&◌, ◌||◌, not, Bool-cases, Option,
  none, some, [], length, ◌==◌, if◌then◌else◌, arith,
}
use mathlib.Core.Bool.{false≢true}
use path_overlay.Wide.{Text}
use path_overlay.Os.{Os}
use path_overlay.Action.{OperationResult, success, failure}
use path_overlay.Metadata.Sql.{Engine}
use path_overlay.Overlay.World.{World}
use path_overlay.Service.NtPath.{Devices}
use path_overlay.Service.Request.{
  respond, tombstoned, NtStatus, status_success, status_unsuccessful, object_name_not_found,
  ServiceRequest, ServiceResponse, query_path, record_delete_command, process_driver_request,
}
use path_overlay.Service.Thread.{status_code, state_code, reply_of, answer_message, IsServed}
use path_overlay.Service.Checked.{Succeeds}
use path_overlay.Driver.Status
use path_overlay.Driver.Status.{nt_success}
use path_overlay.Driver.Kernel.{RuleEntry, DriverState, Kernel, Reply, D, ◌>>=◌, pure, reads}
use path_overlay.Driver.Buffers.{Buffer}
use path_overlay.Driver.Cache.{is_store_path, find_source_rule_for_path, find_source_or_store_rule}
use path_overlay.Driver.Send.{no_reply, request_of, is_too_long, receive, send_service_request}
use path_overlay.Driver.Create.{Preop, passthrough_state, success_no_callback, complete}
use path_overlay.Driver.SetInformation.{
  InformationClass, rename_information, rename_information_ex,
  rename_information_bypass_access_check, rename_information_ex_bypass_access_check,
  other_information, SetInformationCall, disposition_information, disposition_information_ex,
  is_rename, deletes, real_path_of, is_passed, delete_in_rule,
}
use path_overlay.Driver.Tombstones.{IsTombstone}

pub status_code-success :
    (status : NtStatus) → nt_success (status_code status) ≡ true → status ≡ status_success
unfolding status_code
status_code-success status_success h = refl
status_code-success status_unsuccessful h = absurd (false≢true h)
status_code-success object_name_not_found h = absurd (false≢true h)

pub from_if :
    {A : Type 0} (test : Bool) {x : Option A} {a : A}
    → (if test then none else x) ≡ some a
    → (test ≡ false) × (x ≡ some a)
from_if true h = absurd (none_is_not_some h)
  where
    none_is_not_some : {A : Type 0} {a : A} → none ≢ some a
    none_is_not_some e = cc
from_if false h = (refl, h)

pub or_left : (a b : Bool) → (a || b) ≡ false → a ≡ false
or_left a b h = ground arith

pub negated : (a : Bool) → not a ≡ false → a ≡ true
negated a h = ground arith

pub not_complete : {status information : ℕ} → success_no_callback ≢ complete status information
not_complete e = cc

pub same_status : {a b c d : ℕ} → complete a b ≡ complete c d → a ≡ c
same_status e = cc

-- A request that succeeds has passed both tests.
pub both_pass :
    {S : Type 0} (a b : Bool) (s : S) (m : (ℕ × Reply) × S)
    → nt_success
        (if a
          then ((Status.port_disconnected, no_reply), s)
          else if b
          then ((Status.name_too_long, no_reply), s)
          else m).0.0
      ≡ true
    → (a ≡ false) × (b ≡ false)
both_pass true b s m h = absurd (false≢true h)
both_pass false true s m h = absurd (false≢true h)
both_pass false false s m h = (refl, refl)

module _ {S : Type 0} (kernel : Kernel S) where
  -- A path of the source of a rule has that rule.
  pub find_source_or_store_rule-source :
      (path : Text) (s : DriverState S) {entry : RuleEntry} {matched : Text}
      → find_source_rule_for_path kernel s.cache path ≡ some (entry, matched)
      → find_source_or_store_rule kernel s.cache path ≡ some (entry, true)
  unfolding find_source_rule_for_path find_source_or_store_rule
  find_source_or_store_rule-source path s h =
      let (searched, found) =
        from_if (length s.cache.rules == 0 || is_store_path kernel path s.cache.rules) h in
      rw
        (
          or_left (length s.cache.rules == 0) (is_store_path kernel path s.cache.rules) searched,
          found,
        )
        refl

  -- A request that succeeds has gone to the service.
  pub sent-open :
      (command : ℕ) (rule_id : Buffer) (path : Text) (s : DriverState S)
      → nt_success (send_service_request kernel command rule_id path none s).0.0 ≡ true
      → (s.client_port ≡ true) × (is_too_long path ≡ false)
  unfolding send_service_request
  sent-open command rule_id path s h =
      let (connected, short) = both_pass (not s.client_port) (is_too_long path || false) s _ h in
      (negated _ connected, or_left _ _ short)

  -- What a deletion that ends in a status has sent.
  pub delete_in_rule-sends :
      (entry : RuleEntry) (path : Text) (s : DriverState S) (status information : ℕ)
      → (delete_in_rule kernel entry true path s).0 ≡ complete status information
      → let asked = (send_service_request kernel query_path entry.rule_id path none s).1 in
        let sent =
          send_service_request kernel record_delete_command entry.rule_id path none asked in
        (sent.0.0 ≡ status) × ((delete_in_rule kernel entry true path s).1 ≡ sent.1)
  unfolding delete_in_rule real_path_of is_passed ◌>>=◌ pure reads
  delete_in_rule-sends entry path s status information h =
      let (answer, asked) = send_service_request kernel query_path entry.rule_id path none s in
      let (sent, t) =
        send_service_request kernel record_delete_command entry.rule_id path none asked in
      let same =
        not_passed (nt_success answer.0 && answer.1.path_state == passthrough_state)
          (λ u.
            let (r, v) =
              send_service_request kernel record_delete_command entry.rule_id path none u in
            (complete r.0 0, v))
          asked h in
      (same_status (sym (ap (λ r. r.0) same) ∙ h), ap (λ r. r.1) same)
    where
      not_passed :
          (passed : Bool) (next : D S Preop) (u : DriverState S)
          → ((if passed then pure success_no_callback else next) u).0 ≡ complete status information
          → (if passed then pure success_no_callback else next) u ≡ next u
      not_passed true next u e = absurd (not_complete e)
      not_passed false next u e = refl

pub deletes-no_rename :
    (call : SetInformationCall) → deletes call ≡ true → is_rename call.information_class ≡ false
unfolding deletes is_rename
deletes-no_rename call h = by_class call.information_class h
  where
    by_class :
        (c : InformationClass)
        → deletes (record call { information_class = c }) ≡ true
        → is_rename c ≡ false
    by_class rename_information h = absurd (false≢true h)
    by_class rename_information_ex h = absurd (false≢true h)
    by_class rename_information_bypass_access_check h = absurd (false≢true h)
    by_class rename_information_ex_bypass_access_check h = absurd (false≢true h)
    by_class disposition_information h = refl
    by_class disposition_information_ex h = refl
    by_class other_information h = refl

-- A call behind two tests.
pub both_false :
    {A : Type 0} (a b : Bool) (x y m : A)
    → a ≡ false
    → b ≡ false
    → (if a then x else if b then y else m) ≡ m
both_false true b x y m h k = absurd (false≢true (sym h))
both_false false true x y m h k = absurd (false≢true (sym k))
both_false false false x y m h k = refl

pub kept :
    {S : Type 0} (P : S → Type 0) (a b : Bool) (x y : ℕ × Reply) (s : S) (m : (ℕ × Reply) × S)
    → P s
    → P m.1
    → P (if a then (x, s) else if b then (y, s) else m).1
kept P true b x y s m h k = h
kept P false true x y s m h k = h
kept P false false x y s m h k = k

module _ (os : Os) (devices : Devices) (engine : Engine) (kernel : Kernel (World os))
    (served : IsServed os devices engine kernel) where
  -- A request that reaches the service.
  pub served_request :
      (command : ℕ) (rule_id : Buffer) (path : Text) (s : DriverState (World os))
      → s.client_port ≡ true
      → is_too_long path ≡ false
      → let (answer, w) =
          answer_message os devices engine (request_of command rule_id path none) s.outside in
        send_service_request kernel command rule_id path none s
        ≡ receive kernel (answer, record s { outside = w })
  unfolding send_service_request
  served_request command rule_id path s connected short =
      both_false (not s.client_port) (is_too_long path || false) _ _
        (receive kernel (kernel.send_message (request_of command rule_id path none) s))
        (ap not connected) (rw (short) refl)
      ∙ ap (receive kernel) (served (request_of command rule_id path none) s)

  pub receive-state : (m : (ℕ × Reply) × DriverState (World os)) → (receive kernel m).1 ≡ m.1
  unfolding receive
  receive-state ((status, reply), t) = elim (Bool-cases (not (nt_success status))) [
    | inl failed ↦ rw (failed) refl
    | inr sent ↦ rw (sent) refl
  ]

  -- Whatever becomes of a request, the service changes nothing of the driver.
  pub request_keeps_driver :
      (command : ℕ) (rule_id : Buffer) (path : Text) (s : DriverState (World os))
      → let t = (send_service_request kernel command rule_id path none s).1 in
        (t.cache ≡ s.cache) × (t.client_port ≡ s.client_port)
  unfolding send_service_request
  request_keeps_driver command rule_id path s =
      let message = kernel.send_message (request_of command rule_id path none) s in
      let after : (receive kernel message).1 ≡ record s {
        outside =
            (answer_message os devices engine (request_of command rule_id path none) s.outside).1;
      } =
        receive-state message ∙ ap (λ m. m.1) (served (request_of command rule_id path none) s) in
      kept (λ t. (t.cache ≡ s.cache) × (t.client_port ≡ s.client_port)) (not s.client_port)
        (is_too_long path || false) _ _ s (receive kernel message) (refl, refl)
        (ap (λ t. t.cache) after, ap (λ t. t.client_port) after)

  -- A message that succeeds is a request that succeeds.
  pub received_success :
      (request : ServiceRequest) (w : World os) (t : DriverState (World os))
      → nt_success (receive kernel ((answer_message os devices engine request w).0, t)).0.0 ≡ true
      → Succeeds (process_driver_request os devices engine request w)
  unfolding receive answer_message reply_of
  received_success request w t h =
      by_outcome (process_driver_request os devices engine request w).0
        (process_driver_request os devices engine request w).1 h
    where
      by_outcome :
          (outcome : OperationResult ServiceResponse) (v : World os)
          → nt_success
              (receive kernel (
                (elim outcome as (λ _. (ℕ × Reply) × World os) [
                  | success response ↦ ((Status.success, reply_of response), v)
                  | failure _ ↦ ((Status.unsuccessful, no_reply), v)
                ]).0,
                t,
              )).0.0
            ≡ true
          → Succeeds (outcome, v)
      by_outcome (success response) v h = status_code-success response.status h
      by_outcome (failure message) v h = absurd (false≢true h)

  pub answer_message-state :
      (request : ServiceRequest) (w : World os)
      → (answer_message os devices engine request w).1
        ≡ (process_driver_request os devices engine request w).1
  unfolding answer_message
  answer_message-state request w =
      by_outcome (process_driver_request os devices engine request w).0
        (process_driver_request os devices engine request w).1
    where
      by_outcome :
          (outcome : OperationResult ServiceResponse) (v : World os)
          → (elim outcome as (λ _. (ℕ × Reply) × World os) [
            | success response ↦ ((Status.success, reply_of response), v)
            | failure _ ↦ ((Status.unsuccessful, no_reply), v)
          ]).1
            ≡ v
      by_outcome (success response) v = refl
      by_outcome (failure message) v = refl

  pub answer_message-IsTombstone :
      (request : ServiceRequest) (w : World os) (t : DriverState (World os))
      → (process_driver_request os devices engine request w).0
        ≡ success (respond status_success tombstoned [])
      → IsTombstone (receive kernel ((answer_message os devices engine request w).0, t)).0
  unfolding answer_message receive reply_of status_code state_code
  answer_message-IsTombstone request w t h = rw (h, answer_message) refl
