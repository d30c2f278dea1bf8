-- ===== src/Driver/SetInformation/Accepted.antt =====
-- What `PathOverlayPreSetInformation` of driver/PathOverlayFlt/Driver.c asks the service to record.
use path_overlay.Base.{◌≡◌, ◌≢◌, Bool, true, false, Option, none, some}
use path_overlay.Wide.{Text}
use path_overlay.Service.Request.{
  ServiceRequest, query_path, record_delete_command, record_rename_command,
}
use path_overlay.Driver.Status.{nt_success}
use path_overlay.Driver.Kernel.{RuleEntry, DriverState, Kernel}
use path_overlay.Driver.Cache.{find_source_or_store_rule}
use path_overlay.Driver.Access.{NameResult, named, unnamed}
use path_overlay.Driver.Send.{request_of}
use path_overlay.Driver.Send.Sent.{IsAccepted}
use path_overlay.Driver.Shadow.{built}
use path_overlay.Driver.Create.{Preop, complete, memory_overrun, passthrough_state}
use path_overlay.Driver.SetInformation.{
  RenameInformation, SetInformationCall, is_rename, real_path_of,
}

-- The status for a name that is missing is a failure.
abbrev pub NameFails : NameResult → Type 0
NameFails (named path) = Unit
NameFails (unnamed status) = nt_success status ≡ false

abbrev pub FailsUnnamed : Option RenameInformation → Type 0
FailsUnnamed none = Unit
FailsUnnamed (some buffer) = NameFails buffer.destination_name

module _ {S : Type 0} (kernel : Kernel S) where
  -- The service answers no query by `PathOverlayPathStatePassthrough`.
  abbrev pub KeepsPaths : Type 0
  KeepsPaths =
      (request : ServiceRequest) (s : DriverState S)
      → request.command ≡ query_path
      → (kernel.send_message request s).0.1.path_state ≢ passthrough_state

  -- The path below the source that a path of the rule stands for, in a state.
  abbrev pub IsRealPath : RuleEntry → Bool → Text → Text → Type 0
  IsRealPath rule source_path path real =
      (t : DriverState S) × (real_path_of kernel rule source_path path t ≡ built real)

  -- The name that the buffer of a rename gives.
  abbrev pub HasDestination : SetInformationCall → Text → Type 0
  HasDestination call destination =
      (buffer : RenameInformation) × (call.rename_buffer ≡ some buffer)
      × (buffer.destination_name ≡ named destination)

  -- The path below the source that the target of a rename stands for.
  abbrev pub IsTarget : SetInformationCall → RuleEntry → Text → Type 0
  IsTarget call rule target =
      (destination : Text) × HasDestination call destination
      × (t : DriverState S) × (target_rule : RuleEntry) × (target_source_path : Bool)
      × (find_source_or_store_rule kernel t.cache destination
          ≡ some (target_rule, target_source_path))
      × IsRealPath rule target_source_path destination target

  abbrev pub delete_request : RuleEntry → Text → ServiceRequest
  delete_request rule real = request_of record_delete_command rule.rule_id real none

  abbrev pub rename_request : RuleEntry → Text → Text → ServiceRequest
  rename_request rule source target =
      request_of record_rename_command rule.rule_id source (some target)

  -- A property of states that holds when the service has accepted, under the rule, the deletion of the path
  -- that the call deletes; or, for a rename, the rename from the path of the call to its target.
  pub record IsRecorded (call : SetInformationCall) (rule : RuleEntry) (source_path : Bool)
      (path : Text) (Recorded : DriverState S → Type 0) : Type 0 where
    pub deleted :
        (real : Text)
        → is_rename call.information_class ≡ false
        → IsRealPath rule source_path path real
        → (s : DriverState S) → IsAccepted kernel (delete_request rule real) s
        → Recorded (kernel.send_message (delete_request rule real) s).1
    pub renamed :
        (source target : Text)
        → is_rename call.information_class ≡ true
        → IsRealPath rule source_path path source
        → IsTarget call rule target
        → (s : DriverState S) → IsAccepted kernel (rename_request rule source target) s
        → Recorded (kernel.send_message (rename_request rule source target) s).1

  -- The call is complete, and with a success only if the state is recorded; or memory was overrun.
  abbrev pub EndsRecorded : (DriverState S → Type 0) → Preop → DriverState S → Type 0
  EndsRecorded Recorded (complete status information) t = nt_success status ≡ true → Recorded t
  EndsRecorded Recorded memory_overrun t = Unit
  EndsRecorded Recorded _ t = ⊥
