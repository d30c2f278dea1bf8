-- ===== src/Service/Thread.antt =====
-- A round of `DriverMessageThread` of service/PathOverlaySvc/main.cpp: a message of the driver, and the
-- reply to it, with the numbers that the answer of `ProcessDriverRequest` stands for.
use path_overlay.Base.{ℕ, ◌≡◌, ◌-◌, ◌++◌, length}
use path_overlay.Os.{Os}
use path_overlay.Action.{success, failure}
use path_overlay.Metadata.Sql.{Engine}
use path_overlay.Overlay.World.{World}
use path_overlay.Service.NtPath.{Devices}
use path_overlay.Service.Request.{
  NtStatus, status_success, status_unsuccessful, object_name_not_found, PathState, normal,
  tombstoned, passthrough, ServiceRequest, ServiceResponse, max_path_chars, process_driver_request,
}
use path_overlay.Driver.Status
use path_overlay.Driver.Kernel.{DriverState, Kernel, Reply}
use path_overlay.Driver.Buffers.{zeros}
use path_overlay.Driver.Send.{no_reply}

unfoldable pub status_code : NtStatus → ℕ
status_code status_success = Status.success
status_code status_unsuccessful = Status.unsuccessful
status_code object_name_not_found = Status.object_name_not_found

unfoldable pub state_code : PathState → ℕ
state_code normal = 0
state_code tombstoned = 1
state_code passthrough = 2

unfoldable pub reply_of : ServiceResponse → Reply
unfolding status_code state_code
reply_of response = record {
  status = status_code response.status;
  path_state = state_code response.path_state;
  shadow_nt_path =
      response.shadow_nt_path ++ zeros (max_path_chars - length response.shadow_nt_path);
}

module _ (os : Os) (devices : Devices) (engine : Engine) where
  -- The reply, and the state after it. `ProcessDriverRequest` has a response in every case, so that there
  -- is always a reply.
  unfoldable pub answer_message : ServiceRequest → World os → (ℕ × Reply) × World os
  unfolding reply_of
  answer_message request w =
      let (result, t) = process_driver_request os devices engine request w in
      elim result [
        | success response ↦ ((Status.success, reply_of response), t)
        | failure _ ↦ ((Status.unsuccessful, no_reply), t)
      ]

  -- The port joins the driver to the service: a message is a round of the thread, which changes nothing
  -- of the driver.
  abbrev pub IsServed : Kernel (World os) → Type 0
  IsServed kernel =
      (request : ServiceRequest) (s : DriverState (World os))
      → kernel.send_message request s ≡ (
        (answer_message request s.outside).0,
        record s { outside = (answer_message request s.outside).1 },
      )
