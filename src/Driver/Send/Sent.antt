-- ===== src/Driver/Send/Sent.antt =====
-- What becomes of a request of driver/PathOverlayFlt/Driver.c to the service.
use path_overlay.Base.{
  ℕ, ◌≡◌, ◌≢◌, refl, sym, ap, ◌∙◌, ◌⊎◌, inl, inr, Bool, true, false, Bool-cases, Option,
  if◌then◌else◌,
}
use path_overlay.Wide.{Text}
use path_overlay.Service.Request.{ServiceRequest}
use path_overlay.Driver.Status
use path_overlay.Driver.Status.{nt_success}
use path_overlay.Driver.Kernel.{DriverState, Kernel, Reply}
use path_overlay.Driver.Buffers.{Buffer}
use path_overlay.Driver.Send.{no_reply, request_of, receive, send_service_request}

module _ {S : Type 0} (kernel : Kernel S) (command : ℕ) (rule_id : Buffer) (real_path : Text)
    (target_path : Option Text) (s : DriverState S) where
  abbrev request : ServiceRequest
  request = request_of command rule_id real_path target_path

  -- The request was not sent; or it was, and its message failed; or the service has answered.
  abbrev pub Sent : (ℕ × Reply) × DriverState S → Type 0
  Sent (answer, t) =
      ((answer ≡ (answer.0, no_reply)) × (nt_success answer.0 ≡ false))
      ⊎ ((answer
            ≡ ((kernel.send_message request s).0.1.status, (kernel.send_message request s).0.1))
          × (nt_success (kernel.send_message request s).0.0 ≡ true)
          × (t ≡ (kernel.send_message request s).1))

  received :
      (status : ℕ) (reply : Reply) (t : DriverState S)
      → kernel.send_message request s ≡ ((status, reply), t)
      → Sent (receive kernel ((status, reply), t))
  unfolding receive
  received status reply t e = elim (Bool-cases (nt_success status)) [
    | inr failed ↦ rw (failed) (inl (refl, failed))
    | inl sent ↦ rw (sent) (
        inr (
          ap (λ (m : (ℕ × Reply) × DriverState S). (m.0.1.status, m.0.1)) (sym e),
          ap (λ (m : (ℕ × Reply) × DriverState S). nt_success m.0.0) e ∙ sent,
          ap (λ (m : (ℕ × Reply) × DriverState S). m.1) (sym e),
        ))
  ]

  Sent-if :
      (closed long : Bool) (m : (ℕ × Reply) × DriverState S)
      → Sent m
      → Sent (
          if closed
          then ((Status.port_disconnected, no_reply), s)
          else if long
          then ((Status.name_too_long, no_reply), s)
          else m)
  Sent-if true long m h = inl (refl, refl)
  Sent-if false true m h = inl (refl, refl)
  Sent-if false false m h = h

  pub send_service_request-Sent :
      Sent (send_service_request kernel command rule_id real_path target_path s)
  unfolding send_service_request
  send_service_request-Sent = Sent-if _ _ _ (received _ _ (kernel.send_message request s).1 refl)

-- The service answers each message before the time for it is over.
abbrev pub IsInTime : {S : Type 0} → Kernel S → Type 0
IsInTime {S} kernel =
    (request : ServiceRequest) (s : DriverState S)
    → (kernel.send_message request s).0.0 ≢ Status.timeout

-- The service has received the request in the state, and has answered with a success.
abbrev pub IsAccepted : {S : Type 0} → Kernel S → ServiceRequest → DriverState S → Type 0
IsAccepted kernel request s =
    ((kernel.send_message request s).0.0 ≢ Status.timeout)
    × (nt_success (kernel.send_message request s).0.0 ≡ true)
    × (nt_success (kernel.send_message request s).0.1.status ≡ true)
