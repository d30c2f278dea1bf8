-- ===== src/Driver/Writes/Prepared.antt =====
-- The part of `PathOverlayPreCreate` of driver/PathOverlayFlt/Driver.c that has the service copy a file.
use path_overlay.Base.{
  ℕ, ◌<◌, ◌≡◌, ◌≢◌, sym, ap, subst, ◌∙◌, Bool, true, false, ◌⊎◌, inl, inr, none, length,
  if◌then◌else◌,
}
use mathlib.Core.Bool.{false≢true}
use path_overlay.Wide.{Text}
use path_overlay.Service.Request.{
  ServiceRequest, query_path, prepare_copy_on_write_command, trace_create,
}
use path_overlay.Driver.Status.{nt_success}
use path_overlay.Driver.Kernel.{RuleEntry, DriverState, Kernel, Reply}
use path_overlay.Driver.Buffers.{text_of}
use path_overlay.Driver.Access.{CreateCall, is_directory_open, has_directory_create_hint}
use path_overlay.Driver.Send.{request_of, send_service_request}
use path_overlay.Driver.Send.Sent.{IsInTime, IsAccepted, send_service_request-Sent}
use path_overlay.Driver.Triple.{
  Triple, Triple-pure, Triple-if, Triple-bind, Triple-reads, Triple-then, Triple-weaken,
}
use path_overlay.Driver.Create.{
  Preop, success_no_callback, complete, reparsed, replace_name, finish, prepare_write, prepare_view,
  decide, passthrough_state,
}
use path_overlay.Driver.Send.Traces.{trace-keeps}

module _ {S : Type 0} (kernel : Kernel S) where
  -- The service answers no query by `PathOverlayPathStatePassthrough`, and a shadow that it names ends
  -- within its array.
  abbrev pub KeepsInOverlay : Type 0
  KeepsInOverlay =
      (request : ServiceRequest) (s : DriverState S)
      → request.command ≡ query_path
      → ((kernel.send_message request s).0.1.path_state ≢ passthrough_state)
        × (length (text_of (kernel.send_message request s).0.1.shadow_nt_path) < 520)

  abbrev pub HasPool : Type 0
  HasPool = (bytes : ℕ) (s : DriverState S) → kernel.allocate_pool bytes s ≡ true

  -- The request to copy the file at the path to the overlay of the rule.
  abbrev pub copy_request : RuleEntry → Text → ServiceRequest
  copy_request rule path = request_of prepare_copy_on_write_command rule.rule_id path none

  -- A property of states that holds when the service has accepted to copy the file at the path, under the
  -- rule, and that a message of a trace leaves alone.
  pub record IsPrepared (rule : RuleEntry) (path : Text) (Prepared : DriverState S → Type 0)
      : Type 0 where
    pub accepted :
        (s : DriverState S)
        → IsAccepted kernel (copy_request rule path) s
        → Prepared (kernel.send_message (copy_request rule path) s).1
    pub traced :
        (request : ServiceRequest) (s : DriverState S)
        → request.command ≡ trace_create
        → Prepared s
        → Prepared (kernel.send_message request s).1

  -- The call does not pass through, and has a new name only if that is one of `Named` and the file is
  -- prepared.
  abbrev pub IsRedirected :
      (Text → Type 0) → (DriverState S → Type 0) → Preop → DriverState S → Type 0
  IsRedirected Named Prepared success_no_callback t = ⊥
  IsRedirected Named Prepared (reparsed name) t = Named name × Prepared t
  IsRedirected Named Prepared _ t = Unit

  abbrev pub query_request : RuleEntry → Text → ServiceRequest
  query_request rule path = request_of query_path rule.rule_id path none

  -- The shadow, or a shadow that the service names in an answer to the query about the path.
  abbrev pub IsShadowName : RuleEntry → Text → Text → Text → Type 0
  IsShadowName rule path shadow name =
      (name ≡ shadow)
      ⊎ ((t : DriverState S) × (name
            ≡ text_of (kernel.send_message (query_request rule path) t).0.1.shadow_nt_path))

  module _ (call : CreateCall) (path : Text) (rule : RuleEntry) where
    module _ (Prepared : DriverState S → Type 0) (prepared : IsPrepared rule path Prepared)
        (in_time : IsInTime kernel) (Named : Text → Type 0) where
      abbrev Redirected : Preop → DriverState S → Type 0
      Redirected = IsRedirected Named Prepared

      renamed-IsRedirected :
          (test : Bool) (shadow : Text) (status : ℕ) (s : DriverState S)
          → Named shadow
          → Prepared s
          → Redirected (if test then reparsed shadow else complete status 0) s
      renamed-IsRedirected true shadow status s n p = (n, p)
      renamed-IsRedirected false shadow status s n p = tt

      finish-IsRedirected :
          (shadow : Text)
          → Named shadow
          → Triple Prepared (finish kernel call path rule shadow true) Redirected
      unfolding finish replace_name
      finish-IsRedirected shadow n = Triple-reads _ _ λ shadow_exists.
          Triple-reads _ _ λ real_exists.
            Triple-weaken (λ s p. p.0.0)
              (Triple-then _ _ (trace-keeps kernel call path rule _ _ _ _ _ prepared.traced) (
                Triple-reads _ _
                  λ status. Triple-pure _ (λ s p. renamed-IsRedirected _ shadow status s n p.0)))

      -- The state is prepared if the status of the call is a success.
      abbrev PreparedBy : ℕ × Reply → DriverState S → Type 0
      PreparedBy answer s = nt_success answer.0 ≡ true → Prepared s

      send_copy-PreparedBy :
          Triple
            (λ _. Unit {0})
            (send_service_request kernel prepare_copy_on_write_command rule.rule_id path none)
            PreparedBy
      send_copy-PreparedBy = record {
        at = λ s u.
            let (answer, t) =
              send_service_request kernel prepare_copy_on_write_command rule.rule_id path none s in
            elim (send_service_request-Sent kernel prepare_copy_on_write_command rule.rule_id path
              none s) [
                | inl (_, failed) ↦ λ done. absurd (false≢true (sym failed ∙ done))
                | inr (same, sent, after) ↦ λ done. subst Prepared (sym after) (
                    prepared.accepted s
                      (in_time _ s, sent, ap (λ (r : ℕ × Reply). nt_success r.0) (sym same) ∙ done))
              ];
      }

      prepare_write-IsRedirected :
          (shadow : Text)
          → Named shadow
          → Triple (λ _. Unit {0}) (prepare_write kernel call path rule shadow true) Redirected
      unfolding prepare_write
      prepare_write-IsRedirected shadow n =
          Triple-bind PreparedBy _ _ send_copy-PreparedBy λ answer.
            Triple-then _ _
              (trace-keeps kernel call path rule _ _ _ _ _
                (λ request s c h e. prepared.traced request s c (h e)))
              (Triple-if (nt_success answer.0) _ _
                (λ done. Triple-weaken (λ s p. p done) (finish-IsRedirected shadow n))
                (λ failed. Triple-pure _ (λ s p. tt)))

      module _ (no_directory : is_directory_open call ≡ false)
          (no_hint : has_directory_create_hint call ≡ false) where
        pub decide-IsRedirected :
            (shadow : Text)
            → Named shadow
            → Triple (λ _. Unit {0}) (decide kernel call path rule shadow true) Redirected
        unfolding decide prepare_view
        decide-IsRedirected shadow n = Triple-reads _ _ λ real. Triple-reads _ _ λ shadow_exists.
            Triple-weaken (λ s p. tt)
              (Triple-then _ _ (trace-keeps kernel call path rule _ _ _ _ _ (λ request s c u. tt))
                (rw (no_directory, no_hint) (prepare_write-IsRedirected shadow n)))
