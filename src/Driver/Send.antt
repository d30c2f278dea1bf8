-- ===== src/Driver/Send.antt =====
-- The messages from driver/PathOverlayFlt/Driver.c to the service.
pub mod Sent
pub mod Traces
use path_overlay.Base.{
  ℕ, ◌+◌, ◌*◌, ◌-◌, Bool, true, false, ◌&&◌, ◌||◌, not, Option, none, some, List, [], ◌∷◌, length,
  take, ltb, leb, ◌==◌, if◌then◌else◌,
}
use path_overlay.Wide.{Text, wide}
use path_overlay.Service.Request.{ServiceRequest, protocol_version, max_path_chars, trace_create}
use path_overlay.Driver.Status
use path_overlay.Driver.Status.{nt_success}
use path_overlay.Driver.Kernel.{
  DriverState, Kernel, Reply, TraceDetail, D, ◌>>=◌, ◌>>◌, pure, reads,
}
use path_overlay.Driver.Buffers.{
  Buffer, zeros, null_terminated_length, text_of, copy_null_terminated,
}
use path_overlay.Driver.Cache.{max_rule_id_chars}
use path_overlay.Driver.Access.{
  CreateCall, disposition_of, desired_access, is_directory_open, has_directory_create_hint,
}

-- `PATHOVERLAY_SERVICE_RESPONSE response = { 0 }`
abbrev pub no_reply : Reply
no_reply = record { status = 0; path_state = 0; shadow_nt_path = zeros max_path_chars }

-- What the service reads from an array of the request that was zero and took a copy.
unfoldable pub sent_text : ℕ → Buffer → ℕ → Text
unfolding copy_null_terminated text_of
sent_text chars source source_chars =
    text_of (copy_null_terminated (zeros chars) source source_chars)

-- The request of `PathOverlaySendServiceRequest`.
unfoldable pub request_of : ℕ → Buffer → Text → Option Text → ServiceRequest
unfolding sent_text null_terminated_length
request_of command rule_id real_path target_path = record {
  version = protocol_version;
  command = command;
  rule_id = sent_text max_rule_id_chars rule_id (null_terminated_length rule_id);
  real_nt_path = sent_text max_path_chars real_path (length real_path);
  target_nt_path = elim target_path [
    | none ↦ []
    | some path ↦ sent_text max_path_chars path (length path)
  ];
}

-- The text has no room in an array of a request: `Length >= sizeof(...)`, in bytes.
unfoldable pub is_too_long : Text → Bool
is_too_long path = leb (2 * max_path_chars) (2 * length path)

-- `Value == NULL`, the loops over the needle of `PathOverlayUnicodeStringContainsInsensitive`, and the
-- loop over the value, from each place on.
module _ {S : Type 0} (kernel : Kernel S) where
  unfoldable pub starts_insensitive : Text → Text → Bool
  starts_insensitive value [] = true
  starts_insensitive [] (n ∷ needle) = false
  starts_insensitive (ch ∷ value) (n ∷ needle) =
      kernel.upcase ch == kernel.upcase n && starts_insensitive value needle

  unfoldable pub contains_from : Text → Text → Bool
  unfolding starts_insensitive
  contains_from [] needle = starts_insensitive [] needle
  contains_from (ch ∷ value) needle =
      starts_insensitive (ch ∷ value) needle || contains_from value needle

  unfoldable pub contains_insensitive : Option Text → Text → Bool
  unfolding contains_from
  contains_insensitive none needle = false
  contains_insensitive (some value) needle =
      if length needle == 0 || ltb (length value) (length needle)
      then false
      else contains_from value needle

  -- `PathOverlayShouldTracePreCreate`
  unfoldable pub should_trace_pre_create : Text → CreateCall → Bool
  unfolding contains_insensitive
  should_trace_pre_create path call =
      contains_insensitive (some path) (wide "empty-root")
      || (contains_insensitive (some path) (wide "junction-out")
          || (contains_insensitive call.file_object_name (wide "empty-root")
              || contains_insensitive call.file_object_name (wide "junction-out")))

  -- The end of `PathOverlaySendServiceRequest`, from what `FltSendMessage` returns.
  unfoldable pub receive : (ℕ × Reply) × DriverState S → (ℕ × Reply) × DriverState S
  receive ((status, reply), t) =
      if not (nt_success status) then ((status, no_reply), t) else ((reply.status, reply), t)

  -- `PathOverlaySendServiceRequest`: the status, and the response.
  unfoldable pub send_service_request : ℕ → Buffer → Text → Option Text → D S (ℕ × Reply)
  unfolding receive
  send_service_request command rule_id real_path target_path s =
      if not s.client_port
      then ((Status.port_disconnected, no_reply), s)
      else if is_too_long real_path
          || elim target_path [ none ↦ false | some path ↦ is_too_long path ]
      then ((Status.name_too_long, no_reply), s)
      else receive (kernel.send_message (request_of command rule_id real_path target_path) s)

  -- The request of `PathOverlaySendTraceRequest`.
  unfoldable pub trace_request : Option Buffer → Text → Text → ServiceRequest
  unfolding sent_text null_terminated_length
  trace_request rule_id real_path detail = record {
    version = protocol_version;
    command = trace_create;
    rule_id = elim rule_id [
      | none ↦ []
      | some id ↦ sent_text max_rule_id_chars id (null_terminated_length id)
    ];
    real_nt_path = sent_text max_path_chars real_path (length real_path);
    target_nt_path = sent_text max_path_chars detail (length detail);
  }

  -- `PathOverlaySendTraceRequest`
  unfoldable pub send_trace_request : Option Buffer → Text → Text → D S (Unit {0})
  unfolding trace_request is_too_long
  send_trace_request rule_id real_path detail s =
      if not s.client_port || is_too_long real_path
      then (tt, s)
      else (tt, (kernel.send_message (trace_request rule_id real_path detail) s).1)

  abbrev pub flag : Bool → ℕ
  flag value = if value then 1 else 0

  -- `PathOverlayCopyUnicodeStringSnippet` into an array of 128 characters, as it is printed.
  unfoldable pub snippet : Option Text → Text
  unfolding text_of
  snippet none = []
  snippet (some source) =
      text_of (take (if leb 128 (length source) then 127 else length source) source)

  -- What `PathOverlayTracePreCreateDecision` prints.
  unfoldable pub trace_detail : CreateCall → Text → ℕ → ℕ → ℕ → ℕ → TraceDetail
  unfolding snippet desired_access is_directory_open has_directory_create_hint
  trace_detail call action status write_intent real_path_exists shadow_path_exists = record {
    action = action;
    status = status;
    options = call.options;
    disposition = disposition_of call.options;
    file_attributes = call.file_attributes;
    desired_access = desired_access call;
    directory_open = flag (is_directory_open call);
    directory_hint = flag (has_directory_create_hint call);
    write_intent = write_intent;
    real_path_exists = real_path_exists;
    shadow_path_exists = shadow_path_exists;
    file_object_name = snippet call.file_object_name;
  }

  -- `PathOverlayTracePreCreateDecision`
  unfoldable pub trace_pre_create_decision :
      CreateCall → Text → Option Buffer → Text → ℕ → ℕ → ℕ → ℕ → D S (Unit {0})
  trace_pre_create_decision call path rule_id action status write_intent real_path_exists
        shadow_path_exists =
      if not (should_trace_pre_create path call)
      then pure tt
      else elim (kernel.format_detail
          (trace_detail call action status write_intent real_path_exists shadow_path_exists)) [
            | none ↦ pure tt
            | some detail ↦ send_trace_request rule_id path detail
          ]
