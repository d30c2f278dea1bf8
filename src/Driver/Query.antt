-- ===== src/Driver/Query.antt =====
-- The callbacks of driver/PathOverlayFlt/Driver.c that answer a query by path.
use path_overlay.Base.{ℕ, Bool, true, false, ◌&&◌, not, Option, none, some, ◌==◌, if◌then◌else◌}
use path_overlay.Wide.{Text}
use path_overlay.Service.Request.{query_path}
use path_overlay.Driver.Status
use path_overlay.Driver.Status.{nt_success}
use path_overlay.Driver.Kernel.{RuleEntry, DriverState, Kernel, D, ◌>>=◌, pure, reads}
use path_overlay.Driver.Buffers.{text_of, first_char}
use path_overlay.Driver.Cache.{is_service_process, find_source_rule_for_path}
use path_overlay.Driver.Access.{NameResult, named, unnamed, file_name}
use path_overlay.Driver.Send.{send_service_request}
use path_overlay.Driver.Shadow.{
  Built, built, refused, overran, build_shadow_path, allocate_copy, nt_path_exists,
  query_path_information,
}
use path_overlay.Driver.Create.{
  Preop, success_no_callback, complete, disallow_fastio, disallow_fsfilter_io, memory_overrun,
  tombstone_state, passthrough_state, source_of,
}

-- A query: its requestor, the two answers of `FltGetFileNameInformation`, and the length of its buffer,
-- which may be missing, and whether there is an IRP to answer.
pub record QueryCall : Type 0 where
  pub requestor : ℕ
  pub normalized_name : NameResult
  pub opened_name : NameResult
  pub buffer_length : Option ℕ
  pub has_irp : Bool

-- What `PathOverlayResolveQueryShadowPath` finds: that the path is deleted, or its shadow, which is
-- there, or neither.
pub data Resolved : Type 0 where
  deleted : Resolved
  shadowed : Text → Resolved
  unresolved : ℕ → Resolved
  resolved_overrun : Resolved

module _ {S : Type 0} (kernel : Kernel S) where
  -- The shadow, if it is there.
  unfoldable pub existing_shadow : Built → DriverState S → Resolved
  existing_shadow (built shadow) s =
      if nt_path_exists kernel shadow s then shadowed shadow else unresolved Status.not_found
  existing_shadow (refused status) s = unresolved status
  existing_shadow overran s = resolved_overrun

  -- The part of `PathOverlayResolveQueryShadowPath` for a path of a rule.
  unfoldable pub resolve_in_rule : RuleEntry → Text → Text → D S Resolved
  unfolding existing_shadow
  resolve_in_rule rule source path = do
    (status, reply) ← send_service_request kernel query_path rule.rule_id path none
    if nt_success status && reply.path_state == tombstone_state
        then pure deleted
        else (if nt_success status && reply.path_state == passthrough_state
            then pure (unresolved Status.not_found)
            else (if nt_success status && not (first_char reply.shadow_nt_path == 0)
                then reads
                    (λ s. existing_shadow (allocate_copy kernel (text_of reply.shadow_nt_path) s) s)
                else reads (λ s.
                  existing_shadow
                    (build_shadow_path kernel (text_of rule.store_nt_path) source path s) s)))

  -- `PathOverlayResolveQueryShadowPath`
  unfoldable pub resolve_query_shadow_path : QueryCall → D S Resolved
  unfolding resolve_in_rule source_of
  resolve_query_shadow_path call = do
    cache ← reads (λ s. s.cache)
    if is_service_process cache call.requestor
        then pure (unresolved Status.not_found)
        else (elim (file_name call.normalized_name call.opened_name) [
          | unnamed status ↦ pure (unresolved status)
          | named path ↦ elim (find_source_rule_for_path kernel cache path) [
            | none ↦ pure (unresolved Status.not_found)
            | some (rule, matched) ↦ resolve_in_rule rule (source_of rule matched) path
          ]
        ])

  abbrev pub network_information_size : ℕ
  network_information_size = 56

  -- The status and the information that the callback writes to the IRP.
  abbrev pub to_irp : QueryCall → ℕ → ℕ → Option (ℕ × ℕ)
  to_irp call status information = if call.has_irp then some (status, information) else none

  -- `PathOverlayPreNetworkQueryOpen` from what is found on: how it ends, and what it writes to the IRP.
  unfoldable pub network_answer : QueryCall → Resolved → D S (Preop × Option (ℕ × ℕ))
  network_answer call deleted =
      pure (complete Status.success 0, to_irp call Status.object_name_not_found 0)
  network_answer call (unresolved _) = pure (success_no_callback, none)
  network_answer call resolved_overrun = pure (memory_overrun, none)
  network_answer call (shadowed shadow) = do
    (status, returned) ←
        reads (query_path_information kernel shadow (some network_information_size))
    let information = if returned == 0 then network_information_size else returned
    pure (
        if nt_success status
        then (complete Status.success information, to_irp call Status.success information)
        else (disallow_fastio, none))

  -- `PathOverlayPreNetworkQueryOpen`
  unfoldable pub pre_network_query_open : QueryCall → D S (Preop × Option (ℕ × ℕ))
  unfolding resolve_query_shadow_path network_answer
  pre_network_query_open call = do found ← resolve_query_shadow_path call; network_answer call found

  -- `PathOverlayPreQueryOpen` from what is found on.
  unfoldable pub query_answer : QueryCall → Resolved → D S Preop
  query_answer call deleted = pure (complete Status.object_name_not_found 0)
  query_answer call (unresolved _) = pure success_no_callback
  query_answer call resolved_overrun = pure memory_overrun
  query_answer call (shadowed shadow) = elim call.buffer_length [
    | none ↦ pure disallow_fsfilter_io
    | some size ↦ (do
      (status, returned) ← reads (query_path_information kernel shadow (some size))
      pure (if nt_success status then complete Status.success returned else disallow_fsfilter_io))
  ]

  -- `PathOverlayPreQueryOpen`
  unfoldable pub pre_query_open : QueryCall → D S Preop
  unfolding resolve_query_shadow_path query_answer
  pre_query_open call = do found ← resolve_query_shadow_path call; query_answer call found

  -- `PathOverlayShouldDeferQueryOpen`
  unfoldable pub should_defer_query_open : QueryCall → D S Bool
  unfolding resolve_query_shadow_path
  should_defer_query_open call = do
    found ← resolve_query_shadow_path call
    pure (elim found [ deleted ↦ true | shadowed _ ↦ true | _ ↦ false ])

-- `PathOverlayPreDirectoryControl`
unfoldable pub pre_directory_control : {S : Type 0} → D S Preop
pre_directory_control = pure success_no_callback
