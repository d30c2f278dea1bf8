-- ===== src/Driver/Create.antt =====
-- `PathOverlayPreCreate` of driver/PathOverlayFlt/Driver.c. What runs between two messages to the service
-- is taken as one step.
use path_overlay.Base.{ℕ, Bool, true, ◌&&◌, ◌||◌, not, none, some, ◌==◌, if◌then◌else◌}
use path_overlay.Wide.{Text, wide, is_empty}
use path_overlay.Service.Request.{
  query_path, prepare_copy_on_write_command, prepare_directory_view_command,
}
use path_overlay.Driver.Status
use path_overlay.Driver.Status.{nt_success}
use path_overlay.Driver.Kernel.{RuleEntry, Kernel, Reply, D, ◌>>=◌, ◌>>◌, pure, reads}
use path_overlay.Driver.Buffers.{text_of, first_char}
use path_overlay.Driver.Cache.{is_service_process, find_source_rule_for_path}
use path_overlay.Driver.Access.{
  named, unnamed, CreateCall, file_name, has_write_intent, is_directory_open,
  has_directory_create_hint, should_pass_through_reparse_point_open,
}
use path_overlay.Driver.Send.{send_service_request, trace_pre_create_decision}
use path_overlay.Driver.Shadow.{
  Built, built, refused, overran, build_shadow_path, allocate_copy, nt_path_exists,
}

-- How a callback ends: the call goes on to the file system, or it is complete with a status and an
-- information, or its file object has a new name and the status is `STATUS_REPARSE`; or a slow path
-- is asked for; or memory was overrun.
pub data Preop : Type 0 where
  success_no_callback : Preop
  complete : ℕ → ℕ → Preop
  reparsed : Text → Preop
  disallow_fastio : Preop
  disallow_fsfilter_io : Preop
  memory_overrun : Preop

abbrev pub tombstone_state : ℕ
tombstone_state = 1

abbrev pub passthrough_state : ℕ
passthrough_state = 2

-- The source of the call: what matched, or the source of the rule where that is empty.
unfoldable pub source_of : RuleEntry → Text → Text
unfolding text_of
source_of rule matched = if is_empty matched then text_of rule.source_nt_path else matched

module _ {S : Type 0} (kernel : Kernel S) where
  -- `IoReplaceFileObjectName`, and the end of the callback.
  unfoldable pub replace_name : Text → D S Preop
  replace_name shadow = do
    status ← reads (kernel.replace_file_object_name shadow)
    pure (if nt_success status then reparsed shadow else complete status 0)

  module _ (call : CreateCall) (path : Text) (rule : RuleEntry) where
    -- `PathOverlayTracePreCreateDecision` for the rule.
    unfoldable pub trace : Text → ℕ → ℕ → ℕ → ℕ → D S (Unit {0})
    trace action status write real shadow =
        trace_pre_create_decision kernel call path (some rule.rule_id) action status write real
          shadow

    -- The end of `PathOverlayPreCreate`, from the last test of `writeIntent` on.
    unfoldable pub finish : Text → Bool → D S Preop
    unfolding replace_name trace
    finish shadow write = do
      shadow_exists ← reads (nt_path_exists kernel shadow)
      real_exists ← reads (nt_path_exists kernel path)
      if write || shadow_exists
          then (do trace (wide "final_reparse") 0 (if write then 1 else 0) 2 1; replace_name shadow)
          else (if real_exists
              then (do trace (wide "passthrough_existing_real") 0 0 1 0; pure success_no_callback)
              else (do
                trace (wide "missing_shadow_and_real_not_found") Status.object_name_not_found 0 0 0
                pure (complete Status.object_name_not_found 0)))

    -- The step that has the service copy the file.
    unfoldable pub prepare_write : Text → Bool → D S Preop
    unfolding finish
    prepare_write shadow write = if not write then finish shadow write else (do
      (status, _) ← send_service_request kernel prepare_copy_on_write_command rule.rule_id path none
      trace (if nt_success status then wide "copy_on_write_ok" else wide "copy_on_write_failed")
          status 1 2 2
      if nt_success status then finish shadow write else pure (complete status 0))

    -- The step that has the service show a directory.
    unfoldable pub prepare_view : Text → Bool → D S Preop
    unfolding prepare_write
    prepare_view shadow write =
        if write || not (is_directory_open call) then prepare_write shadow write else (do
          (status, _) ←
              send_service_request kernel prepare_directory_view_command rule.rule_id path none
          trace
              (if nt_success status
                then wide "directory_view_prepare_ok"
                else wide "directory_view_prepare_failed")
              status 0 2 2
          if nt_success status
              then (do trace (wide "directory_view_reparse") status 0 2 2; replace_name shadow)
              else prepare_write shadow write)

    -- The block that looks for the real file and the shadow, with the write intent on its way in.
    unfoldable pub decide : Text → Bool → D S Preop
    unfolding prepare_view
    decide shadow write = do
      real ← reads (nt_path_exists kernel path)
      shadow_exists ← reads (nt_path_exists kernel shadow)
      let directory = is_directory_open call
      let hint = has_directory_create_hint call
      trace (wide "decision") 0 (if write then 1 else 0) (if real then 1 else 0)
          (if shadow_exists then 1 else 0)
      if (directory || hint) && (not real && shadow_exists)
          then (do
            trace (wide "direct_shadow_reparse") 0 (if write then 1 else 0) 0 1
            replace_name shadow)
          else (if not write && (hint && (not real && not shadow_exists))
              then (do trace (wide "force_write_dir_hint") 0 1 0 0; prepare_view shadow true)
              else (if not write && (directory && (not real && not shadow_exists))
                  then (do
                    trace (wide "missing_directory_open_not_found") Status.object_name_not_found 0 0
                        0
                    pure (complete Status.object_name_not_found 0))
                  else prepare_view shadow write))

    -- The write intent that the callback starts from: none on the source itself.
    unfoldable pub write_intent : Text → Bool
    unfolding has_write_intent
    write_intent source = has_write_intent call && not (kernel.compares_equal source path)

    -- What the callback does with the answer to the query: the shadow that it names is the one to use.
    unfoldable pub use_answer : Text → Bool → ℕ × Reply → D S Preop
    unfolding decide
    use_answer shadow write (status, reply) =
        if nt_success status && reply.path_state == tombstone_state
        then (do
          trace (wide "tombstone") status 2 2 2
          pure (complete Status.object_name_not_found 0))
        else if nt_success status && reply.path_state == passthrough_state
        then (do trace (wide "passthrough_state") status 2 2 2; pure success_no_callback)
        else if should_pass_through_reparse_point_open call
        then (do
          trace (wide "reparse_point_open_passthrough") status 2 2 2
          pure success_no_callback)
        else if nt_success status && not (first_char reply.shadow_nt_path == 0)
        then (do
          copy ← reads (allocate_copy kernel (text_of reply.shadow_nt_path))
          elim copy [
            | built named_shadow ↦ decide named_shadow write
            | refused failed ↦ (do
              trace (wide "response_shadow_alloc_failed") failed 2 2 2
              pure success_no_callback)
            | overran ↦ pure memory_overrun
          ])
        else decide shadow write

    -- `PathOverlayPreCreate` for a path of a rule, with the source of the rule and the shadow, or the
    -- status of `PathOverlayBuildShadowPath`.
    unfoldable pub create_shadowed : Text → Built → D S Preop
    unfolding use_answer write_intent
    create_shadowed source (refused status) = do
      trace (wide "build_shadow_failed") status 2 2 2
      pure success_no_callback
    create_shadowed source overran = pure memory_overrun
    create_shadowed source (built shadow) = do
      answer ← send_service_request kernel query_path rule.rule_id path none
      trace (wide "query") answer.0 2 2 2
      use_answer shadow (write_intent source) answer

    -- `PathOverlayPreCreate` for a path of a rule, with the source of the rule.
    unfoldable pub create_in_rule : Text → D S Preop
    unfolding create_shadowed
    create_in_rule source = do
      shadow ← reads (build_shadow_path kernel (text_of rule.store_nt_path) source path)
      create_shadowed source shadow

  -- `PathOverlayPreCreate`
  unfoldable pub pre_create : CreateCall → D S Preop
  unfolding create_in_rule source_of
  pre_create call = do
    cache ← reads (λ s. s.cache)
    if is_service_process cache call.requestor
        then pure success_no_callback
        else (elim (file_name call.normalized_name call.opened_name) [
          | unnamed _ ↦ pure success_no_callback
          | named path ↦ elim (find_source_rule_for_path kernel cache path) [
            | none ↦ (do
              trace_pre_create_decision kernel call path none (wide "no_rule") 0 2 2 2
              pure success_no_callback)
            | some (rule, matched) ↦ create_in_rule call path rule (source_of rule matched)
          ]
        ])
