-- ===== src/Driver/Tombstones.antt =====
-- What the callbacks of driver/PathOverlayFlt/Driver.c do with a path that the service hides.
use path_overlay.Base.{ℕ, ◌≡◌, refl, Bool, true, false, ◌&&◌, ◌==◌, none}
use mathlib.Core.Option.{some}
use path_overlay.Wide.{Text}
use path_overlay.Service.Request.{query_path}
use path_overlay.Driver.Status
use path_overlay.Driver.Status.{nt_success}
use path_overlay.Driver.Kernel.{RuleEntry, DriverState, Kernel, Reply, ◌>>=◌, pure, reads}
use path_overlay.Driver.Buffers.{text_of}
use path_overlay.Driver.Cache.{is_service_process, find_source_rule_for_path}
use path_overlay.Driver.Access.{named, CreateCall, file_name}
use path_overlay.Driver.Send.{send_service_request}
use path_overlay.Driver.Send.Traces.{trace-keeps}
use path_overlay.Driver.Shadow.{built, build_shadow_path}
use path_overlay.Driver.Triple.{Triple, Triple-pure, Triple-then}
use path_overlay.Driver.Create.{
  Preop, complete, source_of, use_answer, write_intent, create_shadowed, create_in_rule, pre_create,
  tombstone_state,
}
use path_overlay.Driver.Query.{
  QueryCall, deleted, resolve_in_rule, resolve_query_shadow_path, to_irp, pre_network_query_open,
  pre_query_open, should_defer_query_open,
}

-- An answer that says that the path is deleted.
abbrev pub IsTombstone : ℕ × Reply → Type 0
IsTombstone (status, reply) = (nt_success status && reply.path_state == tombstone_state) ≡ true

module _ {S : Type 0} (kernel : Kernel S) where
  -- The service answers in a state that the path is deleted.
  abbrev pub IsHidden : RuleEntry → Text → DriverState S → Type 0
  IsHidden rule path s =
      IsTombstone (send_service_request kernel query_path rule.rule_id path none s).0

  module _ (path : Text) (rule : RuleEntry) where
    abbrev NotFound : Preop → DriverState S → Type 0
    NotFound how t = how ≡ complete Status.object_name_not_found 0

    use_answer-NotFound :
        (call : CreateCall) (shadow : Text) (write : Bool) (answer : ℕ × Reply)
        → IsTombstone answer
        → Triple (λ _. Unit {0}) (use_answer kernel call path rule shadow write answer) NotFound
    unfolding use_answer
    use_answer-NotFound call shadow write (status, reply) h = rw (h) (
        Triple-then _ _ (trace-keeps kernel call path rule _ _ _ _ _ (λ request s c u. tt))
          (Triple-pure _ (λ s p. refl)))

    create_shadowed-NotFound :
        (call : CreateCall) (source shadow : Text) (s : DriverState S)
        → IsHidden rule path s
        → (create_shadowed kernel call path rule source (built shadow) s).0
          ≡ complete Status.object_name_not_found 0
    unfolding create_shadowed ◌>>=◌
    create_shadowed-NotFound call source shadow s hidden =
        let (answer, t) = send_service_request kernel query_path rule.rule_id path none s in
        (Triple-then {P = λ u. Unit {0}} _ _
            (trace-keeps kernel call path rule _ _ _ _ _ (λ request s c u. tt))
            (use_answer-NotFound call shadow (write_intent kernel call path rule source) answer
              hidden)).at
          t tt

    create_in_rule-NotFound :
        (call : CreateCall) (source shadow : Text) (s : DriverState S)
        → build_shadow_path kernel (text_of rule.store_nt_path) source path s ≡ built shadow
        → IsHidden rule path s
        → (create_in_rule kernel call path rule source s).0
          ≡ complete Status.object_name_not_found 0
    unfolding create_in_rule ◌>>=◌ reads
    create_in_rule-NotFound call source shadow s is_built hidden =
        rw (is_built) (create_shadowed-NotFound call source shadow s hidden)

    resolve_in_rule-deleted :
        (source : Text) (s : DriverState S)
        → IsHidden rule path s
        → (resolve_in_rule kernel rule source path s).0 ≡ deleted
    unfolding resolve_in_rule ◌>>=◌ pure
    resolve_in_rule-deleted source s hidden = rw (hidden) refl

    resolve_query_shadow_path-deleted :
        (matched : Text) (query : QueryCall) (s : DriverState S)
        → is_service_process s.cache query.requestor ≡ false
        → file_name query.normalized_name query.opened_name ≡ named path
        → find_source_rule_for_path kernel s.cache path ≡ some (rule, matched)
        → IsHidden rule path s
        → (resolve_query_shadow_path kernel query s).0 ≡ deleted
    unfolding resolve_query_shadow_path ◌>>=◌ reads
    resolve_query_shadow_path-deleted matched query s other name found hidden =
        rw (other, name, found, resolve_query_shadow_path)
          (resolve_in_rule-deleted (source_of rule matched) s hidden)

  -- A path that the service hides is hidden from every other process: `PathOverlayPreCreate` and
  -- `PathOverlayPreQueryOpen` complete the call and say that there is no such name, so does
  -- `PathOverlayPreNetworkQueryOpen` in the IRP, if there is one, and `PathOverlayShouldDeferQueryOpen` holds.
  -- The path has a rule and its shadow is built.
  pub callbacks_hide_tombstones :
      (path : Text) (rule : RuleEntry) (matched shadow : Text) (s : DriverState S)
      → find_source_rule_for_path kernel s.cache path ≡ some (rule, matched)
      → build_shadow_path kernel (text_of rule.store_nt_path) (source_of rule matched) path s
        ≡ built shadow
      → IsHidden rule path s
      → (create : CreateCall) (query : QueryCall)
      → is_service_process s.cache create.requestor ≡ false
      → is_service_process s.cache query.requestor ≡ false
      → file_name create.normalized_name create.opened_name ≡ named path
      → file_name query.normalized_name query.opened_name ≡ named path
      → ((pre_create kernel create s).0 ≡ complete Status.object_name_not_found 0)
        × ((pre_query_open kernel query s).0 ≡ complete Status.object_name_not_found 0)
        × ((pre_network_query_open kernel query s).0
            ≡ (complete Status.success 0, to_irp kernel query Status.object_name_not_found 0))
        × ((should_defer_query_open kernel query s).0 ≡ true)
  unfolding pre_create pre_query_open pre_network_query_open should_defer_query_open ◌>>=◌ reads
      pure
  callbacks_hide_tombstones path rule matched shadow s found is_built hidden create query other
        other' name name' =
      let gone =
        resolve_query_shadow_path-deleted path rule matched query s other' name' found hidden in
      (
        rw (other, name, found)
            (create_in_rule-NotFound path rule create (source_of rule matched) shadow s is_built
              hidden),
        rw (gone) refl,
        rw (gone) refl,
        rw (gone) refl,
      )
