-- ===== src/Driver/Writes.antt =====
-- What `PathOverlayPreCreate` of driver/PathOverlayFlt/Driver.c does with an open that may write to a file.
pub mod Prepared
use path_overlay.Base.{
  ℕ, zero, suc, ◌+◌, ◌*◌, ◌<◌, ◌≡◌, ◌≢◌, refl, sym, ap, subst, ◌∙◌, Bool, true, false, ◌&&◌, ◌||◌,
  not, inl, inr, Bool-cases, Option, none, some, [], ◌∷◌, length, leb, ltb, ◌==◌, if◌then◌else◌,
  arith,
}
use mathlib.Core.Bool.{false≢true}
use path_overlay.Wide.{Text, wide}
use path_overlay.Service.Request.{
  ServiceRequest, query_path, prepare_copy_on_write_command, trace_create,
}
use path_overlay.Driver.Status.{nt_success}
use path_overlay.Driver.Kernel.{RuleEntry, DriverState, Kernel, Reply, D, ◌>>=◌, ◌>>◌, pure, reads}
use path_overlay.Driver.Buffers.{Buffer, zeros, text_of, first_char}
use path_overlay.Driver.Cache.{is_service_process, find_source_rule_for_path}
use path_overlay.Driver.Access.{
  named, CreateCall, file_name, has_write_intent, is_directory_open, has_directory_create_hint,
  should_pass_through_reparse_point_open,
}
use path_overlay.Driver.Send.{
  send_service_request, request_of, trace_request, send_trace_request, trace_pre_create_decision,
  should_trace_pre_create, trace_detail,
}
use path_overlay.Driver.Send.Sent.{IsInTime, send_service_request-Sent}
use path_overlay.Driver.Shadow.{Built, built, refused, overran, build_shadow_path, allocate_copy}
use path_overlay.Driver.Triple.{
  Triple, Triple-pure, Triple-if, Triple-bind, Triple-reads, Triple-then, Triple-weaken,
}
use path_overlay.Driver.Create.{
  Preop, success_no_callback, complete, reparsed, memory_overrun, source_of, replace_name, trace,
  finish, prepare_write, prepare_view, decide, use_answer, write_intent, create_shadowed,
  create_in_rule, pre_create, passthrough_state, tombstone_state,
}
use path_overlay.Driver.Send.Traces.{
  text_of-zeros, some_text, not_refused, and_false, and_ne, and_left, and_right,
  allocate_copy-built, request_of-command, trace-keeps,
}
use path_overlay.Driver.Writes.Prepared.{
  KeepsInOverlay, HasPool, IsPrepared, query_request, IsShadowName, IsRedirected,
  decide-IsRedirected,
}

module _ {S : Type 0} (kernel : Kernel S) where
  module _ (call : CreateCall) (path : Text) (rule : RuleEntry) where
    module _ (Prepared : DriverState S → Type 0) (prepared : IsPrepared kernel rule path Prepared)
        (in_time : IsInTime kernel) (Named : Text → Type 0)
        (answers : (t : DriverState S)
          → Named (
              text_of
                (kernel.send_message (query_request kernel rule path) t).0.1.shadow_nt_path)) where
      abbrev Redirected : Preop → DriverState S → Type 0
      Redirected = IsRedirected kernel Named Prepared

      module _ (no_directory : is_directory_open call ≡ false)
          (no_hint : has_directory_create_hint call ≡ false) where
        -- An answer to a query that keeps the call in the overlay.
        abbrev KeepsCall : ℕ × Reply → Type 0
        KeepsCall answer =
            ((nt_success answer.0 && answer.1.path_state == passthrough_state) ≡ false)
            × (length (text_of answer.1.shadow_nt_path) < 520)
            × (nt_success answer.0 ≡ true → Named (text_of answer.1.shadow_nt_path))

        send_query-KeepsCall :
            KeepsInOverlay kernel
            → Triple
                (λ _. Unit {0})
                (send_service_request kernel query_path rule.rule_id path none)
                (λ answer _. KeepsCall answer)
        send_query-KeepsCall keeps = record {
          at = λ s u. elim (send_service_request-Sent kernel query_path rule.rule_id path none s) [
            | inl (none_sent, failed) ↦ subst KeepsCall (sym none_sent) (
              and_false _ _ failed,
              rw (text_of-zeros 520) (omega arith),
              λ done. absurd (false≢true (sym failed ∙ done)),
            )
            | inr (same, sent, after) ↦ subst KeepsCall (sym same) (
              and_ne _ _ _
                  (keeps _ s (request_of-command kernel query_path rule.rule_id path none)).0,
              (keeps _ s (request_of-command kernel query_path rule.rule_id path none)).1,
              λ done. answers s,
            )
          ];
        }

        module _ (source : Text) (writes : has_write_intent call ≡ true)
            (below : kernel.compares_equal source path ≡ false)
            (no_reparse : should_pass_through_reparse_point_open call ≡ false)
            (pool : HasPool kernel) where
          use_answer-IsRedirected :
              (shadow : Text) (answer : ℕ × Reply)
              → Named shadow
              → KeepsCall answer
              → Triple
                  (λ _. Unit {0})
                  (use_answer kernel call path rule shadow true answer)
                  Redirected
          unfolding use_answer
          use_answer-IsRedirected shadow (status, reply) n (stays, fits, gives) =
              rw (stays, no_reparse)
                (Triple-if (nt_success status && reply.path_state == tombstone_state) _ _
                  (λ hidden.
                    Triple-then _ _
                      (trace-keeps kernel call path rule _ _ _ _ _ (λ request s c u. tt))
                      (Triple-pure _ (λ s p. tt)))
                  (λ visible.
                    Triple-if (nt_success status && not (first_char reply.shadow_nt_path == 0)) _ _
                      (λ named_shadow. Triple-reads _ _ λ copy.
                        with_copy (text_of reply.shadow_nt_path) copy
                          (some_text reply.shadow_nt_path (and_right _ _ named_shadow)) fits
                          (gives (and_left _ _ named_shadow)))
                      (λ unnamed.
                        decide-IsRedirected kernel call path rule Prepared prepared in_time Named
                          no_directory no_hint shadow n)))
            where
              built_same : {a b : Text} → built a ≡ built b → a ≡ b
              built_same e = cc

              with_copy :
                  (text : Text) (copy : Built)
                  → 0 < length text
                  → length text < 520
                  → Named text
                  → Triple
                      (λ s. Unit {0} × (allocate_copy kernel text s ≡ copy))
                      (elim copy as (λ _. D S Preop) [
                        | built named_shadow ↦ decide kernel call path rule named_shadow true
                        | refused failed ↦ (do
                          trace kernel call path rule
                              (wide "response_shadow_alloc_failed")
                              failed
                              2
                              2
                              2
                          pure success_no_callback)
                        | overran ↦ pure memory_overrun
                      ])
                      Redirected
              with_copy text (built shadow) p l n = record {
                at = λ s q.
                    let same : built text ≡ built shadow =
                      sym (allocate_copy-built kernel text s p l (pool _ s)) ∙ q.1 in
                    (decide-IsRedirected kernel call path rule Prepared prepared in_time Named
                        no_directory no_hint shadow (subst Named (built_same same) n)).at
                      s tt;
              }
              with_copy text (refused status) p l n = record {
                at = λ s q.
                    absurd
                      (not_refused (sym (allocate_copy-built kernel text s p l (pool _ s)) ∙ q.1));
              }
              with_copy text overran p l n = Triple-pure _ (λ s q. tt)

          intent : write_intent kernel call path rule source ≡ true
          unfolding write_intent
          intent = rw (writes, below) refl

          create_shadowed-IsRedirected :
              KeepsInOverlay kernel
              → (shadow : Text) → Named shadow
              → Triple
                  (λ _. Unit {0})
                  (create_shadowed kernel call path rule source (built shadow))
                  Redirected
          unfolding create_shadowed
          create_shadowed-IsRedirected keeps shadow n =
              Triple-bind (λ answer _. KeepsCall answer) _ _ (send_query-KeepsCall keeps)
                λ answer. record {
                  at = λ t kept.
                      (Triple-then {P = λ u. Unit {0}} _ _
                          (trace-keeps kernel call path rule _ _ _ _ _ (λ request s c u. tt))
                          (subst
                            (λ write.
                              Triple (λ u. Unit {0})
                                (use_answer kernel call path rule shadow write answer) Redirected)
                            (sym intent) (use_answer-IsRedirected shadow answer n kept))).at
                        t tt;
                }

          create_in_rule-IsRedirected :
              KeepsInOverlay kernel
              → (shadow : Text) (s : DriverState S) → Named shadow
              → build_shadow_path kernel (text_of rule.store_nt_path) source path s ≡ built shadow
              → Redirected
                  (create_in_rule kernel call path rule source s).0
                  (create_in_rule kernel call path rule source s).1
          unfolding create_in_rule ◌>>=◌ reads
          create_in_rule-IsRedirected keeps shadow s n is_built =
              rw (is_built) ((create_shadowed-IsRedirected keeps shadow n).at s tt)

-- An open of a file that may write to it does not pass through to the file: where the call gets a new name,
-- that is the shadow, or the one that the service names in an answer to the query about the path, and the
-- service has accepted the request to copy the file at the path of the open to the overlay of the rule.
-- The open is not the service's and not one of a directory, of the source itself or of a reparse point; its
-- path has one rule and its shadow is built; the service answers every message in time, answers no query by
-- `PathOverlayPathStatePassthrough`, and ends a shadow that it names within its array; and the pool is not
-- exhausted. `Prepared` is any property that holds when the service has accepted that request, and that the
-- messages of a trace keep.
pub pre_create_writes_to_overlay :
    {S : Type 0} (kernel : Kernel S) (Prepared : DriverState S → Type 0) (call : CreateCall)
    (path : Text) (rule : RuleEntry) (matched shadow : Text) (s : DriverState S)
    → IsPrepared kernel rule path Prepared
    → IsInTime kernel
    → KeepsInOverlay kernel
    → HasPool kernel
    → is_service_process s.cache call.requestor ≡ false
    → file_name call.normalized_name call.opened_name ≡ named path
    → find_source_rule_for_path kernel s.cache path ≡ some (rule, matched)
    → build_shadow_path kernel (text_of rule.store_nt_path) (source_of rule matched) path s
      ≡ built shadow
    → is_directory_open call ≡ false
    → has_directory_create_hint call ≡ false
    → has_write_intent call ≡ true
    → kernel.compares_equal (source_of rule matched) path ≡ false
    → should_pass_through_reparse_point_open call ≡ false
    → IsRedirected kernel
        (IsShadowName kernel rule path shadow)
        Prepared
        (pre_create kernel call s).0
        (pre_create kernel call s).1
unfolding pre_create ◌>>=◌ reads
pre_create_writes_to_overlay kernel Prepared call path rule matched shadow s prepared in_time keeps
      pool other name found is_built no_directory no_hint writes below no_reparse =
    rw (other, name, found)
      (create_in_rule-IsRedirected kernel call path rule Prepared prepared in_time
        (IsShadowName kernel rule path shadow) (λ t. inr (t, refl)) no_directory no_hint
        (source_of rule matched) writes below no_reparse pool keeps shadow s (inl refl) is_built)
