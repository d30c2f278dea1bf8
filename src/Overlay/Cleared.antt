-- ===== src/Overlay/Cleared.antt =====
-- What `Commit` and `Discard` of common/overlay_operations.cpp leave of the changes of their rule.
use path_overlay.Base.{◌≡◌, arith, not, ◌≢◌, subst, refl, sym, ap, ◌∙◌, inl, inr, none, List, []}
use mathlib.Core.Bool.{false≢true}
use path_overlay.Wide.{Text, is_empty, wide, same_text_refl}
use path_overlay.Os.{Os, rename}
use path_overlay.Rules.{OverlayRule}
use path_overlay.Action.{
  OperationResult, success, failure, is_success, ⊤, >>=-success, on_result, ◌>>=◌, ◌>>◌, attempt,
  pure, when, ignore, fail,
}
use path_overlay.Action.Keeps.{IsPreorder, Keeps, keeps_rules, Ensures, Ensures-bind, Ensures-then}
use path_overlay.Metadata.Records.{ChangeRecord, CleanupRecord}
use path_overlay.Metadata.Sql.{Engine, Tables}
use path_overlay.Metadata.Store.{
  run_statement, delete_changes_for_rule, add_commit_record, add_cleanup_record,
}
use path_overlay.Metadata.Changes.{find_change}
use path_overlay.Metadata.Changes.Statements.{delete_changes_for_rule_refines}
use path_overlay.Overlay.World.{World, M, manual_timestamp, tick_count, perform, on_metadata}
use path_overlay.Overlay.Commit.{
  drive_root, fail_commit, or_fail_commit, add_commit_log, apply_changes, commit,
}
use path_overlay.Overlay.Discard.{
  make_cleanup_id, queue_cleanup, isolate_shadow, discard_records, discard,
}
use path_overlay.Overlay.Preflight.{fail_commit-IsRefused}

module _ (os : Os) (engine : Engine) (rule : OverlayRule) where
  -- No row of the rule is left.
  abbrev pub IsCleared : World os → Type 0
  IsCleared w = (path : Text) → find_change rule.id path w.tables.changes ≡ none

  delete_changes_for_rule-IsCleared :
      (t : Tables) (a : ⊤) (path : Text)
      → (delete_changes_for_rule engine rule.id t).0 ≡ success a
      → find_change rule.id path (delete_changes_for_rule engine rule.id t).1.changes ≡ none
  delete_changes_for_rule-IsCleared t a path h =
      elim (delete_changes_for_rule_refines engine rule.id t) [
        | inl (failed, same) ↦ absurd (false≢true (sym failed ∙ ap is_success h))
        | inr (ok, (rules, rows)) ↦ rows rule.id path ∙ rw (same_text_refl rule.id)
      ]

  -- The method in the whole state.
  on_metadata-IsCleared :
      (w u : World os) (a : ⊤)
      → on_metadata os (delete_changes_for_rule engine rule.id) w ≡ (success a, u)
      → IsCleared u
  unfolding on_metadata
  on_metadata-IsCleared w u a h path =
      subst (λ v. find_change rule.id path v.tables.changes ≡ none) (ap (λ r. r.1) h)
        (delete_changes_for_rule-IsCleared w.tables a path (ap (λ r. r.0) h))

  module _ (commit_id : Text) where
    fail_commit-fails :
        (message : Text) (w : World os) (a : ⊤) (w' : World os)
        → fail_commit os engine rule commit_id message w ≢ (success a, w')
    fail_commit-fails message w a w' h = false≢true (
        sym (fail_commit-IsRefused os engine rule commit_id message w).0
        ∙ ap (λ r. is_success r.0) h)

    settle-success :
        (r : OperationResult ⊤) (w : World os) (a : ⊤) (w' : World os)
        → on_result r (λ _. pure tt) (λ message. fail_commit os engine rule commit_id message) w
          ≡ (success a, w')
        → (r ≡ success tt) × (w ≡ w')
    unfolding on_result pure
    settle-success (success _) w a w' h = (refl, ap (λ r. r.1) h)
    settle-success (failure message) w a w' h = absurd (fail_commit-fails message w a w' h)

    or_fail_commit-success :
        (m : M os ⊤) (w : World os) (a : ⊤) (w' : World os)
        → or_fail_commit os engine rule commit_id m w ≡ (success a, w')
        → m w ≡ (success tt, w')
    unfolding or_fail_commit attempt ◌>>=◌
    or_fail_commit-success m w a w' h = let (ok, same) = settle-success (m w).0 (m w).1 a w' h in cc

    add_commit_log-changes :
        (status message : Text) (w : World os)
        → (add_commit_log os engine rule commit_id status message w).1.tables.changes
          ≡ w.tables.changes
    unfolding add_commit_log on_metadata add_commit_record run_statement
    add_commit_log-changes status message w = ground arith

    -- The end of `Commit`, from the deletion of the rows on.
    forget-IsCleared : Ensures IsCleared (
        or_fail_commit os engine rule commit_id
          (on_metadata os (delete_changes_for_rule engine rule.id))
        >> add_commit_log os engine rule commit_id (wide "done") [])
    unfolding ◌>>◌
    forget-IsCleared = record {
      after = λ w a w' h.
          let forget = on_metadata os (delete_changes_for_rule engine rule.id) in
          let log = add_commit_log os engine rule commit_id (wide "done") [] in
          let (b, u, e, g) =
            >>=-success (or_fail_commit os engine rule commit_id forget) (λ _. log) w h in
          let cleared = on_metadata-IsCleared w u tt (or_fail_commit-success forget w b u e) in
          λ path.
            subst (λ v. find_change rule.id path v.tables.changes ≡ none) (ap (λ r. r.1) g)
              (ap (find_change rule.id path) (add_commit_log-changes (wide "done") [] u)
                ∙ cleared path);
    }

    apply_changes-IsCleared :
        (records : List ChangeRecord)
        → Ensures IsCleared (apply_changes os engine rule commit_id records)
    unfolding apply_changes
    apply_changes-IsCleared records = Ensures-bind _ _ λ made.
        Ensures-then _ _
          (Ensures-then _ _ (Ensures-bind _ _ λ removed. Ensures-then _ _ forget-IsCleared))

    verdict-IsCleared :
        (records : List ChangeRecord) (verdict : OperationResult ⊤)
        → Ensures IsCleared (
            on_result verdict
              (λ _. apply_changes os engine rule commit_id records)
              (λ message. fail_commit os engine rule commit_id message))
    unfolding on_result
    verdict-IsCleared records (success _) = record {
      after = λ w a w' h. (apply_changes-IsCleared records).after w a w' h;
    }
    verdict-IsCleared records (failure message) = record {
      after = λ w a w' h. absurd (fail_commit-fails message w a w' h);
    }

    commit-IsCleared : Ensures IsCleared (commit os engine rule commit_id)
    unfolding commit
    commit-IsCleared =
        Ensures-bind _ _ λ records. Ensures-bind _ _ λ fs. verdict-IsCleared records _

    -- A commit that succeeds leaves no change of its rule.
    pub commit_clears :
        (w w' : World os)
        → commit os engine rule commit_id w ≡ (success tt, w')
        → (path : Text) → find_change rule.id path w'.tables.changes ≡ none
    commit_clears w w' h = commit-IsCleared.after w tt w' h

  -- The table of changes is the same.
  abbrev SameRows : World os → World os → Type 0
  SameRows w w' = w'.tables.changes ≡ w.tables.changes

  same_rows : IsPreorder SameRows
  same_rows = record { rel_refl = λ w. refl; rel_trans = λ w v u h k. k ∙ h }

  manual_timestamp-SameRows : Keeps SameRows (manual_timestamp os)
  unfolding manual_timestamp
  manual_timestamp-SameRows = record { at = λ w. refl }

  tick_count-SameRows : Keeps SameRows (tick_count os)
  unfolding tick_count
  tick_count-SameRows = record { at = λ w. refl }

  add_cleanup_record-SameRows :
      (r : CleanupRecord) → Keeps SameRows (on_metadata os (add_cleanup_record engine os r))
  unfolding on_metadata add_cleanup_record run_statement
  add_cleanup_record-SameRows r = record { at = λ w. ground arith }

  queue_cleanup-SameRows :
      (path : Text)
      → Keeps SameRows (when (not (is_empty path)) (queue_cleanup os engine rule path))
  unfolding queue_cleanup make_cleanup_id
  queue_cleanup-SameRows path =
      search
        (
          keeps_rules, same_rows, manual_timestamp-SameRows, tick_count-SameRows,
          add_cleanup_record-SameRows,
        )
        depth 12

  -- The second part of `Discard`.
  settled-IsCleared :
      (path : Text) (r : OperationResult ⊤) (w u : World os) (a : ⊤)
      → (r ≡ success tt → IsCleared w)
      → on_result r
          (λ _. when (not (is_empty path)) (queue_cleanup os engine rule path))
          (λ message.
            when (not (is_empty path)) (ignore (perform os (rename path (drive_root os rule))))
            >> fail message)
          w
        ≡ (success a, u)
      → IsCleared u
  unfolding on_result ◌>>◌ fail
  settled-IsCleared path (success _) w u a h e target =
      subst (λ v. find_change rule.id target v.tables.changes ≡ none) (ap (λ r. r.1) e)
        (ap (find_change rule.id target) ((queue_cleanup-SameRows path).at w) ∙ h refl target)
  settled-IsCleared path (failure message) w u a h e target =
      let (b, v, f, g) =
        >>=-success
          (when (not (is_empty path)) (ignore (perform os (rename path (drive_root os rule)))))
          (λ _. fail message) w e in
      cc

  discard_records-IsCleared :
      (path : Text) → Ensures IsCleared (discard_records os engine rule path)
  unfolding discard_records attempt ◌>>=◌
  discard_records-IsCleared path = record {
    after = λ w a u h.
        let forget = on_metadata os (delete_changes_for_rule engine rule.id) in
        settled-IsCleared path (forget w).0 (forget w).1 u a
          (λ ok. on_metadata-IsCleared w (forget w).1 tt cc) h;
  }

  -- A discard that succeeds leaves no change of its rule.
  pub discard_clears :
      (w w' : World os)
      → discard os engine rule w ≡ (success tt, w')
      → (path : Text) → find_change rule.id path w'.tables.changes ≡ none
  unfolding discard
  discard_clears w w' h =
      (Ensures-bind (isolate_shadow os engine rule) (discard_records os engine rule)
          discard_records-IsCleared).after
        w tt w' h
