-- ===== src/Overlay/OtherRules/Ending.antt =====
-- `Commit` and `Discard` of common/overlay_operations.cpp, and the metadata of the other rules along a
-- sequence of calls.
use path_overlay.Base.{Bool, ◌≡◌, false, List, [], ◌∷◌}
use path_overlay.Wide.{Text, same_text}
use path_overlay.Os.{Os}
use path_overlay.Rules.{OverlayRule}
use path_overlay.Action.{⊤, ignore, for_each}
use path_overlay.Action.Keeps.{Keeps, Keeps-for_each}
use path_overlay.Metadata.Sql.{Engine}
use path_overlay.Metadata.Records.{
  ChangeState, created, modified, deleted, tombstone, renamed, ChangeRecord,
}
use path_overlay.Metadata.Changes.{find_change}
use path_overlay.Overlay.World.{World, M}
use path_overlay.Overlay.Prepare.{
  renamed_target_round, renamed_target_loop, prepare_renamed_target_path, prepare_copy_on_write,
  prepare_directory_view, record_created_file, record_delete,
}
use path_overlay.Overlay.Rename.{record_rename}
use path_overlay.Overlay.Commit.{
  add_commit_log, fail_commit, fail_commit_if, or_fail_commit, back_up, commit_write, commit_delete,
  commit_rename, commit_change, apply_changes, commit,
}
use path_overlay.Overlay.Discard.{
  discard_cleanup_root, make_cleanup_id, queue_cleanup, isolate_shadow, discard_records, discard,
}
use path_overlay.Overlay.OtherRules.Methods.{
  Rest, Rest-IsPreorder, rest_rules, prepare_directory_view-Rest, prepare_copy_on_write-Rest,
  record_created_file-Rest, record_delete-Rest, record_rename-Rest,
}

module _ (os : Os) (engine : Engine) (rule : OverlayRule) where
  renamed_target_round-Rest :
      (path : Text) (r : ChangeRecord) (next : M os Text)
      → Keeps (Rest os engine rule) next
      → Keeps (Rest os engine rule) (renamed_target_round os engine rule path r next)
  unfolding renamed_target_round
  renamed_target_round-Rest path r next k = search rest_rules depth 12

  renamed_target_loop-Rest :
      (path : Text) (records : List ChangeRecord)
      → Keeps (Rest os engine rule) (renamed_target_loop os engine rule path records)
  unfolding renamed_target_loop
  renamed_target_loop-Rest path [] = search rest_rules
  renamed_target_loop-Rest path (r ∷ rest) =
      renamed_target_round-Rest path r _ (renamed_target_loop-Rest path rest)

  prepare_renamed_target_path-Rest :
      (path : Text) → Keeps (Rest os engine rule) (prepare_renamed_target_path os engine rule path)
  unfolding prepare_renamed_target_path
  prepare_renamed_target_path-Rest path = search (rest_rules, renamed_target_loop-Rest) depth 12

  module _ (commit_id : Text) where
    add_commit_log-Rest :
        (status message : Text)
        → Keeps (Rest os engine rule) (add_commit_log os engine rule commit_id status message)
    unfolding add_commit_log
    add_commit_log-Rest status message = search rest_rules depth 12

    fail_commit-Rest :
        {A : Type 0} (message : Text)
        → Keeps (Rest os engine rule) (fail_commit os engine rule commit_id {A = A} message)
    unfolding fail_commit
    fail_commit-Rest message = search (rest_rules, add_commit_log-Rest) depth 12

    fail_commit_if-Rest :
        (test : Bool) (message : Text)
        → Keeps (Rest os engine rule) (fail_commit_if os engine rule commit_id test message)
    unfolding fail_commit_if
    fail_commit_if-Rest test message = search (rest_rules, fail_commit-Rest) depth 12

    or_fail_commit-Rest :
        (m : M os ⊤)
        → Keeps (Rest os engine rule) m
        → Keeps (Rest os engine rule) (or_fail_commit os engine rule commit_id m)
    unfolding or_fail_commit
    or_fail_commit-Rest m k = search (rest_rules, fail_commit-Rest) depth 12

    back_up-Rest :
        (path : Text) → Keeps (Rest os engine rule) (back_up os engine rule commit_id path)
    unfolding back_up
    back_up-Rest path = search (rest_rules, or_fail_commit-Rest) depth 12

    commit_write-Rest :
        (r : ChangeRecord) → Keeps (Rest os engine rule) (commit_write os engine rule commit_id r)
    unfolding commit_write
    commit_write-Rest r = search (rest_rules, fail_commit_if-Rest, back_up-Rest) depth 16

    commit_delete-Rest :
        (r : ChangeRecord) → Keeps (Rest os engine rule) (commit_delete os engine rule commit_id r)
    unfolding commit_delete
    commit_delete-Rest r = search (rest_rules, fail_commit_if-Rest, back_up-Rest) depth 16

    commit_rename-Rest :
        (r : ChangeRecord) → Keeps (Rest os engine rule) (commit_rename os engine rule commit_id r)
    unfolding commit_rename
    commit_rename-Rest r = search (rest_rules, fail_commit_if-Rest, back_up-Rest) depth 20

    by_state-Rest :
        (r : ChangeRecord) (state : ChangeState)
        → Keeps (Rest os engine rule) (elim state as (λ _. M os ⊤) [
          | created ↦ commit_write os engine rule commit_id r
          | modified ↦ commit_write os engine rule commit_id r
          | deleted ↦ commit_delete os engine rule commit_id r
          | tombstone ↦ commit_delete os engine rule commit_id r
          | renamed ↦ commit_rename os engine rule commit_id r
        ])
    by_state-Rest r created = commit_write-Rest r
    by_state-Rest r modified = commit_write-Rest r
    by_state-Rest r deleted = commit_delete-Rest r
    by_state-Rest r tombstone = commit_delete-Rest r
    by_state-Rest r renamed = commit_rename-Rest r

    commit_change-Rest :
        (r : ChangeRecord) → Keeps (Rest os engine rule) (commit_change os engine rule commit_id r)
    unfolding commit_change
    commit_change-Rest r = by_state-Rest r r.state

    apply_changes-Rest :
        (records : List ChangeRecord)
        → Keeps (Rest os engine rule) (apply_changes os engine rule commit_id records)
    unfolding apply_changes
    apply_changes-Rest records =
        search
          (
            rest_rules, fail_commit_if-Rest, or_fail_commit-Rest, add_commit_log-Rest,
            commit_change-Rest,
          )
          depth 16

    commit-Rest : Keeps (Rest os engine rule) (commit os engine rule commit_id)
    unfolding commit
    commit-Rest = search (rest_rules, apply_changes-Rest, fail_commit-Rest) depth 12

  queue_cleanup-Rest :
      (path : Text) → Keeps (Rest os engine rule) (queue_cleanup os engine rule path)
  unfolding queue_cleanup make_cleanup_id
  queue_cleanup-Rest path = search rest_rules depth 16

  isolate_shadow-Rest : Keeps (Rest os engine rule) (isolate_shadow os engine rule)
  unfolding isolate_shadow discard_cleanup_root
  isolate_shadow-Rest = search rest_rules depth 16

  discard_records-Rest :
      (path : Text) → Keeps (Rest os engine rule) (discard_records os engine rule path)
  unfolding discard_records
  discard_records-Rest path = search (rest_rules, queue_cleanup-Rest) depth 12

  discard-Rest : Keeps (Rest os engine rule) (discard os engine rule)
  unfolding discard
  discard-Rest = search (rest_rules, isolate_shadow-Rest, discard_records-Rest) depth 12

-- A call of a method of the overlay operations.
pub data Call : Type 0 where
  copy_on_write_of directory_view_of renamed_target_of created_file deletion_of : Text → Call
  rename_to : Text → Text → Call
  commit_as : Text → Call
  discard_all : Call

module _ (os : Os) (engine : Engine) (rule : OverlayRule) where
  -- The call, whatever its outcome.
  unfoldable pub run : Call → M os ⊤
  run (copy_on_write_of path) = ignore (prepare_copy_on_write os engine rule path)
  run (directory_view_of path) = ignore (prepare_directory_view os engine rule path)
  run (renamed_target_of path) = ignore (prepare_renamed_target_path os engine rule path)
  run (created_file path) = ignore (record_created_file os engine rule path)
  run (deletion_of path) = ignore (record_delete os engine rule path)
  run (rename_to source target) = ignore (record_rename os engine rule source target)
  run (commit_as id) = ignore (commit os engine rule id)
  run discard_all = ignore (discard os engine rule)

  run-Rest : (call : Call) → Keeps (Rest os engine rule) (run call)
  unfolding run
  run-Rest (copy_on_write_of path) = search (rest_rules, prepare_copy_on_write-Rest)
  run-Rest (directory_view_of path) = search (rest_rules, prepare_directory_view-Rest)
  run-Rest (renamed_target_of path) = search (rest_rules, prepare_renamed_target_path-Rest)
  run-Rest (created_file path) = search (rest_rules, record_created_file-Rest)
  run-Rest (deletion_of path) = search (rest_rules, record_delete-Rest)
  run-Rest (rename_to source target) = search (rest_rules, record_rename-Rest)
  run-Rest (commit_as id) = search (rest_rules, commit-Rest)
  run-Rest discard_all = search (rest_rules, discard-Rest)

  -- After any sequence of calls of the methods on a rule, each with any outcome, the rules are the same
  -- and every other rule has the same rows of changes.
  pub calls_keep_other_rules :
      (calls : List Call) (w : World os)
      → ((for_each calls run w).1.tables.rules ≡ w.tables.rules)
        × ((id path : Text)
            → same_text rule.id id ≡ false
            → find_change id path (for_each calls run w).1.tables.changes
              ≡ find_change id path w.tables.changes)
  calls_keep_other_rules calls w =
      (Keeps-for_each (Rest-IsPreorder os engine rule) calls run run-Rest).at w
