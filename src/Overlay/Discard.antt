-- ===== src/Overlay/Discard.antt =====
-- `Discard` and `ProcessCleanupQueue` of common/overlay_operations.cpp.
use path_overlay.Base.{ℕ, ◌+◌, Bool, ◌&&◌, ◌||◌, not, []}
use path_overlay.Base.{◌++◌, if◌then◌else◌}
use path_overlay.Wide.{Text, wide, same_text, is_empty, decimal}
use path_overlay.Os.{Os, remove_all, rename}
use path_overlay.Paths.{normalize_path, safe_path_segment}
use path_overlay.Rules.{OverlayRule, store_root}
use path_overlay.Action.{
  ⊤, pure, fail, gets, fail_if, when, attempt, ignore, on_result, for_each, ◌>>=◌, ◌>>◌,
}
use path_overlay.Metadata.Records.{CleanupRecord}
use path_overlay.Metadata.Sql.{Engine}
use path_overlay.Metadata.Store.{
  get_rule, delete_changes_for_rule, add_cleanup_record, update_cleanup_record,
  list_cleanup_records,
}
use path_overlay.Overlay.World.{M, perform, on_metadata, is_error, manual_timestamp, tick_count}
use path_overlay.Overlay.FsPath.{is_same_path_or_descendant}
use path_overlay.Overlay.Commit.{drive_root}

module _ (os : Os) where
  -- `-<process>-<ticks>`, the end of a name that is made here
  abbrev name_tail : ℕ → Text
  name_tail ticks = wide "-" ++ (decimal os.process_id ++ (wide "-" ++ decimal ticks))

  -- The text of `DiscardCleanupRoot`
  unfoldable pub discard_cleanup_path : OverlayRule → ℕ → Text
  discard_cleanup_path rule ticks =
      store_root os rule
      ++ (wide "\\"
          ++ (wide ".discard-cleanup-" ++ (safe_path_segment os rule.id ++ name_tail ticks)))

  -- `DiscardCleanupRoot`
  unfoldable pub discard_cleanup_root : OverlayRule → M os Text
  discard_cleanup_root rule = do ticks ← tick_count os; pure (discard_cleanup_path rule ticks)

  -- `MakeCleanupId`
  unfoldable pub make_cleanup_id : OverlayRule → M os Text
  make_cleanup_id rule = do
    ticks ← tick_count os
    pure (wide "cleanup-" ++ (safe_path_segment os rule.id ++ name_tail ticks))

  module _ (engine : Engine) where
    -- The record of `Discard`, and its insertion.
    unfoldable pub queue_cleanup : OverlayRule → Text → M os ⊤
    queue_cleanup rule cleanup_root = do
      now ← manual_timestamp os
      id ← make_cleanup_id rule
      on_metadata os (
          add_cleanup_record engine os (record {
            id = id;
            rule_id = rule.id;
            path = cleanup_root;
            status = wide "pending";
            attempts = 0;
            last_error = [];
            created_at = now;
            updated_at = now;
          }))

    -- The first part of `Discard`: the shadow data is set aside. The empty path stands for none.
    unfoldable pub isolate_shadow : OverlayRule → M os Text
    isolate_shadow rule = do
      state ← gets (λ w. os.exists w.fs (drive_root os rule))
      fail_if (is_error state.code) (wide "failed to inspect shadow data")
      if state.value
          then (do
            cleanup_root ← discard_cleanup_root rule
            moved ← perform os (rename (drive_root os rule) cleanup_root)
            fail_if (is_error moved) (wide "failed to isolate shadow data for background cleanup")
            pure cleanup_root)
          else pure []

    -- The second part: the records are deleted, or the shadow data is put back.
    unfoldable pub discard_records : OverlayRule → Text → M os ⊤
    discard_records rule cleanup_root = do
      deletion ← attempt (on_metadata os (delete_changes_for_rule engine rule.id))
      on_result deletion (λ _. when (not (is_empty cleanup_root)) (queue_cleanup rule cleanup_root))
          (λ message. do
            when (not (is_empty cleanup_root))
                (ignore (perform os (rename cleanup_root (drive_root os rule))))
            fail message)

    -- `Discard`
    unfoldable pub discard : OverlayRule → M os ⊤
    discard rule = do cleanup_root ← isolate_shadow rule; discard_records rule cleanup_root

    -- An update of the record with the time of now.
    unfoldable pub mark_cleanup : Text → Text → ℕ → Text → M os ⊤
    mark_cleanup id status attempts last_error = do
      now ← manual_timestamp os
      on_metadata os (update_cleanup_record engine id status attempts last_error now)

    -- The guard on the path of a cleanup record: below the store and not the store itself.
    unfoldable pub is_cleanup_path : OverlayRule → Text → Bool
    is_cleanup_path rule cleanup_path =
        is_same_path_or_descendant os (store_root os rule) cleanup_path
        && not (os.wcsicmp (store_root os rule) cleanup_path)

    -- The body of the loop of `ProcessCleanupQueue` behind the guard.
    unfoldable pub delete_cleanup_path : CleanupRecord → Text → M os ⊤
    delete_cleanup_path r cleanup_path = do
      mark_cleanup r.id (wide "running") (r.attempts + 1) []
      state ← gets (λ w. os.exists w.fs cleanup_path)
      if not state.value
          then mark_cleanup r.id (wide "done") (r.attempts + 1) []
          else if is_error state.code
          then ignore (
              mark_cleanup r.id (wide "failed") (r.attempts + 1)
                (wide "failed to inspect cleanup path"))
          else (do
            removed ← perform os (remove_all cleanup_path)
            if is_error removed
                then ignore (
                    mark_cleanup r.id (wide "failed") (r.attempts + 1)
                      (wide "failed to delete cleanup path"))
                else mark_cleanup r.id (wide "done") (r.attempts + 1) [])

    -- The body of the loop of `ProcessCleanupQueue`.
    unfoldable pub process_cleanup : CleanupRecord → M os ⊤
    process_cleanup r =
        if not (same_text r.status (wide "pending") || same_text r.status (wide "running"))
        then pure tt
        else (do
          found ← attempt (on_metadata os (get_rule engine r.rule_id))
          on_result found
              (λ rule.
                if not (is_cleanup_path rule (normalize_path os r.path))
                then ignore (
                    mark_cleanup r.id (wide "failed") (r.attempts + 1)
                      (wide "cleanup path is outside rule store"))
                else delete_cleanup_path r (normalize_path os r.path))
              (λ _. ignore (
                mark_cleanup r.id (wide "failed") (r.attempts + 1)
                  (wide "cleanup rule was not found"))))

    -- `ProcessCleanupQueue`
    unfoldable pub process_cleanup_queue : M os ⊤
    process_cleanup_queue = do
      records ← on_metadata os (list_cleanup_records engine)
      for_each records process_cleanup
