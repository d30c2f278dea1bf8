-- ===== src/Overlay/OtherRules.antt =====
-- What the methods of common/overlay_operations.cpp leave of the metadata of the other rules.
pub mod Copies
pub mod Methods
pub mod Ending
use path_overlay.Base.{
  ℕ, ◌≡◌, refl, sym, ap, ◌∙◌, inl, inr, Bool, true, false, not, ◌&&◌, ◌||◌, if◌then◌else◌, Option,
  none, some, List, [], ◌∷◌, arith,
}
use path_overlay.Wide.{Text, same_text}
use path_overlay.Os.{Os, Effect}
use path_overlay.Rules.{OverlayRule}
use path_overlay.Action.{OperationResult, success, ⊤, Action, gets, or_fail, ◌>>=◌, ◌>>◌}
use path_overlay.Action.Keeps.{
  IsPreorder, Keeps, Keeps-pure, Keeps-fail, Keeps-gets, Keeps-or_fail, Keeps-attempt, Keeps-ignore,
  Keeps-fail_if, Keeps-if, Keeps-when, Keeps-bind, Keeps-on_option, Keeps-then, Keeps-for_each,
  keeps_rules,
}
use path_overlay.Metadata.Sql
use path_overlay.Metadata.Sql.{ChangeRow, Engine, Tables, is_change_key}
use path_overlay.Metadata.Records.{ChangeState, ChangeRecord, CommitRecord, CleanupRecord}
use path_overlay.Metadata.Store.{
  Db, run_query, run_statement, change_row, list_changes, add_or_update_change, delete_change,
  delete_changes_for_rule, add_commit_record, add_cleanup_record,
}
use path_overlay.Metadata.Changes.{find_change}
use path_overlay.Metadata.Changes.Statements.{
  HasRows, Outcome, run_statement-Outcome, add_or_update_change_refines, delete_change_refines,
  delete_changes_for_rule_refines,
}
use path_overlay.Overlay.World.{
  World, M, perform, on_metadata, manual_timestamp, tick_count, fail_filesystem_if,
}
use path_overlay.Overlay.Records.{persist_change}

module _ (rule_id : Text) where
  -- The rules, and the rows of every rule but `rule_id`, are the same.
  abbrev pub SameOthers : Tables → Tables → Type 0
  SameOthers t t' =
      (t'.rules ≡ t.rules)
      × ((id path : Text)
          → same_text rule_id id ≡ false
          → find_change id path t'.changes ≡ find_change id path t.changes)

  pub same_others : IsPreorder SameOthers
  same_others = record {
    rel_refl = λ t. (refl, λ id path other. refl);
    rel_trans = λ t u v (e, h) (f, k). (f ∙ e, λ id path other. k id path other ∙ h id path other);
  }

  Outcome-SameOthers :
      {A : Type 0} (t : Tables) (rows : Text → Text → Option ChangeRow)
      (r : OperationResult A × Tables)
      → Outcome t (HasRows t.rules rows) r
      → ((id path : Text)
          → same_text rule_id id ≡ false
          → rows id path ≡ find_change id path t.changes)
      → SameOthers t r.1
  Outcome-SameOthers t rows r (inl (failed, e)) h = rw (e) (refl, λ id path other. refl)
  Outcome-SameOthers t rows r (inr (ok, (rules, found))) h =
      (rules, λ id path other. found id path ∙ h id path other)

  change_row-key :
      (engine : Engine) (os : Os) (r : ChangeRecord) (id path : Text)
      → same_text rule_id id ≡ false
      → is_change_key id path (change_row engine os rule_id r) ≡ false
  unfolding is_change_key change_row
  change_row-key engine os r id path other = rw (other)

  module _ (engine : Engine) where
    pub add_or_update_change-SameOthers :
        (os : Os) (r : ChangeRecord) → Keeps SameOthers (add_or_update_change engine os rule_id r)
    add_or_update_change-SameOthers os r = record {
      at = λ t.
          Outcome-SameOthers t _ _ (add_or_update_change_refines engine os rule_id r t)
            (λ id path other. rw (change_row-key engine os r id path other));
    }

    pub delete_change-SameOthers :
        (os : Os) (path : Text) → Keeps SameOthers (delete_change engine os rule_id path)
    delete_change-SameOthers os real_path = record {
      at = λ t.
          Outcome-SameOthers t _ _ (delete_change_refines engine os rule_id real_path t)
            (λ id path other. rw (other));
    }

    pub delete_changes_for_rule-SameOthers :
        Keeps SameOthers (delete_changes_for_rule engine rule_id)
    delete_changes_for_rule-SameOthers = record {
      at = λ t.
          Outcome-SameOthers t _ _ (delete_changes_for_rule_refines engine rule_id t)
            (λ id path other. rw (other));
    }

    -- The other statements leave the rules and the changes alone.
    pub add_commit_record-SameOthers :
        (r : CommitRecord) → Keeps SameOthers (add_commit_record engine r)
    unfolding add_commit_record run_statement
    add_commit_record-SameOthers r = record {
      at = λ t. (ground arith, λ id path other. ap (find_change id path) (ground arith));
    }

    pub add_cleanup_record-SameOthers :
        (os : Os) (r : CleanupRecord) → Keeps SameOthers (add_cleanup_record engine os r)
    unfolding add_cleanup_record run_statement
    add_cleanup_record-SameOthers os r = record {
      at = λ t. (ground arith, λ id path other. ap (find_change id path) (ground arith));
    }

    pub list_changes-SameOthers : (id : Text) → Keeps SameOthers (list_changes engine id)
    unfolding list_changes run_query
    list_changes-SameOthers id = record {
      at =
          λ t. (ground arith, λ other_id path other. ap (find_change other_id path) (ground arith));
    }
