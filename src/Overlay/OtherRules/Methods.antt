-- ===== src/Overlay/OtherRules/Methods.antt =====
-- The methods of common/overlay_operations.cpp before a commit, and the metadata of the other rules.
use path_overlay.Base.{ℕ, Bool, Option, List, [], ◌∷◌}
use path_overlay.Wide.{Text}
use path_overlay.Os.{Os, Entry, Checked}
use path_overlay.Rules.{OverlayRule}
use path_overlay.Action.{OperationResult}
use path_overlay.Action.Keeps.{
  IsPreorder, Keeps, Keeps-pure, Keeps-bind, Keeps-if, Keeps-fail_if, Keeps-then, Keeps-on_option,
  keeps_rules,
}
use path_overlay.Metadata.Sql.{Engine}
use path_overlay.Metadata.Records.{ChangeState, ChangeRecord}
use path_overlay.Overlay.World.{World}
use path_overlay.Overlay.Records.{persist_change}
use path_overlay.Overlay.Prepare.{
  check_scope, hide_tombstone, show_child, view_entry, view_entries, prepare_directory_view,
  copy_file_on_write, copy_kind_on_write, prepare_copy_on_write, record_created_file, record_delete,
}
use path_overlay.Overlay.Rename.{
  of_result, forget_descendant, active_source_shadow, move_shadow, record_move, rename_in_rule,
  record_rename,
}
use path_overlay.Overlay.OtherRules.{
  SameOthers, add_or_update_change-SameOthers, delete_change-SameOthers,
  delete_changes_for_rule-SameOthers, add_commit_record-SameOthers, add_cleanup_record-SameOthers,
  list_changes-SameOthers,
}
use path_overlay.Overlay.OtherRules.Copies

module _ (os : Os) (engine : Engine) (rule : OverlayRule) where
  abbrev pub Rest : World os → World os → Type 0
  Rest = Copies.Others os rule.id

  pub Rest-IsPreorder : IsPreorder Rest
  Rest-IsPreorder = Copies.others os rule.id

  pub ruleset rest_rules = (
    keeps_rules, Rest-IsPreorder, Copies.perform-Others, Copies.fail_filesystem_if-Others,
    Copies.on_metadata-Others, Copies.manual_timestamp-Others, Copies.tick_count-Others,
    Copies.copy_file_with_parents-Others, Copies.copy_path_with_parents-Others,
    Copies.copy_missing_path-Others, Copies.copy_missing_directory_tree-Others,
    add_or_update_change-SameOthers, delete_change-SameOthers, delete_changes_for_rule-SameOthers,
    add_commit_record-SameOthers, add_cleanup_record-SameOthers, list_changes-SameOthers,
  )

  persist_change-Rest :
      (real_path shadow : Text) (state : ChangeState) (target : Text)
      → Keeps Rest (persist_change os engine rule real_path shadow state target)
  unfolding persist_change
  persist_change-Rest real_path shadow state target = search rest_rules depth 12

  check_scope-Rest : (real_path : Text) → Keeps Rest (check_scope os engine rule real_path)
  unfolding check_scope
  check_scope-Rest real_path = search rest_rules depth 12

  hide_tombstone-Rest :
      (records : List ChangeRecord) (real_path : Text) (r : ChangeRecord)
      → Keeps Rest (hide_tombstone os engine rule records real_path r)
  unfolding hide_tombstone
  hide_tombstone-Rest records real_path r = search (rest_rules, Keeps-on_option) depth 12

  show_child-Rest :
      (entry : Entry) (real_child mapped : Text)
      → Keeps Rest (show_child os engine rule entry real_child mapped)
  unfolding show_child
  show_child-Rest entry real_child mapped = search (rest_rules) depth 12

  view_entry-Rest :
      (records : List ChangeRecord) (real_path : Text) (entry : Entry)
      → Keeps Rest (view_entry os engine rule records real_path entry)
  unfolding view_entry
  view_entry-Rest records real_path entry =
      search (rest_rules, Keeps-on_option, show_child-Rest) depth 12

  view_entries-Rest :
      (records : List ChangeRecord) (real_path : Text) (code : ℕ) (entries : List Entry)
      → Keeps Rest (view_entries os engine rule records real_path code entries)
  unfolding view_entries
  view_entries-Rest records real_path code [] = Keeps-pure Rest-IsPreorder tt
  view_entries-Rest records real_path code (entry ∷ rest) =
      Keeps-then Rest-IsPreorder _ _ (Keeps-fail_if Rest-IsPreorder _ _) (
        Keeps-bind Rest-IsPreorder _ _ (view_entry-Rest records real_path entry)
          λ left. view_entries-Rest records real_path left rest)

  pub prepare_directory_view-Rest :
      (real_path : Text) → Keeps Rest (prepare_directory_view os engine rule real_path)
  unfolding prepare_directory_view
  prepare_directory_view-Rest real_path =
      search
        (rest_rules, check_scope-Rest, persist_change-Rest, hide_tombstone-Rest, view_entries-Rest)
        depth 12

  copy_file_on_write-Rest :
      (mapped real shadow : Text) (real_exists : Bool)
      → Keeps Rest (copy_file_on_write os engine rule mapped real shadow real_exists)
  unfolding copy_file_on_write
  copy_file_on_write-Rest mapped real shadow real_exists =
      search (rest_rules, persist_change-Rest) depth 12

  copy_kind_on_write-Rest :
      (mapped real shadow : Text) (real_exists : Bool) (kind : Checked Bool)
      → Keeps Rest (copy_kind_on_write os engine rule mapped real shadow real_exists kind)
  unfolding copy_kind_on_write
  copy_kind_on_write-Rest mapped real shadow real_exists kind =
      search (rest_rules, prepare_directory_view-Rest, copy_file_on_write-Rest) depth 12

  pub prepare_copy_on_write-Rest :
      (real_path : Text) → Keeps Rest (prepare_copy_on_write os engine rule real_path)
  unfolding prepare_copy_on_write
  prepare_copy_on_write-Rest real_path =
      search (rest_rules, check_scope-Rest, copy_kind_on_write-Rest) depth 12

  pub record_created_file-Rest :
      (real_path : Text) → Keeps Rest (record_created_file os engine rule real_path)
  unfolding record_created_file
  record_created_file-Rest real_path =
      search (rest_rules, check_scope-Rest, persist_change-Rest) depth 12

  pub record_delete-Rest : (real_path : Text) → Keeps Rest (record_delete os engine rule real_path)
  unfolding record_delete
  record_delete-Rest real_path = search (rest_rules, check_scope-Rest, persist_change-Rest) depth 12

  of_result-Rest : {A : Type 0} (r : OperationResult A) → Keeps Rest (of_result os r)
  of_result-Rest r = record { at = λ w. Rest-IsPreorder.rel_refl w }

  forget_descendant-Rest :
      (source : Text) (r : ChangeRecord) → Keeps Rest (forget_descendant os engine rule source r)
  unfolding forget_descendant
  forget_descendant-Rest source r = search (rest_rules) depth 14

  active_source_shadow-Rest :
      (shadow source : Text) → Keeps Rest (active_source_shadow os engine rule shadow source)
  unfolding active_source_shadow
  active_source_shadow-Rest shadow source = search (rest_rules, prepare_copy_on_write-Rest) depth 14

  move_shadow-Rest :
      (source target active shadow : Text)
      → Keeps Rest (move_shadow os engine rule source target active shadow)
  unfolding move_shadow
  move_shadow-Rest source target active shadow = search (rest_rules) depth 14

  record_move-Rest :
      (source target shadow : Text) (records : List ChangeRecord) (r : Option ChangeRecord)
      (is_directory : Bool)
      → Keeps Rest (record_move os engine rule source target shadow records r is_directory)
  unfolding record_move
  record_move-Rest source target shadow records r is_directory =
      search (rest_rules, forget_descendant-Rest, persist_change-Rest) depth 14

  rename_in_rule-Rest :
      (source target source_shadow target_shadow : Text)
      → Keeps Rest (rename_in_rule os engine rule source target source_shadow target_shadow)
  unfolding rename_in_rule
  rename_in_rule-Rest source target source_shadow target_shadow =
      search
        (rest_rules, of_result-Rest, active_source_shadow-Rest, move_shadow-Rest, record_move-Rest)
        depth 14

  pub record_rename-Rest :
      (source target : Text) → Keeps Rest (record_rename os engine rule source target)
  unfolding record_rename
  record_rename-Rest source target = search (rest_rules, rename_in_rule-Rest) depth 14
