-- ===== src/Overlay/OtherRules/Copies.antt =====
-- The rules and the rows of the other rules along the file operations of common/overlay_operations.cpp.
use path_overlay.Base.{ℕ, ltb, Bool, false, ◌&&◌, if◌then◌else◌, Option, none, some, List, [], ◌∷◌}
use path_overlay.Wide.{Text}
use path_overlay.Os.{Os, Effect, Entry}
use path_overlay.Rules.{is_reparse_point_path}
use path_overlay.Action.{⊤}
use path_overlay.Action.Keeps.{IsPreorder, Keeps, keeps_rules}
use path_overlay.Metadata.Store.{Db}
use path_overlay.Overlay.World.{
  World, M, perform, on_metadata, manual_timestamp, tick_count, fail_filesystem_if,
}
use path_overlay.Overlay.Copy.{
  copy_file_with_parents, copy_missing_file, copy_missing_entry, copy_missing_round,
  copy_missing_entries, copy_missing_directory_tree, copy_path_with_parents, copy_missing_path,
}
use path_overlay.Overlay.OtherRules.{SameOthers, same_others}

module _ (os : Os) (rule_id : Text) where
  -- The relation on the whole state.
  abbrev pub Others : World os → World os → Type 0
  Others w w' = SameOthers rule_id w.tables w'.tables

  pub others : IsPreorder Others
  others = record {
    rel_refl = λ w. (same_others rule_id).rel_refl w.tables;
    rel_trans = λ w v u h k. (same_others rule_id).rel_trans w.tables v.tables u.tables h k;
  }

  pub perform-Others : (e : Effect) → Keeps Others (perform os e)
  unfolding perform
  perform-Others e = record { at = λ w. (same_others rule_id).rel_refl w.tables }

  pub on_metadata-Others :
      {A : Type 0} (m : Db A) → Keeps (SameOthers rule_id) m → Keeps Others (on_metadata os m)
  unfolding on_metadata
  on_metadata-Others m k = record { at = λ w. k.at w.tables }

  pub manual_timestamp-Others : Keeps Others (manual_timestamp os)
  unfolding manual_timestamp
  manual_timestamp-Others = record { at = λ w. (same_others rule_id).rel_refl w.tables }

  pub tick_count-Others : Keeps Others (tick_count os)
  unfolding tick_count
  tick_count-Others = record { at = λ w. (same_others rule_id).rel_refl w.tables }

  pub fail_filesystem_if-Others :
      (code : ℕ) (message path : Text)
      → Keeps Others (fail_filesystem_if {S = World os} code message path)
  unfolding fail_filesystem_if
  fail_filesystem_if-Others code message path = record {
    at = λ w. (same_others rule_id).rel_refl w.tables;
  }

  ruleset others_rules = (keeps_rules, others, perform-Others, fail_filesystem_if-Others)

  pub copy_file_with_parents-Others :
      (source target : Text) → Keeps Others (copy_file_with_parents os source target)
  unfolding copy_file_with_parents
  copy_file_with_parents-Others source target = search others_rules depth 12

  copy_missing_file-Others :
      (entry : Entry) (target : Text) → Keeps Others (copy_missing_file os entry target)
  unfolding copy_missing_file
  copy_missing_file-Others entry target = search others_rules depth 12

  copy_missing_entry-Others :
      (target : Text) (entry : Entry) → Keeps Others (copy_missing_entry os target entry)
  unfolding copy_missing_entry
  copy_missing_entry-Others target entry = search (others_rules, copy_missing_file-Others) depth 12

  copy_missing_round-Others :
      (target : Text) (code : ℕ) (skipped reparse : Bool) (entry : Entry) (skip_on next : M os ⊤)
      → Keeps Others skip_on
      → Keeps Others next
      → Keeps Others (copy_missing_round os target code skipped reparse entry skip_on next)
  unfolding copy_missing_round
  copy_missing_round-Others target code skipped reparse entry skip_on next h k =
      search (others_rules, copy_missing_entry-Others) depth 12

  copy_missing_entries-Others :
      (target : Text) (code : ℕ) (skip : Option ℕ) (entries : List Entry)
      → Keeps Others (copy_missing_entries os target code skip entries)
  unfolding copy_missing_entries
  copy_missing_entries-Others target code skip [] = record {
    at = λ w. (same_others rule_id).rel_refl w.tables;
  }
  copy_missing_entries-Others target code skip (entry ∷ rest) = record {
    at = λ w.
        let reparse = is_reparse_point_path os w.fs entry.path in
        (copy_missing_round-Others target code
            (elim skip [ none ↦ false | some depth ↦ ltb depth entry.depth ]) reparse entry _ _
            (copy_missing_entries-Others target code skip rest)
            (copy_missing_entries-Others target 0
              (if reparse && entry.is_directory.value then some entry.depth else none) rest)).at
          w;
  }

  pub copy_missing_directory_tree-Others :
      (source target : Text) → Keeps Others (copy_missing_directory_tree os source target)
  unfolding copy_missing_directory_tree
  copy_missing_directory_tree-Others source target =
      search (others_rules, copy_missing_entries-Others) depth 12

  pub copy_path_with_parents-Others :
      (source target : Text) → Keeps Others (copy_path_with_parents os source target)
  unfolding copy_path_with_parents
  copy_path_with_parents-Others source target =
      search (others_rules, copy_missing_directory_tree-Others, copy_file_with_parents-Others) depth
        12

  pub copy_missing_path-Others :
      (source target : Text) → Keeps Others (copy_missing_path os source target)
  unfolding copy_missing_path
  copy_missing_path-Others source target =
      search (others_rules, copy_missing_directory_tree-Others, copy_file_with_parents-Others) depth
        12
