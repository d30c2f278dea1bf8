-- ===== src/Overlay/Isolation.antt =====
-- The paths that the calls of common/overlay_operations.cpp write to, the frame of a file system, and
-- the helpers of the methods along it.
pub mod Methods
use path_overlay.Base.{
  ℕ, ◌≡◌, refl, sym, ◌∙◌, true, false, Option, none, some, List, [], ◌∷◌, Option-cases, inl, inr,
  arith, Bool, not, ◌&&◌, ◌||◌, if◌then◌else◌,
}
use path_overlay.Base.Lists.{All}
use path_overlay.Wide.{Text, wide}
use path_overlay.Os.{
  Os, Effect, Entry, Checked, create_directories, copy_file, copy_tree, remove_all, rename,
}
use path_overlay.Paths.{normalize_path, same_or_child_path}
use path_overlay.Paths.Child.{Apart}
use path_overlay.Rules.{OverlayRule, store_root, shadow_path, map_real_path_to_shadow_path}
use path_overlay.Rules.Mapped.{map_real_path_to_shadow_path-eq}
use path_overlay.Rules.Shadow.{
  KeepsBackslash, IsPlainStore, Inside, Inside-same_or_child_path, shadow_path-Inside,
  parent_path-child,
}
use path_overlay.Action.{
  success, actions, ⊤, Action, pure, fail, gets, attempt, ignore, or_fail, ◌>>=◌, ◌>>◌, fail_if,
  when, for_each,
}
use path_overlay.Action.Keeps.{
  IsPreorder, Keeps, Keeps-pure, Keeps-fail, Keeps-gets, Keeps-or_fail, Keeps-attempt, Keeps-ignore,
  Keeps-fail_if, Keeps-if, Keeps-when, Keeps-bind, Keeps-bind_yields, Keeps-on_option, Keeps-then,
  Keeps-for_each, keeps_rules,
}
use path_overlay.Metadata.Sql.{Engine}
use path_overlay.Metadata.Records.{ChangeState, ChangeRecord}
use path_overlay.Metadata.Store.{Db}
use path_overlay.Overlay.World.{World, M, perform, on_metadata, fail_filesystem_if}
use path_overlay.Overlay.FsPath.{filesystem_path, parent_path}
use path_overlay.Overlay.Copy.{copy_file_with_parents}
use path_overlay.Overlay.Records.{persist_change}
use path_overlay.Overlay.Prepare.{
  check_scope, hide_tombstone, show_child, view_entry, view_entries, copy_file_on_write,
  copy_kind_on_write, prepare_directory_view, prepare_copy_on_write, record_created_file,
  record_delete,
}

-- The paths that a call writes to.
abbrev pub touched : Effect → List Text
touched (create_directories p) = p ∷ []
touched (copy_file overwrite p q) = q ∷ []
touched (copy_tree overwrite p q) = q ∷ []
touched (remove_all p) = p ∷ []
touched (rename p q) = p ∷ q ∷ []

module _ (os : Os) (store : Text) where
  -- The long form of a path that the store contains.
  abbrev pub InStore : Text → Type 0
  InStore t = (p : Text) × (t ≡ filesystem_path p) × (same_or_child_path os store p ≡ true)

  -- What is observed at a path, and the frame of the file system: a call that writes to paths in the
  -- store alone leaves what is observed at a path apart from the store.
  pub record IsFramed : Type 1 where
    pub Node : Type 0
    pub node : os.Fs → Text → Node
    pub frame :
        (e : Effect) (fs : os.Fs) (q : Text)
        → All InStore (touched e)
        → Apart os store q
        → node (os.perform e fs).1 q ≡ node fs q

module _ (os : Os) (store : Text) (framed : IsFramed os store) where
  -- Nothing apart from the store has changed.
  abbrev pub Outside : World os → World os → Type 0
  Outside w w' = (q : Text) → Apart os store q → framed.node w'.fs q ≡ framed.node w.fs q

  pub outside : IsPreorder Outside
  outside = record { rel_refl = λ w q a. refl; rel_trans = λ w v u h k q a. k q a ∙ h q a }

  pub perform-Outside :
      (e : Effect) → All (InStore os store) (touched e) → Keeps Outside (perform os e)
  unfolding perform
  perform-Outside e h = record { at = λ w q a. framed.frame e w.fs q h a }

  pub on_metadata-Outside : {A : Type 0} (m : Db A) → Keeps Outside (on_metadata os m)
  unfolding on_metadata
  on_metadata-Outside m = record { at = λ w q a. refl }

  pub fail_filesystem_if-Outside :
      (code : ℕ) (message path : Text)
      → Keeps Outside (fail_filesystem_if {S = World os} code message path)
  unfolding fail_filesystem_if
  fail_filesystem_if-Outside code message path = record { at = λ w q a. refl }

  ruleset outside_rules =
      (keeps_rules, outside, perform-Outside, on_metadata-Outside, fail_filesystem_if-Outside)

  -- The long form of a path is named by it.
  in_store :
      (p : Text) → same_or_child_path os store p ≡ true → InStore os store (filesystem_path p)
  in_store p h = (p, refl, h)

  pub copy_file_with_parents-Outside :
      (source target : Text)
      → same_or_child_path os store target ≡ true
      → same_or_child_path os store (parent_path target) ≡ true
      → Keeps Outside (copy_file_with_parents os source target)
  unfolding copy_file_with_parents
  copy_file_with_parents-Outside source target h k = search outside_rules depth 12

  module _ (engine : Engine) (rule : OverlayRule) where
    pub persist_change-Outside :
        (real_path shadow : Text) (state : ChangeState) (target : Text)
        → Keeps Outside (persist_change os engine rule real_path shadow state target)
    unfolding persist_change
    persist_change-Outside real_path shadow state target = search outside_rules depth 12

    pub check_scope-Outside :
        (real_path : Text) → Keeps Outside (check_scope os engine rule real_path)
    unfolding check_scope
    check_scope-Outside real_path = search outside_rules depth 12

-- The mapped path of `real_path` is in normal form, as a path without relative parts is.
abbrev pub HasNormalShadow : (os : Os) → OverlayRule → Text → Type 0
HasNormalShadow os rule real_path =
    normalize_path os (shadow_path os rule real_path) ≡ shadow_path os rule real_path

pub check_scope-eq :
    (os : Os) (engine : Engine) (rule : OverlayRule) (real_path mapped : Text) (w : World os)
    → (check_scope os engine rule real_path w).0 ≡ success mapped
    → mapped ≡ shadow_path os rule real_path
unfolding check_scope actions
check_scope-eq os engine rule real_path mapped w h =
    elim (Option-cases (map_real_path_to_shadow_path os w.fs rule real_path)) [
      | inl missing ↦ ground arith
      | inr (p, e) ↦ ground (arith, map_real_path_to_shadow_path-eq os w.fs rule real_path e)
    ]
