-- ===== src/Overlay/Isolation/Methods.antt =====
-- `PrepareCopyOnWrite`, `PrepareDirectoryView`, `RecordCreatedFile` and `RecordDelete` of
-- common/overlay_operations.cpp, and what lies apart from the store.
use path_overlay.Base.{ℕ, ◌≡◌, refl, true, some, List, [], ◌∷◌, Bool, ◌&&◌}
use path_overlay.Base.Lists.{All}
use path_overlay.Wide.{Text}
use path_overlay.Os.{Os, Entry, Checked, create_directories, remove_all}
use path_overlay.Paths.{normalize_path, same_or_child_path}
use path_overlay.Paths.Child.{Apart}
use path_overlay.Rules.{OverlayRule, store_root, shadow_path, map_real_path_to_shadow_path}
use path_overlay.Rules.Mapped.{map_real_path_to_shadow_path-eq}
use path_overlay.Rules.Shadow.{
  KeepsBackslash, IsPlainStore, Inside-same_or_child_path, shadow_path-Inside, parent_path-child,
}
use path_overlay.Action.Keeps.{
  IsPreorder, Keeps, Keeps-pure, Keeps-fail_if, Keeps-if, Keeps-bind, Keeps-bind_yields,
  Keeps-on_option, Keeps-then, keeps_rules,
}
use path_overlay.Metadata.Sql.{Engine}
use path_overlay.Metadata.Records.{ChangeState, ChangeRecord}
use path_overlay.Metadata.Store.{Db}
use path_overlay.Overlay.World.{World, perform, on_metadata, fail_filesystem_if}
use path_overlay.Overlay.FsPath.{filesystem_path, parent_path}
use path_overlay.Overlay.Copy.{copy_file_with_parents}
use path_overlay.Overlay.Records.{persist_change}
use path_overlay.Overlay.Prepare.{
  hide_tombstone, show_child, view_entry, view_entries, copy_file_on_write, copy_kind_on_write,
  prepare_directory_view, prepare_copy_on_write, record_created_file, record_delete,
}
use path_overlay.Overlay.Isolation.{
  InStore, IsFramed, Outside, outside, perform-Outside, on_metadata-Outside,
  fail_filesystem_if-Outside, copy_file_with_parents-Outside, persist_change-Outside,
  check_scope-Outside, check_scope-eq, HasNormalShadow,
}

module _ (os : Os) (engine : Engine) (rule : OverlayRule) (keeps : KeepsBackslash os)
    (plain : IsPlainStore (store_root os rule)) (framed : IsFramed os (store_root os rule)) where
  -- Nothing apart from the rule's store has changed.
  abbrev Still : World os → World os → Type 0
  Still = Outside os (store_root os rule) framed

  still : IsPreorder Still
  still = outside os (store_root os rule) framed

  shadow_in_store :
      (real_path : Text)
      → same_or_child_path os (store_root os rule) (shadow_path os rule real_path) ≡ true
  shadow_in_store real_path =
      Inside-same_or_child_path os keeps _ _ plain (shadow_path-Inside os rule real_path plain)

  shadow_parent_in_store :
      (real_path : Text)
      → same_or_child_path os (store_root os rule) (parent_path (shadow_path os rule real_path))
        ≡ true
  shadow_parent_in_store real_path =
      parent_path-child os keeps _ _ plain (shadow_path-Inside os rule real_path plain)

  mapped_in_store :
      (fs : os.Fs) (real_path p : Text)
      → map_real_path_to_shadow_path os fs rule real_path ≡ some p
      → same_or_child_path os (store_root os rule) p ≡ true
  mapped_in_store fs real_path p h =
      rw (map_real_path_to_shadow_path-eq os fs rule real_path h) (shadow_in_store real_path)

  mapped_parent_in_store :
      (fs : os.Fs) (real_path p : Text)
      → map_real_path_to_shadow_path os fs rule real_path ≡ some p
      → same_or_child_path os (store_root os rule) (parent_path p) ≡ true
  mapped_parent_in_store fs real_path p h =
      rw (map_real_path_to_shadow_path-eq os fs rule real_path h) (shadow_parent_in_store real_path)

  -- A call that writes to the long form of one path in the store.
  touch_store :
      (p : Text)
      → same_or_child_path os (store_root os rule) p ≡ true
      → All (InStore os (store_root os rule)) (filesystem_path p ∷ [])
  touch_store p h = ((p, refl, h), tt)

  create_directories-Still :
      (p : Text)
      → same_or_child_path os (store_root os rule) p ≡ true
      → Keeps Still (perform os (create_directories (filesystem_path p)))
  create_directories-Still p h = perform-Outside os _ framed _ (touch_store p h)

  remove_all-Still :
      (p : Text)
      → same_or_child_path os (store_root os rule) p ≡ true
      → Keeps Still (perform os (remove_all (filesystem_path p)))
  remove_all-Still p h = perform-Outside os _ framed _ (touch_store p h)

  copy_file_with_parents-Still :
      (source target : Text)
      → same_or_child_path os (store_root os rule) target ≡ true
      → same_or_child_path os (store_root os rule) (parent_path target) ≡ true
      → Keeps Still (copy_file_with_parents os source target)
  copy_file_with_parents-Still source target h k =
      copy_file_with_parents-Outside os _ framed source target h k

  on_metadata-Still : {A : Type 0} (m : Db A) → Keeps Still (on_metadata os m)
  on_metadata-Still m = on_metadata-Outside os _ framed m

  fail_filesystem_if-Still :
      (code : ℕ) (message path : Text)
      → Keeps Still (fail_filesystem_if {S = World os} code message path)
  fail_filesystem_if-Still code message path =
      fail_filesystem_if-Outside os _ framed code message path

  persist_change-Still :
      (real_path shadow : Text) (state : ChangeState) (target : Text)
      → Keeps Still (persist_change os engine rule real_path shadow state target)
  persist_change-Still real_path shadow state target =
      persist_change-Outside os _ framed engine rule real_path shadow state target

  ruleset still_rules = (
    keeps_rules, still, create_directories-Still, remove_all-Still, copy_file_with_parents-Still,
    on_metadata-Still, fail_filesystem_if-Still, persist_change-Still,
  )

  hide_tombstone-Still :
      (records : List ChangeRecord) (real_path : Text) (r : ChangeRecord)
      → Keeps Still (hide_tombstone os engine rule records real_path r)
  unfolding hide_tombstone
  hide_tombstone-Still records real_path r =
      search (still_rules, Keeps-on_option, mapped_in_store) depth 12

  show_child-Still :
      (entry : Entry) (real_child mapped : Text)
      → same_or_child_path os (store_root os rule) mapped ≡ true
      → same_or_child_path os (store_root os rule) (parent_path mapped) ≡ true
      → Keeps Still (show_child os engine rule entry real_child mapped)
  unfolding show_child
  show_child-Still entry real_child mapped h k = search still_rules depth 12

  view_entry-Still :
      (records : List ChangeRecord) (real_path : Text) (entry : Entry)
      → Keeps Still (view_entry os engine rule records real_path entry)
  unfolding view_entry
  view_entry-Still records real_path entry =
      search
        (still_rules, Keeps-on_option, show_child-Still, mapped_in_store, mapped_parent_in_store)
        depth 12

  view_entries-Still :
      (records : List ChangeRecord) (real_path : Text) (code : ℕ) (entries : List Entry)
      → Keeps Still (view_entries os engine rule records real_path code entries)
  unfolding view_entries
  view_entries-Still records real_path code [] = Keeps-pure still tt
  view_entries-Still records real_path code (entry ∷ rest) =
      Keeps-then still _ _ (Keeps-fail_if still _ _) (
        Keeps-bind still _ _ (view_entry-Still records real_path entry)
          λ left. view_entries-Still records real_path left rest)

  -- The part of `PrepareDirectoryView` behind the mapping.
  prepare_directory_view-Still :
      (real_path : Text)
      → HasNormalShadow os rule real_path
      → Keeps Still (prepare_directory_view os engine rule real_path)
  unfolding prepare_directory_view
  prepare_directory_view-Still real_path normal =
      Keeps-bind_yields still _ _ (check_scope-Outside os _ framed engine rule real_path)
        λ mapped s e.
          rw (check_scope-eq os engine rule real_path mapped s e, normal)
            (let inside = shadow_in_store real_path in
              search (still_rules, hide_tombstone-Still, view_entries-Still, inside) depth 12)

  copy_file_on_write-Still :
      (mapped real shadow : Text) (real_exists : Bool)
      → same_or_child_path os (store_root os rule) shadow ≡ true
      → same_or_child_path os (store_root os rule) (parent_path shadow) ≡ true
      → Keeps Still (copy_file_on_write os engine rule mapped real shadow real_exists)
  unfolding copy_file_on_write
  copy_file_on_write-Still mapped real shadow real_exists h k = search still_rules depth 12

  copy_kind_on_write-Still :
      (mapped real shadow : Text) (real_exists : Bool) (kind : Checked Bool)
      → same_or_child_path os (store_root os rule) shadow ≡ true
      → same_or_child_path os (store_root os rule) (parent_path shadow) ≡ true
      → HasNormalShadow os rule real
      → Keeps Still (copy_kind_on_write os engine rule mapped real shadow real_exists kind)
  unfolding copy_kind_on_write
  copy_kind_on_write-Still mapped real shadow real_exists kind h k normal =
      Keeps-if still (real_exists && kind.value) (prepare_directory_view os engine rule real) _
        (λ _. prepare_directory_view-Still real normal)
        (λ _.
          Keeps-then still _ _ (Keeps-fail_if still _ _)
            (copy_file_on_write-Still mapped real shadow real_exists h k))

  prepare_copy_on_write-Still :
      (real_path : Text)
      → HasNormalShadow os rule real_path
      → HasNormalShadow os rule (normalize_path os real_path)
      → Keeps Still (prepare_copy_on_write os engine rule real_path)
  unfolding prepare_copy_on_write
  prepare_copy_on_write-Still real_path normal again =
      Keeps-bind_yields still _ _ (check_scope-Outside os _ framed engine rule real_path)
        λ mapped s e.
          rw (check_scope-eq os engine rule real_path mapped s e, normal)
            (let inside = shadow_in_store real_path in
              let parent = shadow_parent_in_store real_path in
              search (still_rules, copy_kind_on_write-Still, inside, parent, again) depth 12)

  record_created_file-Still :
      (real_path : Text) → Keeps Still (record_created_file os engine rule real_path)
  unfolding record_created_file
  record_created_file-Still real_path =
      Keeps-bind_yields still _ _ (check_scope-Outside os _ framed engine rule real_path)
        λ mapped s e.
          rw (check_scope-eq os engine rule real_path mapped s e)
            (let parent = shadow_parent_in_store real_path in search (still_rules, parent) depth 12)

  record_delete-Still : (real_path : Text) → Keeps Still (record_delete os engine rule real_path)
  unfolding record_delete
  record_delete-Still real_path =
      Keeps-bind_yields still _ _ (check_scope-Outside os _ framed engine rule real_path)
        λ mapped s e.
          rw (check_scope-eq os engine rule real_path mapped s e)
            (let inside = shadow_in_store real_path in search (still_rules, inside) depth 12)

  -- `PrepareCopyOnWrite` changes nothing apart from the rule's store, whether it succeeds or fails, if
  -- the mapped paths of the real path and of its normal form are in normal form. The store is not empty
  -- and its path does not end with a separator, so it is not the root of a drive; what a call of the file
  -- system writes below the store leaves alone what is apart from it; and the lower case of a backslash
  -- is a backslash.
  pub prepare_copy_on_write_isolated :
      (real_path : Text)
      → HasNormalShadow os rule real_path
      → HasNormalShadow os rule (normalize_path os real_path)
      → (w : World os) (q : Text) → Apart os (store_root os rule) q
      → framed.node (prepare_copy_on_write os engine rule real_path w).1.fs q ≡ framed.node w.fs q
  prepare_copy_on_write_isolated real_path normal again w q a =
      (prepare_copy_on_write-Still real_path normal again).at w q a

  -- `PrepareDirectoryView` changes nothing apart from the rule's store, whether it succeeds or fails,
  -- if the mapped path of the directory is in normal form and the enumeration of the directory does not fail
  -- between two entries. The store is not empty and its path does not end with a separator, so it is not
  -- the root of a drive; what a call of the file system writes below the store leaves alone what is
  -- apart from it; and the lower case of a backslash is a backslash.
  pub prepare_directory_view_isolated :
      (real_path : Text)
      → HasNormalShadow os rule real_path
      → (w : World os) (q : Text) → Apart os (store_root os rule) q
      → framed.node (prepare_directory_view os engine rule real_path w).1.fs q ≡ framed.node w.fs q
  prepare_directory_view_isolated real_path normal w q a =
      (prepare_directory_view-Still real_path normal).at w q a

  -- `RecordDelete` and `RecordCreatedFile` change nothing apart from the rule's store, whether they
  -- succeed or fail. The store is not empty and its path does not end with a separator, so it is not the
  -- root of a drive; what a call of the file system writes below the store leaves alone what is apart
  -- from it; and the lower case of a backslash is a backslash.
  pub record_delete_isolated :
      (real_path : Text) (w : World os) (q : Text)
      → Apart os (store_root os rule) q
      → (framed.node (record_delete os engine rule real_path w).1.fs q ≡ framed.node w.fs q)
        × (framed.node (record_created_file os engine rule real_path w).1.fs q ≡ framed.node w.fs q)
  record_delete_isolated real_path w q a =
      ((record_delete-Still real_path).at w q a, (record_created_file-Still real_path).at w q a)
