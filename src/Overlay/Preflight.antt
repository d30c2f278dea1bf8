-- ===== src/Overlay/Preflight.antt =====
-- The preconditions of a commit: `ValidateCommitPreconditions` of common/overlay_operations.cpp, and
-- what `Commit` does where they do not hold.
use path_overlay.Base.{
  ◌≡◌, ◌⊎◌, inl, inr, Bool, true, false, Bool-cases, List, [], ◌∷◌, some, arith, sym, ap, subst,
  ◌∙◌,
}
use path_overlay.Base.{Option-cases, ==_iff}
use path_overlay.Base.Lists.{All}
use path_overlay.Wide.{Text, is_empty, same_text_sound}
use path_overlay.Os.{Os}
use path_overlay.Rules.{OverlayRule}
use path_overlay.Action.{
  OperationResult, success, failure, is_success, actions, ⊤, result-cases, on_result,
  >>=-of_success, gets, ◌>>=◌,
}
use path_overlay.Metadata.Records.{ChangeRecord}
use path_overlay.Metadata.Sql.{Engine}
use path_overlay.Metadata.Store.{run_statement, list_changes, add_commit_record}
use path_overlay.Overlay.World.{World, M, on_metadata, on_metadata-success}
use path_overlay.Overlay.Files.{FileInfo, file_info_matches, try_get_file_info, is_directory_path}
use path_overlay.Overlay.Records.{needs_shadow, is_renamed}
use path_overlay.Overlay.Commit.{
  check_lock, check_real, check_shadow, check_target, validate_commit_preconditions, fail_commit,
  add_commit_log, commit, apply_changes,
}

-- The file is as the record found the original: there or not, and if it is, of the same size and with
-- the same time of the last write.
pub record IsUnchanged (r : ChangeRecord) (info : FileInfo) : Type 0 where
  pub same_existence : r.original_exists ≡ info.exists
  pub same_size : info.exists ≡ true → r.original_size ≡ info.size
  pub same_time : info.exists ≡ true → r.original_last_write_time ≡ info.last_write_time

file_info_matches-IsUnchanged :
    (r : ChangeRecord) (info : FileInfo) → file_info_matches r info ≡ true → IsUnchanged r info
unfolding file_info_matches
file_info_matches-IsUnchanged r info h = record {
  same_existence = ground arith;
  same_size = λ e. ground (arith, ==_iff r.original_size info.size);
  same_time = λ e. same_text_sound _ _ (ground arith);
}

module _ (os : Os) (fs : os.Fs) where
  -- The record can be committed: the real file is unchanged, the shadow is there if the state needs
  -- one, and the target of a rename is given and free.
  pub record IsCommittable (r : ChangeRecord) : Type 0 where
    pub real_unchanged :
        (info : FileInfo) × (try_get_file_info os fs r.real_path ≡ some info) × IsUnchanged r info
    pub shadow_exists :
        needs_shadow r.state ≡ true
        → (info : FileInfo) × (try_get_file_info os fs r.shadow_path ≡ some info)
          × (info.exists ≡ true)
    pub target_free :
        is_renamed r.state ≡ true
        → (is_empty r.target_path ≡ false)
          × (info : FileInfo) × (try_get_file_info os fs r.target_path ≡ some info)
          × (info.exists ≡ false)

  -- Each group of checks hands on only what it is about.
  check_lock_sound :
      (path : Text) (kind : OperationResult Bool) (rest : OperationResult ⊤)
      → check_lock os fs path kind rest ≡ success tt
      → rest ≡ success tt
  unfolding check_lock
  check_lock_sound path (failure message) rest h = cc
  check_lock_sound path (success true) rest h = h
  check_lock_sound path (success false) rest h = ground arith

  check_real_sound :
      (r : ChangeRecord) (rest : OperationResult ⊤)
      → check_real os fs r rest ≡ success tt
      → ((info : FileInfo) × (try_get_file_info os fs r.real_path ≡ some info) × IsUnchanged r info)
        × (rest ≡ success tt)
  unfolding check_real
  check_real_sound r rest h = elim (Option-cases (try_get_file_info os fs r.real_path)) [
    | inl unread ↦ ground arith
    | inr (info, e) ↦ (
      (info, e, file_info_matches-IsUnchanged r info (ground arith)),
      ground (arith, check_lock_sound r.real_path (is_directory_path os fs r.real_path) rest),
    )
  ]

  check_shadow_sound :
      (r : ChangeRecord) (rest : OperationResult ⊤)
      → check_shadow os fs r rest ≡ success tt
      → (needs_shadow r.state ≡ true
          → (info : FileInfo) × (try_get_file_info os fs r.shadow_path ≡ some info)
            × (info.exists ≡ true))
        × (rest ≡ success tt)
  unfolding check_shadow
  check_shadow_sound r rest h = elim (Bool-cases (needs_shadow r.state)) [
    | inl needs ↦ elim (Option-cases (try_get_file_info os fs r.shadow_path)) [
      | inl unread ↦ ground arith
      | inr (info, e) ↦ (
        (λ _. (info, e, ground arith)),
        check_lock_sound r.shadow_path (is_directory_path os fs r.shadow_path) rest (ground arith),
      )
    ]
    | inr free ↦ ((λ k. cc), ground arith)
  ]

  check_target_sound :
      (r : ChangeRecord) (rest : OperationResult ⊤)
      → check_target os fs r rest ≡ success tt
      → (is_renamed r.state ≡ true
          → (is_empty r.target_path ≡ false)
            × (info : FileInfo) × (try_get_file_info os fs r.target_path ≡ some info)
            × (info.exists ≡ false))
        × (rest ≡ success tt)
  unfolding check_target
  check_target_sound r rest h = elim (Bool-cases (is_renamed r.state)) [
    | inl renames ↦ elim (Option-cases (try_get_file_info os fs r.target_path)) [
      | inl unread ↦ ground arith
      | inr (info, e) ↦ ((λ _. (ground arith, info, e, ground arith)), ground arith)
    ]
    | inr free ↦ ((λ k. cc), ground arith)
  ]

  -- The preflight passes only if every record can be committed.
  pub validate_commit_preconditions_sound :
      (records : List ChangeRecord)
      → validate_commit_preconditions os fs records ≡ success tt
      → All IsCommittable records
  unfolding validate_commit_preconditions
  validate_commit_preconditions_sound [] h = tt
  validate_commit_preconditions_sound (r ∷ rest) h =
      let (real, h₁) = check_real_sound r _ h in
      let (shadow, h₂) = check_shadow_sound r _ h₁ in
      let (target, h₃) = check_target_sound r _ h₂ in
      (
        record { real_unchanged = real; shadow_exists = shadow; target_free = target },
        validate_commit_preconditions_sound rest h₃,
      )

module _ (os : Os) (engine : Engine) (rule : OverlayRule) (commit_id : Text) where
  -- The file system and the changes are as they were, and the call has failed.
  abbrev pub IsRefused : World os → OperationResult ⊤ × World os → Type 0
  IsRefused w (r, w') =
      (is_success r ≡ false)
      × (w'.fs ≡ w.fs)
      × (w'.tables.changes ≡ w.tables.changes)
      × (w'.tables.rules ≡ w.tables.rules)

  pub fail_commit-IsRefused :
      (message : Text) (w : World os) → IsRefused w (fail_commit os engine rule commit_id message w)
  unfolding fail_commit actions add_commit_log on_metadata add_commit_record run_statement
  fail_commit-IsRefused message w = ground arith

  -- What `Commit` does with the verdict of the preflight.
  abbrev after_preflight : List ChangeRecord → OperationResult ⊤ → M os ⊤
  after_preflight records verdict =
      on_result verdict (λ _. apply_changes os engine rule commit_id records)
        (λ message. fail_commit os engine rule commit_id message)

  commit-after_preflight :
      (records : List ChangeRecord) (w : World os)
      → list_changes engine rule.id w.tables ≡ (success records, w.tables)
      → commit os engine rule commit_id w
        ≡ after_preflight records (validate_commit_preconditions os w.fs records) w
  unfolding commit gets ◌>>=◌
  commit-after_preflight records w e =
      >>=-of_success (on_metadata os (list_changes engine rule.id))
        (λ found. gets (λ u. u.fs) >>= λ fs.
          after_preflight found (validate_commit_preconditions os fs found))
        w (on_metadata-success os _ w e)

  -- `Commit` touches the file system only if every change of the rule can be committed: otherwise it
  -- fails and leaves the file system, the changes and the rules as they were.
  pub commit-IsCommittable :
      (records : List ChangeRecord) (w : World os)
      → list_changes engine rule.id w.tables ≡ (success records, w.tables)
      → All (IsCommittable os w.fs) records ⊎ IsRefused w (commit os engine rule commit_id w)
  unfolding on_result
  commit-IsCommittable records w e =
      elim (result-cases (validate_commit_preconditions os w.fs records)) [
        | inl passed ↦ inl (validate_commit_preconditions_sound os w.fs records passed)
        | inr (message, refused) ↦ inr (
            subst (IsRefused w)
              (sym (
                commit-after_preflight records w e ∙ ap (λ v. after_preflight records v w) refused))
              (fail_commit-IsRefused message w))
      ]
