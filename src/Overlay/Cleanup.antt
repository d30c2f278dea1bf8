-- ===== src/Overlay/Cleanup.antt =====
-- What `ProcessCleanupQueue` of common/overlay_operations.cpp deletes.
use path_overlay.Base.{
  ℕ, ◌+◌, ◌≡◌, refl, ap, subst, ◌∙◌, ◌⊎◌, inl, inr, true, false, not, Bool-cases, Option-cases,
  some, List, [], ◌∷◌, ◌++◌, if◌then◌else◌, arith,
}
use path_overlay.Base.Lists.{Member, here, there}
use path_overlay.Wide.{Text, wide, same_text, same_text_sound, starts_with}
use path_overlay.Os.{Os, remove_all}
use path_overlay.Paths.{normalize_path, to_lower}
use path_overlay.Paths.Child.{starts_with_sound}
use path_overlay.Overlay.FsPath.{with_backslash, is_same_path_or_descendant}
use path_overlay.Rules.{OverlayRule, store_root}
use path_overlay.Action.{
  OperationResult, success, failure, attempt, on_result, on_option, pure, fail, ignore, ◌>>=◌,
}
use path_overlay.Action.Keeps.{IsPreorder, Keeps, Keeps-pure, Keeps-ignore, Keeps-if, keeps_rules}
use path_overlay.Metadata.Records.{CleanupRecord}
use path_overlay.Metadata.Sql.{Engine, select_rule, find_id}
use path_overlay.Metadata.Store.{
  run_query, run_query_one, run_statement, get_rule, list_cleanup_records, update_cleanup_record,
}
use path_overlay.Overlay.World.{World, perform, on_metadata, manual_timestamp}
use path_overlay.Overlay.Discard.{
  mark_cleanup, is_cleanup_path, delete_cleanup_path, process_cleanup, process_cleanup_queue,
}

-- The path, in normal form and lower case, is the store or goes on from it behind a backslash; and
-- `_wcsicmp` does not find it equal to the store.
abbrev pub IsInStore : Os → OverlayRule → Text → Type 0
IsInStore os rule path =
    let normal_store = to_lower os (normalize_path os (store_root os rule)) in
    let normal_path = to_lower os (normalize_path os path) in
    ((normal_store ≡ normal_path)
      ⊎ ((rest : Text) × (normal_path ≡ with_backslash normal_store ++ rest)))
    × (os.wcsicmp (store_root os rule) path ≡ false)

is_cleanup_path-IsInStore :
    (os : Os) (engine : Engine) (rule : OverlayRule) (path : Text)
    → is_cleanup_path os engine rule path ≡ true
    → IsInStore os rule path
unfolding is_cleanup_path is_same_path_or_descendant
is_cleanup_path-IsInStore os engine rule path h =
    let normal_store = to_lower os (normalize_path os (store_root os rule)) in
    let normal_path = to_lower os (normalize_path os path) in
    (
      elim (Bool-cases (same_text normal_store normal_path)) [
        | inl same ↦ inl (same_text_sound normal_store normal_path same)
        | inr other ↦
            let starts : starts_with normal_path (with_backslash normal_store) ≡ true =
              ground arith in
            inr (_, starts_with_sound normal_path (with_backslash normal_store) starts)
      ],
      ground arith,
    )

-- The file systems that removals below the stores of the rules lead to.
pub data Cleaned (os : Os) (engine : Engine) (rules : List OverlayRule)
    : os.Fs → os.Fs → Type 0 where
  untouched : {fs : os.Fs} → Cleaned os engine rules fs fs
  removal :
      {fs gs : os.Fs} (rule : OverlayRule) (path : Text)
      → Member rule rules
      → IsInStore os rule path
      → Cleaned os engine rules (os.perform (remove_all path) fs).1 gs
      → Cleaned os engine rules fs gs

Cleaned-trans :
    (os : Os) (engine : Engine) (rules : List OverlayRule) {fs gs hs : os.Fs}
    → Cleaned os engine rules fs gs
    → Cleaned os engine rules gs hs
    → Cleaned os engine rules fs hs
Cleaned-trans os engine rules untouched k = k
Cleaned-trans os engine rules (removal rule path m h rest) k =
    removal rule path m h (Cleaned-trans os engine rules rest k)

find_id-Member :
    {A : Type 0} (id : A → Text) (key : Text) (rows : List A) (a : A)
    → find_id id key rows ≡ some a
    → Member a rows
unfolding find_id
find_id-Member id key [] a h = cc
find_id-Member id key (row ∷ rows) a h = elim (Bool-cases (same_text (id row) key)) [
  | inl hit ↦ (let same : row ≡ a = ground arith in subst (λ x. Member x (row ∷ rows)) same here)
  | inr miss ↦ there (find_id-Member id key rows a (ground arith))
]

module _ (os : Os) (engine : Engine) (rules : List OverlayRule) where
  Sweep : World os → World os → Type 0
  Sweep w w' =
      w.tables.rules ≡ rules → (w'.tables.rules ≡ rules) × Cleaned os engine rules w.fs w'.fs

  sweep : IsPreorder Sweep
  unfolding Sweep
  sweep = record {
    rel_refl = λ w e. (e, untouched);
    rel_trans = λ w v u h k e.
        let (f, p) = h e in let (g, q) = k f in (g, Cleaned-trans os engine rules p q);
  }

  manual_timestamp-Sweep : Keeps Sweep (manual_timestamp os)
  unfolding Sweep manual_timestamp
  manual_timestamp-Sweep = record { at = λ w e. (e, untouched) }

  update_cleanup_record-Sweep :
      (id status : Text) (attempts : ℕ) (error now : Text)
      → Keeps Sweep (on_metadata os (update_cleanup_record engine id status attempts error now))
  unfolding Sweep on_metadata update_cleanup_record run_statement
  update_cleanup_record-Sweep id status attempts error now = record {
    at = λ w e. (ground arith, untouched);
  }

  list_cleanup_records-Sweep : Keeps Sweep (on_metadata os (list_cleanup_records engine))
  unfolding Sweep on_metadata list_cleanup_records run_query
  list_cleanup_records-Sweep = record { at = λ w e. (ground arith, untouched) }

  mark_cleanup-Sweep :
      (id status : Text) (attempts : ℕ) (error : Text)
      → Keeps Sweep (mark_cleanup os engine id status attempts error)
  unfolding mark_cleanup
  mark_cleanup-Sweep id status attempts error =
      search (keeps_rules, sweep, manual_timestamp-Sweep, update_cleanup_record-Sweep) depth 12

  remove_all-Sweep :
      (rule : OverlayRule) (path : Text)
      → Member rule rules
      → is_cleanup_path os engine rule path ≡ true
      → Keeps Sweep (perform os (remove_all path))
  unfolding Sweep perform
  remove_all-Sweep rule path m h = record {
    at =
        λ w e. (e, removal rule path m (is_cleanup_path-IsInStore os engine rule path h) untouched);
  }

  delete_cleanup_path-Sweep :
      (r : CleanupRecord) (rule : OverlayRule) (path : Text)
      → Member rule rules
      → is_cleanup_path os engine rule path ≡ true
      → Keeps Sweep (delete_cleanup_path os engine r path)
  unfolding delete_cleanup_path
  delete_cleanup_path-Sweep r rule path m h =
      search (keeps_rules, sweep, mark_cleanup-Sweep, remove_all-Sweep) depth 16

  -- `GetRule` gives a rule of the table, and changes nothing.
  pub get_rule-Member :
      (id : Text) (w : World os)
      → ((on_metadata os (get_rule engine id) w).1 ≡ w)
        × ((rule : OverlayRule)
            → (on_metadata os (get_rule engine id) w).0 ≡ success rule
            → Member rule w.tables.rules)
  unfolding on_metadata get_rule run_query_one run_query ◌>>=◌ on_option pure fail
  get_rule-Member id w = elim (Option-cases (engine.prepare_fails select_rule w.tables)) [
    | inr (message, e) ↦ (ground arith, λ rule h. absurd (ground arith))
    | inl prepared ↦ elim (Option-cases (engine.step_fails select_rule w.tables)) [
      | inr (message, e) ↦ (ground arith, λ rule h. absurd (ground arith))
      | inl stepped ↦ elim (Option-cases (find_id (λ (r : OverlayRule). r.id) id w.tables.rules)) [
        | inl nothing ↦ (ground arith, λ rule h. absurd (ground arith))
        | inr (found, e) ↦ (
          ground arith,
          λ rule h.
              find_id-Member (λ (r : OverlayRule). r.id) id w.tables.rules rule (ground arith),
        )
      ]
    ]
  ]

  -- What follows the query for the rule of a record.
  found-Sweep :
      (r : CleanupRecord) (found : OperationResult OverlayRule) (w : World os)
      → ((rule : OverlayRule) → found ≡ success rule → Member rule rules)
      → Sweep w
          (on_result found
            (λ rule.
              if not (is_cleanup_path os engine rule (normalize_path os r.path))
              then ignore (
                  mark_cleanup os engine r.id
                    (wide "failed")
                    (r.attempts + 1)
                    (wide "cleanup path is outside rule store"))
              else delete_cleanup_path os engine r (normalize_path os r.path))
            (λ _. ignore (
              mark_cleanup os engine r.id
                (wide "failed")
                (r.attempts + 1)
                (wide "cleanup rule was not found")))
            w).1
  unfolding on_result
  found-Sweep r (failure message) w member =
      (Keeps-ignore sweep _ (mark_cleanup-Sweep _ _ _ _)).at w
  found-Sweep r (success rule) w member =
      elim (Bool-cases (is_cleanup_path os engine rule (normalize_path os r.path))) [
        | inl below ↦
            rw (below) ((delete_cleanup_path-Sweep r rule _ (member rule refl) below).at w)
        | inr outside ↦ rw (outside) ((Keeps-ignore sweep _ (mark_cleanup-Sweep _ _ _ _)).at w)
      ]

  Cleaned-from :
      {v w : World os} {gs : os.Fs}
      → v ≡ w
      → Cleaned os engine rules v.fs gs
      → Cleaned os engine rules w.fs gs
  Cleaned-from {v} {w} {gs} e c = subst (λ (u : World os). Cleaned os engine rules u.fs gs) e c

  looked_up-Sweep :
      (r : CleanupRecord)
      → Keeps Sweep (
          attempt (on_metadata os (get_rule engine r.rule_id)) >>= λ found.
          on_result found
            (λ rule.
              if not (is_cleanup_path os engine rule (normalize_path os r.path))
              then ignore (
                  mark_cleanup os engine r.id
                    (wide "failed")
                    (r.attempts + 1)
                    (wide "cleanup path is outside rule store"))
              else delete_cleanup_path os engine r (normalize_path os r.path))
            (λ _. ignore (
              mark_cleanup os engine r.id
                (wide "failed")
                (r.attempts + 1)
                (wide "cleanup rule was not found"))))
  unfolding Sweep attempt ◌>>=◌
  looked_up-Sweep r = record {
    at = λ w e.
        let (same, member) = get_rule-Member r.rule_id w in
        let looked = on_metadata os (get_rule engine r.rule_id) w in
        let (rules_same, cleaned) =
          found-Sweep r looked.0 looked.1 (λ rule h. subst (Member rule) e (member rule h))
            (ap (λ v. v.tables.rules) same ∙ e) in
        (rules_same, Cleaned-from same cleaned);
  }

  process_cleanup-Sweep : (r : CleanupRecord) → Keeps Sweep (process_cleanup os engine r)
  unfolding process_cleanup
  process_cleanup-Sweep r = Keeps-if sweep _ _ _ (λ _. Keeps-pure sweep tt) (λ _. looked_up-Sweep r)

  process_cleanup_queue-Sweep : Keeps Sweep (process_cleanup_queue os engine)
  unfolding process_cleanup_queue
  process_cleanup_queue-Sweep =
      search (keeps_rules, sweep, list_cleanup_records-Sweep, process_cleanup-Sweep) depth 12

-- `ProcessCleanupQueue` keeps the rules, and changes the file system by removals alone, each of a path
-- that, in normal form and lower case, goes on behind a backslash from the store of a rule of the table, or
-- is that store, but is not equal to it for `_wcsicmp`.
pub process_cleanup_queue_stays_in_stores :
    (os : Os) (engine : Engine) (w : World os)
    → ((process_cleanup_queue os engine w).1.tables.rules ≡ w.tables.rules)
      × Cleaned os engine w.tables.rules w.fs (process_cleanup_queue os engine w).1.fs
unfolding Sweep
process_cleanup_queue_stays_in_stores os engine w =
    (process_cleanup_queue-Sweep os engine w.tables.rules).at w refl
