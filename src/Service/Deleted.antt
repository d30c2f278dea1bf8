-- ===== src/Service/Deleted.antt =====
-- `RecordDelete` of common/overlay_operations.cpp and `IsTombstoned` of service/PathOverlaySvc/main.cpp,
-- one after the other.
use path_overlay.Base.{
  ◌≡◌, refl, sym, ap, subst, ◌∙◌, inl, inr, true, false, Bool-cases, Option, none, some, List, [],
  ◌∷◌, map, arith,
}
use mathlib.Core.Bool.{false≢true}
use path_overlay.Base.Lists.{select, Member, here, there}
use path_overlay.Wide.{Text, wide, same_text, same_text_sound, same_text_refl}
use path_overlay.Os.{Os}
use path_overlay.Paths.{normalize_path}
use path_overlay.Rules.{OverlayRule}
use path_overlay.Action.{OperationResult, success, failure, is_success, ⊤}
use path_overlay.Action.Keeps.{Ensures, Ensures-bind, Ensures-then}
use path_overlay.Metadata.Records.{
  created, tombstone, ChangeState, ChangeRecord, change_state_to_string, try_parse_change_state,
}
use path_overlay.Metadata.Sql.{
  Engine, Tables, ChangeRow, is_change_key, update_change, order_by, select_changes,
}
use path_overlay.Metadata.Store.{
  stored_text, change_row, change_record, add_or_update_change, list_changes,
}
use path_overlay.Metadata.Changes.{find_change, merged}
use path_overlay.Metadata.Changes.Statements.{add_or_update_change_refines}
use path_overlay.Metadata.RoundTrip.{IsKept, try_parse_change_state-to_string}
use path_overlay.Metadata.Sorted.{order_by-Member, select-Member, run_query-success}
use path_overlay.Overlay.World.{World, on_metadata}
use path_overlay.Overlay.Files.{FileInfo}
use path_overlay.Overlay.Records.{persisted_record, persist_change}
use path_overlay.Overlay.Prepare.{record_delete}
use path_overlay.Service.Hidden.{is_tombstoned_in, is_tombstoned}

module _ (engine : Engine) (os : Os) (rule_id real_path : Text) where
  -- The key of the records on the path, as it is normalized and converted on its way to the table.
  abbrev key : Text
  key = stored_text engine (normalize_path os (normalize_path os real_path))

  -- The table has a row for the path, in the state of a tombstone.
  abbrev HasTombstone : Tables → Type 0
  HasTombstone t =
      (row : ChangeRow) × (find_change rule_id key t.changes ≡ some row)
      × (row.state ≡ change_state_to_string tombstone)

  tombstone_row-key :
      (shadow : Text) (original current : FileInfo)
      → is_change_key rule_id key (
          change_row engine os rule_id
            (persisted_record os real_path shadow tombstone [] original current))
        ≡ true
  unfolding is_change_key change_row persisted_record
  tombstone_row-key shadow original current =
      ground (arith, same_text_refl rule_id, same_text_refl key)

  merged-state : (row : ChangeRow) (old : Option ChangeRow) → (merged row old).state ≡ row.state
  unfolding update_change
  merged-state row none = refl
  merged-state row (some old) = refl

  tombstone_row-state :
      (shadow : Text) (original current : FileInfo)
      → (change_row engine os rule_id
          (persisted_record os real_path shadow tombstone [] original current)).state
        ≡ change_state_to_string tombstone
  unfolding change_row persisted_record
  tombstone_row-state shadow original current = refl

  add_tombstone-HasTombstone :
      (shadow : Text) (original current : FileInfo) (t : Tables) (a : ⊤)
      → (add_or_update_change engine os rule_id
          (persisted_record os real_path shadow tombstone [] original current)
          t).0
        ≡ success a
      → HasTombstone
          (add_or_update_change engine os rule_id
            (persisted_record os real_path shadow tombstone [] original current)
            t).1
  add_tombstone-HasTombstone shadow original current t a h =
      let r = persisted_record os real_path shadow tombstone [] original current in
      let row = change_row engine os rule_id r in
      elim (add_or_update_change_refines engine os rule_id r t) [
        | inl (failed, same) ↦ absurd (false≢true (sym failed ∙ ap is_success h))
        | inr (ok, (rules, rows)) ↦ (
          merged row (find_change rule_id key t.changes),
          rows rule_id key ∙ rw (tombstone_row-key shadow original current),
          merged-state row _ ∙ tombstone_row-state shadow original current,
        )
      ]

module _ (os : Os) (engine : Engine) (rule : OverlayRule) (real_path : Text) where
  abbrev Recorded : World os → Type 0
  Recorded w = HasTombstone engine os rule.id real_path w.tables

  on_metadata-Recorded :
      (shadow : Text) (original current : FileInfo)
      → Ensures Recorded (
          on_metadata os (
            add_or_update_change engine os rule.id
              (persisted_record os real_path shadow tombstone [] original current)))
  unfolding on_metadata
  on_metadata-Recorded shadow original current = record {
    after = λ w a u h. subst Recorded (ap (λ r. r.1) h) (
        add_tombstone-HasTombstone engine os rule.id real_path shadow original current w.tables a
          (ap (λ r. r.0) h));
  }

  persist_change-Recorded :
      (shadow : Text)
      → Ensures Recorded (persist_change os engine rule real_path shadow tombstone [])
  unfolding persist_change
  persist_change-Recorded shadow =
      Ensures-bind _ _ λ fs. Ensures-bind _ _ λ original. on_metadata-Recorded shadow original _

  record_delete-Recorded : Ensures Recorded (record_delete os engine rule real_path)
  unfolding record_delete
  record_delete-Recorded =
      Ensures-bind _ _
        λ mapped. Ensures-bind _ _ λ fs. Ensures-then _ _ (persist_change-Recorded mapped)

find_change-Member :
    (rule_id path : Text) (rows : List ChangeRow) (row : ChangeRow)
    → find_change rule_id path rows ≡ some row
    → Member row rows × (is_change_key rule_id path row ≡ true)
find_change-Member rule_id path [] row h = cc
find_change-Member rule_id path (first ∷ rows) row h =
    elim (Bool-cases (is_change_key rule_id path first)) [
      | inl hit ↦
          let same : first ≡ row = ground arith in
          (
            subst (λ x. Member x (first ∷ rows)) same here,
            subst (λ x. is_change_key rule_id path x ≡ true) same hit,
          )
      | inr miss ↦
          let (m, k) = find_change-Member rule_id path rows row (ground arith) in (there m, k)
    ]

map-Member :
    {A B : Type 0} (f : A → B) (xs : List A) {x : A} → Member x xs → Member (f x) (map f xs)
map-Member f (x ∷ xs) here = here
map-Member f (x ∷ xs) (there m) = there (map-Member f xs m)
map-Member f [] m = elim m [ ]

is_tombstoned_in-Member :
    (os : Os) (fs : os.Fs) (records : List ChangeRecord) (real_path : Text) {r : ChangeRecord}
    → Member r records
    → os.wcsicmp (normalize_path os r.real_path) (normalize_path os real_path) ≡ true
    → r.state ≡ tombstone
    → is_tombstoned_in os fs records real_path ≡ true
unfolding is_tombstoned_in
is_tombstoned_in-Member os fs (r ∷ rest) real_path here same state = rw (same, state) refl
is_tombstoned_in-Member os fs (first ∷ rest) real_path (there m) same state =
    ground (arith, is_tombstoned_in-Member os fs rest real_path m same state)
is_tombstoned_in-Member os fs [] real_path m same state = elim m [ ]

-- The record that is read from a row keeps its path and its state.
change_record-fields :
    (row : ChangeRow)
    → row.state ≡ change_state_to_string tombstone
    → ((change_record row).state ≡ tombstone) × ((change_record row).real_path ≡ row.real_path)
unfolding change_record
change_record-fields row h = (
  ap (λ (o : Option ChangeState). elim o [ none ↦ created | some state ↦ state ])
      (ap try_parse_change_state h ∙ try_parse_change_state-to_string tombstone),
  refl,
)

is_change_key-fields :
    (rule_id path : Text) (row : ChangeRow)
    → is_change_key rule_id path row ≡ true
    → (same_text row.rule_id rule_id ≡ true) × (row.real_path ≡ path)
unfolding is_change_key
is_change_key-fields rule_id path row h =
    (ground arith, same_text_sound row.real_path path (ground arith))

module _ (os : Os) (engine : Engine) (rule : OverlayRule) (real_path : Text) where
  list_changes-Member :
      (t t' : Tables) (records : List ChangeRecord) (row : ChangeRow)
      → list_changes engine rule.id t ≡ (success records, t')
      → Member row t.changes
      → same_text row.rule_id rule.id ≡ true
      → Member (change_record row) records
  unfolding list_changes
  list_changes-Member t t' records row h m own =
      let of_rule = λ (x : ChangeRow). same_text x.rule_id rule.id in
      let order = λ (x y : ChangeRow). engine.collate x.real_path y.real_path in
      let (found, same) =
        run_query-success engine select_changes (wide "failed to prepare change query")
          (wide "failed to query changes")
          (λ u. map change_record (order_by order (select of_rule u.changes))) t t' records h in
      subst (Member (change_record row)) found (
        map-Member change_record _
          (order_by-Member order _ (select-Member of_rule t.changes row own m)))

  -- A path that `RecordDelete` has recorded is hidden: `IsTombstoned` finds it as long as the records can
  -- be read, if `_wcsicmp` finds a text equal to itself, the normal form of the path is its own, and it is read
  -- from the table as it was bound: so it is for well-formed UTF-16, not where a surrogate stands alone.
  pub record_delete_hides :
      ((s : Text) → os.wcsicmp s s ≡ true)
      → normalize_path os (normalize_path os real_path) ≡ normalize_path os real_path
      → IsKept engine os (normalize_path os real_path)
      → (w w' : World os) → record_delete os engine rule real_path w ≡ (success tt, w')
      → (records : List ChangeRecord)
      → list_changes engine rule.id w'.tables ≡ (success records, w'.tables)
      → is_tombstoned os engine w' rule.id real_path ≡ true
  unfolding is_tombstoned
  record_delete_hides reflexive normal kept w w' deleted records listed =
      let (row, found, state) =
        (record_delete-Recorded os engine rule real_path).after w tt w' deleted in
      let (m, k) =
        find_change-Member rule.id (key engine os rule.id real_path) w'.tables.changes row found in
      let (own, path) = is_change_key-fields rule.id _ row k in
      let (read_state, read_path) = change_record-fields row state in
      let there_ = list_changes-Member w'.tables w'.tables records row listed m own in
      let same : normalize_path os (change_record row).real_path ≡ normalize_path os real_path =
        (ap (normalize_path os) (read_path ∙ (path ∙ (ap (stored_text engine) normal ∙ kept)))
          ∙ normal) in
      ap
        (λ (answer : OperationResult (List ChangeRecord)). elim answer [
          | failure _ ↦ false
          | success rs ↦ is_tombstoned_in os w'.fs rs real_path
        ])
        (ap (λ r. r.0) listed)
      ∙ (is_tombstoned_in-Member os w'.fs records real_path there_
          (rw (same) (reflexive (normalize_path os real_path))) read_state)
