-- ===== src/Metadata/Changes.antt =====
-- The table of changes as a map from the key to the row: what the statements of `AddOrUpdateChange`,
-- `DeleteChange` and `DeleteChangesForRule` in common/metadata_store.cpp do to it.
pub mod Statements
use path_overlay.Base.{
  ◌≡◌, refl, sym, ap, ◌∙◌, ◌⊎◌, inl, inr, Bool, true, false, ◌&&◌, ◌||◌, not, Bool-cases, Option,
  none, some, Option-cases, List, [], ◌∷◌, if◌then◌else◌, arith,
}
use mathlib.Core.Bool.{false≢true}
use path_overlay.Base.Lists.{select}
use path_overlay.Wide.{Text, wide, same_text, same_text_sound, same_text_refl}
use path_overlay.Os.{Os}
use path_overlay.Paths.{normalize_path}
use path_overlay.Rules.{OverlayRule}
use path_overlay.Action.{OperationResult, success, failure, is_success, ⊤}
use path_overlay.Metadata.Records.{ChangeRecord}
use path_overlay.Metadata.Sql
use path_overlay.Metadata.Sql.{
  ChangeRow, Engine, Tables, is_change_key, update_change, upsert_change_row, delete_change_row,
  delete_rule_rows,
}
use path_overlay.Metadata.Store.{
  Db, run_statement, change_row, add_or_update_change, delete_change, delete_changes_for_rule,
}

-- The row of a key.
abbrev pub find_change : Text → Text → List ChangeRow → Option ChangeRow
find_change rule_id real_path [] = none
find_change rule_id real_path (row ∷ rows) =
    if is_change_key rule_id real_path row then some row else find_change rule_id real_path rows

-- A new row; or an old one, which keeps its key and what it says of the original file, with the two
-- paths, the state, the size and the time of the new one.
abbrev pub merged : ChangeRow → Option ChangeRow → ChangeRow
merged row none = row
merged row (some old) = record {
  rule_id = old.rule_id;
  real_path = old.real_path;
  shadow_path = row.shadow_path;
  target_path = row.target_path;
  state = row.state;
  original_exists = old.original_exists;
  original_size = old.original_size;
  original_last_write_time = old.original_last_write_time;
  current_size = row.current_size;
  last_write_time = row.last_write_time;
}

update_change-merged : (row old : ChangeRow) → update_change row old ≡ merged row (some old)
unfolding update_change
update_change-merged row old = refl

-- A row with the key of another has each key that the other has.
is_change_key-same :
    (row old : ChangeRow) (rule_id real_path : Text)
    → is_change_key row.rule_id row.real_path old ≡ true
    → is_change_key rule_id real_path old ≡ is_change_key rule_id real_path row
unfolding is_change_key
is_change_key-same row old rule_id real_path h =
    let rules : old.rule_id ≡ row.rule_id = same_text_sound _ _ (ground arith) in
    let paths : old.real_path ≡ row.real_path = same_text_sound _ _ (ground arith) in
    rw (rules, paths)

is_change_key-join :
    (row old : ChangeRow) (rule_id real_path : Text)
    → is_change_key rule_id real_path old ≡ true
    → is_change_key rule_id real_path row ≡ true
    → is_change_key row.rule_id row.real_path old ≡ true
unfolding is_change_key
is_change_key-join row old rule_id real_path h k =
    let rules : old.rule_id ≡ row.rule_id =
      same_text_sound _ _ (ground arith)
      ∙ sym (same_text_sound row.rule_id rule_id (ground arith)) in
    let paths : old.real_path ≡ row.real_path =
      same_text_sound _ _ (ground arith)
      ∙ sym (same_text_sound row.real_path real_path (ground arith)) in
    rw (rules, paths, same_text_refl, same_text_refl)

is_change_key-update :
    (row old : ChangeRow) (rule_id real_path : Text)
    → is_change_key rule_id real_path (update_change row old) ≡ is_change_key rule_id real_path old
unfolding is_change_key update_change
is_change_key-update row old rule_id real_path = refl

-- A row with a key does not have another.
is_change_key-other :
    (row : ChangeRow) (id path rule_id real_path : Text)
    → is_change_key id path row ≡ true
    → is_change_key rule_id real_path row ≡ (same_text id rule_id && same_text path real_path)
unfolding is_change_key
is_change_key-other row id path rule_id real_path h =
    let rules : row.rule_id ≡ id = same_text_sound _ _ (ground arith) in
    let paths : row.real_path ≡ path = same_text_sound _ _ (ground arith) in rw (rules, paths)

is_change_key-both :
    (row : ChangeRow) (id path rule_id real_path : Text)
    → is_change_key id path row ≡ false
    → is_change_key rule_id real_path row ≡ true
    → (same_text id rule_id && same_text path real_path) ≡ false
unfolding is_change_key
is_change_key-both row id path rule_id real_path h k =
    elim (Bool-cases (same_text id rule_id && same_text path real_path)) [
      | inr apart ↦ apart
      | inl same ↦
          let rules : id ≡ rule_id = same_text_sound _ _ (ground arith) in
          let paths : path ≡ real_path = same_text_sound _ _ (ground arith) in
          absurd (false≢true (sym h ∙ rw (rules, paths) k))
    ]

is_change_key-rule :
    (row : ChangeRow) (id rule_id real_path : Text)
    → same_text row.rule_id id ≡ true
    → is_change_key rule_id real_path row
      ≡ (same_text id rule_id && same_text row.real_path real_path)
unfolding is_change_key
is_change_key-rule row id rule_id real_path h = rw (same_text_sound row.rule_id id h)

is_change_key-apart :
    (row : ChangeRow) (id rule_id real_path : Text)
    → same_text row.rule_id id ≡ false
    → is_change_key rule_id real_path row ≡ true
    → same_text id rule_id ≡ false
unfolding is_change_key
is_change_key-apart row id rule_id real_path h k = elim (Bool-cases (same_text id rule_id)) [
  | inr apart ↦ apart
  | inl same ↦
      let rules : id ≡ rule_id = same_text_sound _ _ same in
      let own : same_text row.rule_id rule_id ≡ true = ground arith in
      absurd (false≢true (sym h ∙ rw (rules) own))
]

module _ (rule_id real_path : Text) where
  -- The upsert changes the row of its own key alone.
  pub upsert_change_row-find :
      (row : ChangeRow) (rows : List ChangeRow)
      → find_change rule_id real_path (upsert_change_row row rows) ≡ (
          if is_change_key rule_id real_path row
          then some (merged row (find_change rule_id real_path rows))
          else find_change rule_id real_path rows)
  unfolding upsert_change_row
  upsert_change_row-find row [] = refl
  upsert_change_row-find row (old ∷ rows) =
      let others = upsert_change_row-find row rows in
      elim (Bool-cases (is_change_key row.rule_id row.real_path old)) [
        | inl same ↦
            let hit = is_change_key-same row old rule_id real_path same in
            let update = is_change_key-update row old rule_id real_path in
            rw (same, update, hit, update_change-merged row old)
              (elim (Bool-cases (is_change_key rule_id real_path row)) [
                | inl key ↦ rw (key)
                | inr other ↦ rw (other)
              ])
        | inr other ↦ rw other (elim (Bool-cases (is_change_key rule_id real_path old)) [
          | inl key ↦ elim (Bool-cases (is_change_key rule_id real_path row)) [
            | inl both ↦
                absurd
                  (false≢true (sym other ∙ is_change_key-join row old rule_id real_path key both))
            | inr apart ↦ rw (key, apart)
          ]
          | inr miss ↦ rw (miss) others
        ])
      ]

  pub delete_change_row-find :
      (id path : Text) (rows : List ChangeRow)
      → find_change rule_id real_path (delete_change_row id path rows) ≡ (
          if same_text id rule_id && same_text path real_path
          then none
          else find_change rule_id real_path rows)
  unfolding delete_change_row select
  delete_change_row-find id path [] = ground arith
  delete_change_row-find id path (row ∷ rows) =
      let others = delete_change_row-find id path rows in
      elim (Bool-cases (is_change_key id path row)) [
        | inl key ↦
            let hit = is_change_key-other row id path rule_id real_path key in
            rw (key, others, hit) (ground arith)
        | inr miss ↦
            rw (miss, others) (ground (arith, is_change_key-both row id path rule_id real_path))
      ]

  pub delete_rule_rows-find :
      (id : Text) (rows : List ChangeRow)
      → find_change rule_id real_path (delete_rule_rows id rows)
        ≡ (if same_text id rule_id then none else find_change rule_id real_path rows)
  unfolding delete_rule_rows select
  delete_rule_rows-find id [] = ground arith
  delete_rule_rows-find id (row ∷ rows) =
      let others = delete_rule_rows-find id rows in
      elim (Bool-cases (same_text row.rule_id id)) [
        | inl key ↦
            rw (key, others) (rw (is_change_key-rule row id rule_id real_path key) (ground arith))
        | inr miss ↦
            rw (miss, others) (ground (arith, is_change_key-apart row id rule_id real_path miss))
      ]
