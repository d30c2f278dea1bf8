-- ===== src/Metadata/Sql.antt =====
-- The tables of `Initialize`'s schema, and what the SQL text of each statement in
-- common/metadata_store.cpp says of them. The engine that runs the statements is SQLite, which may
-- also refuse any of them for reasons of its own: `Engine` is its part.
use path_overlay.Base.{ℕ, Bool, false, ◌&&◌, ◌||◌, not, Option, none, some, List}
use path_overlay.Base.{[], ◌∷◌, if◌then◌else◌}
use path_overlay.Base.Lists.{select}
use path_overlay.Wide.{Text, same_text}
use path_overlay.Rules.{OverlayRule}
use path_overlay.Metadata.Records.{CommitRecord, OperationRecord, CleanupRecord}

-- A row of `changes`; `state` holds the text of the state. A column of text holds what `ColumnText` reads
-- of it.
pub record ChangeRow : Type 0 where
  pub rule_id : Text
  pub real_path : Text
  pub shadow_path : Text
  pub target_path : Text
  pub state : Text
  pub original_exists : Bool
  pub original_size : ℕ
  pub original_last_write_time : Text
  pub current_size : ℕ
  pub last_write_time : Text

pub record Tables : Type 0 where
  pub rules : List OverlayRule
  pub changes : List ChangeRow
  pub commits : List CommitRecord
  pub operations : List OperationRecord
  pub cleanup_queue : List CleanupRecord

-- The statements, one for each `kSql`.
pub data Sql : Type 0 where
  upsert_into_rules update_rules_enabled select_rule select_rules delete_from_rules : Sql
  upsert_into_changes select_changes delete_from_changes delete_rule_changes : Sql
  insert_into_commits select_commit : Sql
  insert_into_operations update_operations select_operations select_running_operations : Sql
  insert_into_cleanup_queue update_cleanup_queue select_cleanup_queue : Sql

-- `prepare_fails` and `step_fails` give the engine's message where it refuses to prepare, or to bind
-- and step. `constraint_failed` is its message for a violated key. `collate a b` is true where `a`
-- does not come after `b` in the order of `ORDER BY`. The two calls of Windows that each text passes on its
-- way to the engine and back, with the code page of UTF-8 and with the zero at the end taken away, are
-- here as well; bytes are numbers.
pub record Engine : Type 0 where
  pub prepare_fails : Sql → Tables → Option Text
  pub step_fails : Sql → Tables → Option Text
  pub constraint_failed : Sql → Text
  pub collate : Text → Text → Bool
  pub wide_char_to_multi_byte : Text → List ℕ
  pub multi_byte_to_wide_char : List ℕ → Text

-- `SELECT ... ORDER BY key`
module _ {A : Type 0} (before : A → A → Bool) where
  unfoldable pub insert_sorted : A → List A → List A
  insert_sorted x [] = x ∷ []
  insert_sorted x (y ∷ ys) = if before x y then x ∷ y ∷ ys else y ∷ insert_sorted x ys

  unfoldable pub order_by : List A → List A
  unfolding insert_sorted
  order_by [] = []
  order_by (x ∷ xs) = insert_sorted x (order_by xs)

-- A row with the key stands in the table.
unfoldable pub has_id : {A : Type 0} → (A → Text) → Text → List A → Bool
has_id id key [] = false
has_id id key (row ∷ rows) = same_text (id row) key || has_id id key rows

-- `WHERE id = ?` of a query for one row
unfoldable pub find_id : {A : Type 0} → (A → Text) → Text → List A → Option A
find_id id key [] = none
find_id id key (row ∷ rows) = if same_text (id row) key then some row else find_id id key rows

-- `UPDATE ... WHERE id = ?`
unfoldable pub update_id : {A : Type 0} → (A → Text) → Text → (A → A) → List A → List A
update_id id key f [] = []
update_id id key f (row ∷ rows) =
    (if same_text (id row) key then f row else row) ∷ update_id id key f rows

-- `INSERT INTO rules ... ON CONFLICT(id) DO UPDATE SET`, every column
unfoldable pub upsert_rule_row : OverlayRule → List OverlayRule → List OverlayRule
upsert_rule_row rule [] = rule ∷ []
upsert_rule_row rule (row ∷ rows) =
    if same_text row.id rule.id then rule ∷ rows else row ∷ upsert_rule_row rule rows

-- The primary key of `changes`
unfoldable pub is_change_key : Text → Text → ChangeRow → Bool
is_change_key rule_id real_path row =
    same_text row.rule_id rule_id && same_text row.real_path real_path

unfoldable pub has_change : Text → Text → List ChangeRow → Bool
unfolding is_change_key
has_change rule_id real_path [] = false
has_change rule_id real_path (row ∷ rows) =
    is_change_key rule_id real_path row || has_change rule_id real_path rows

-- `DO UPDATE SET shadow_path, target_path, state, current_size, last_write_time`: the columns about
-- the original file keep their values.
unfoldable pub update_change : ChangeRow → ChangeRow → ChangeRow
update_change excluded row = record row {
  shadow_path = excluded.shadow_path;
  target_path = excluded.target_path;
  state = excluded.state;
  current_size = excluded.current_size;
  last_write_time = excluded.last_write_time;
}

-- `INSERT INTO changes ... ON CONFLICT(rule_id, real_path) DO UPDATE SET ...`
unfoldable pub upsert_change_row : ChangeRow → List ChangeRow → List ChangeRow
unfolding is_change_key update_change
upsert_change_row row [] = row ∷ []
upsert_change_row row (old ∷ rows) =
    if is_change_key row.rule_id row.real_path old
    then update_change row old ∷ rows
    else old ∷ upsert_change_row row rows

-- `DELETE FROM changes WHERE rule_id = ? AND real_path = ?`
unfoldable pub delete_change_row : Text → Text → List ChangeRow → List ChangeRow
unfolding select is_change_key
delete_change_row rule_id real_path = select (λ row. not (is_change_key rule_id real_path row))

-- `DELETE FROM changes WHERE rule_id = ?`
unfoldable pub delete_rule_rows : Text → List ChangeRow → List ChangeRow
unfolding select
delete_rule_rows rule_id = select (λ row. not (same_text row.rule_id rule_id))

-- `DELETE FROM rules WHERE id = ?`, with the cascades of the schema's foreign keys
unfoldable pub cascade_delete_rule : Text → Tables → Tables
unfolding select delete_rule_rows
cascade_delete_rule rule_id t = record t {
  rules = select (λ row. not (same_text row.id rule_id)) t.rules;
  changes = delete_rule_rows rule_id t.changes;
  operations = select (λ row. not (same_text row.rule_id rule_id)) t.operations;
  cleanup_queue = select (λ row. not (same_text row.rule_id rule_id)) t.cleanup_queue;
}
