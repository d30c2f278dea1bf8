-- ===== src/Metadata/Statement.antt =====
-- How the methods of `MetadataStore` in common/metadata_store.cpp run a statement, and the row of a
-- change.
use path_overlay.Base.{ℕ, ◌%◌, ◌^◌, Bool, Option, none, some}
use path_overlay.Base.{List, [], ◌∷◌, ◌++◌, if◌then◌else◌}
use path_overlay.Wide.{Text, wide, same_text, is_empty}
use path_overlay.Os.{Os}
use path_overlay.Paths.{normalize_path}
use path_overlay.Action.{success, failure, ⊤, Action, pure, fail, on_option, ◌>>=◌}
use path_overlay.Metadata.Records.{
  created, ChangeRecord, change_state_to_string, try_parse_change_state,
}
use path_overlay.Metadata.Sql

abbrev pub Db : Type 0 → Type 0
Db = Action Sql.Tables

-- `LastErrorMessage`
unfoldable pub last_error_message : Text → Text → Text
last_error_message prefix errmsg = prefix ++ (wide ": " ++ errmsg)

-- The columns for sizes are `long long`: the casts to it and back keep the 64 bits.
abbrev pub int64_column : ℕ → ℕ
int64_column n = n % 2 ^ 64

-- The conversions of a text that `BindText` binds and of one that `ColumnText` reads.
module _ (engine : Sql.Engine) where
  unfoldable pub wide_to_utf8 : Text → List ℕ
  wide_to_utf8 [] = []
  wide_to_utf8 (ch ∷ value) = engine.wide_char_to_multi_byte (ch ∷ value)

  unfoldable pub utf8_to_wide : List ℕ → Text
  utf8_to_wide [] = []
  utf8_to_wide (byte ∷ value) = engine.multi_byte_to_wide_char (byte ∷ value)

  -- What a column holds of a text: a path need not be read as it was bound, since half of a surrogate pair
  -- is replaced on the way. Identifiers, the times of the logs and the words for a state are ASCII and bound as they are.
  unfoldable pub stored_text : Text → Text
  unfolding wide_to_utf8 utf8_to_wide
  stored_text value = utf8_to_wide (wide_to_utf8 value)

-- The row that `AddOrUpdateChange` binds, and the record that `ListChanges` reads from a row. A state
-- that does not parse leaves the record's initial `kCreated`.
module _ (engine : Sql.Engine) (os : Os) where
  unfoldable pub change_row : Text → ChangeRecord → Sql.ChangeRow
  unfolding change_state_to_string stored_text
  change_row rule_id r = record {
    rule_id = rule_id;
    real_path = stored_text engine (normalize_path os r.real_path);
    shadow_path = stored_text engine (normalize_path os r.shadow_path);
    target_path =
        stored_text engine (if is_empty r.target_path then [] else normalize_path os r.target_path);
    state = change_state_to_string r.state;
    original_exists = r.original_exists;
    original_size = int64_column r.original_size;
    original_last_write_time = stored_text engine r.original_last_write_time;
    current_size = int64_column r.current_size;
    last_write_time = stored_text engine r.last_write_time;
  }

unfoldable pub change_record : Sql.ChangeRow → ChangeRecord
unfolding try_parse_change_state
change_record row = record {
  real_path = row.real_path;
  shadow_path = row.shadow_path;
  target_path = row.target_path;
  state = elim (try_parse_change_state row.state) [ none ↦ created | some state ↦ state ];
  original_exists = row.original_exists;
  original_size = int64_column row.original_size;
  original_last_write_time = row.original_last_write_time;
  current_size = int64_column row.current_size;
  last_write_time = row.last_write_time;
}

-- `ORDER BY started_at, id` and `ORDER BY created_at, id`
abbrev pub before_by : {A : Type 0} → (Text → Text → Bool) → (A → Text) → (A → Text) → A → A → Bool
before_by collate first second a b =
    if same_text (first a) (first b)
    then collate (second a) (second b)
    else collate (first a) (first b)

module _ (engine : Sql.Engine) where
  -- Prepare, bind, step to `SQLITE_DONE`, finalize. The change is `none` where it violates a key.
  unfoldable pub run_statement : Sql.Sql → Text → Text → (Sql.Tables → Option Sql.Tables) → Db ⊤
  run_statement sql prepare_error step_error change t = elim (engine.prepare_fails sql t) [
    | some errmsg ↦ (failure (last_error_message prepare_error errmsg), t)
    | none ↦ elim (engine.step_fails sql t) [
      | some errmsg ↦ (failure (last_error_message step_error errmsg), t)
      | none ↦ elim (change t) [
        | none ↦ (failure (last_error_message step_error (engine.constraint_failed sql)), t)
        | some t' ↦ (success tt, t')
      ]
    ]
  ]

  -- Prepare, bind, and step through the rows.
  unfoldable pub run_query : {A : Type 0} → Sql.Sql → Text → Text → (Sql.Tables → A) → Db A
  run_query sql prepare_error step_error rows t = elim (engine.prepare_fails sql t) [
    | some errmsg ↦ (failure (last_error_message prepare_error errmsg), t)
    | none ↦ elim (engine.step_fails sql t) [
      | some errmsg ↦ (failure (last_error_message step_error errmsg), t)
      | none ↦ (success (rows t), t)
    ]
  ]

  -- A query for one row, with the message for no row.
  unfoldable pub run_query_one :
      {A : Type 0} → Sql.Sql → Text → Text → Text → (Sql.Tables → Option A) → Db A
  unfolding run_query
  run_query_one sql prepare_error step_error not_found row = do
    found ← run_query sql prepare_error step_error row
    on_option found (fail not_found) pure
