-- ===== src/Metadata/RoundTrip.antt =====
-- What common/metadata_store.cpp writes to the table of changes, and what it reads from it.
use path_overlay.Base.{ℕ, ◌≡◌, refl, false, ◌<◌, ◌^◌, some, [], ◌∷◌, arith, if◌then◌else◌}
use path_overlay.Wide.{Text, wide, same_text, is_empty}
use path_overlay.Os.{Os}
use path_overlay.Paths.{normalize_path}
use path_overlay.Metadata.Records.{
  ChangeState, created, modified, deleted, tombstone, renamed, ChangeRecord, change_state_to_string,
  try_parse_change_state,
}
use path_overlay.Metadata.Sql.{Engine}
use path_overlay.Metadata.Store.{stored_text, change_row, change_record, int64_column}

-- `TryParseChangeState` reads what `ChangeStateToString` writes.
pub try_parse_change_state-to_string :
    (state : ChangeState) → try_parse_change_state (change_state_to_string state) ≡ some state
unfolding try_parse_change_state change_state_to_string wide same_text
try_parse_change_state-to_string created = refl
try_parse_change_state-to_string modified = refl
try_parse_change_state-to_string deleted = refl
try_parse_change_state-to_string tombstone = refl
try_parse_change_state-to_string renamed = refl

int64_column-twice : (n : ℕ) → n < 2 ^ 64 → int64_column (int64_column n) ≡ n
int64_column-twice n h = omega arith

module _ (engine : Engine) (os : Os) where
  -- The text is read as it was bound.
  abbrev pub IsKept : Text → Type 0
  IsKept text = stored_text engine text ≡ text

  -- A record whose paths are in normal form, whose texts are read as they were bound, and whose sizes fit 64 bits,
  -- is read back from its row.
  pub change_record-change_row :
      (rule_id : Text) (r : ChangeRecord)
      → normalize_path os r.real_path ≡ r.real_path
      → normalize_path os r.shadow_path ≡ r.shadow_path
      → (is_empty r.target_path ≡ false → normalize_path os r.target_path ≡ r.target_path)
      → IsKept r.real_path
      → IsKept r.shadow_path
      → IsKept r.target_path
      → IsKept r.original_last_write_time
      → IsKept r.last_write_time
      → r.original_size < 2 ^ 64
      → r.current_size < 2 ^ 64
      → change_record (change_row engine os rule_id r) ≡ r
  unfolding change_record change_row
  change_record-change_row rule_id r real shadow target kept_real kept_shadow kept_target
        kept_original_time kept_time original current =
      rw
        (
          real,
          shadow,
          target_column r.target_path target,
          kept_real,
          kept_shadow,
          kept_target,
          kept_original_time,
          kept_time,
          try_parse_change_state-to_string r.state,
          int64_column-twice r.original_size original,
          int64_column-twice r.current_size current,
        )
        refl
    where
      target_column :
          (t : Text)
          → (is_empty t ≡ false → normalize_path os t ≡ t)
          → (if is_empty t then [] else normalize_path os t) ≡ t
      target_column [] h = refl
      target_column (c ∷ t) h = h refl
