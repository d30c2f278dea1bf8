-- ===== src/Metadata/Records.antt =====
-- The records of common/metadata_store.h, and the text of a change state.
use path_overlay.Base.{ℕ, Bool, Option, none, some, if◌then◌else◌}
use path_overlay.Wide.{Text, wide, same_text}

pub data ChangeState : Type 0 where
  created modified deleted tombstone renamed : ChangeState

pub record ChangeRecord : Type 0 where
  pub real_path : Text
  pub shadow_path : Text
  pub target_path : Text
  pub state : ChangeState
  pub original_exists : Bool
  pub original_size : ℕ
  pub original_last_write_time : Text
  pub current_size : ℕ
  pub last_write_time : Text

pub record CommitRecord : Type 0 where
  pub id : Text
  pub rule_id : Text
  pub start_time : Text
  pub status : Text
  pub operations : Text
  pub backup_path : Text
  pub error : Text

pub record OperationRecord : Type 0 where
  pub id : Text
  pub rule_id : Text
  pub action : Text
  pub status : Text
  pub phase : Text
  pub started_at : Text
  pub updated_at : Text
  pub finished_at : Text
  pub backup_root : Text
  pub error : Text
  pub rule_was_enabled : Bool

pub record CleanupRecord : Type 0 where
  pub id : Text
  pub rule_id : Text
  pub path : Text
  pub status : Text
  pub attempts : ℕ
  pub last_error : Text
  pub created_at : Text
  pub updated_at : Text

-- `ChangeStateToString`
unfoldable pub change_state_to_string : ChangeState → Text
unfolding wide
change_state_to_string created = wide "created"
change_state_to_string modified = wide "modified"
change_state_to_string deleted = wide "deleted"
change_state_to_string tombstone = wide "tombstone"
change_state_to_string renamed = wide "renamed"

-- `TryParseChangeState`; `none` where it returns false and leaves the state alone.
unfoldable pub try_parse_change_state : Text → Option ChangeState
unfolding wide same_text
try_parse_change_state value =
    if same_text value (wide "created")
    then some created
    else if same_text value (wide "modified")
    then some modified
    else if same_text value (wide "deleted")
    then some deleted
    else if same_text value (wide "tombstone")
    then some tombstone
    else if same_text value (wide "renamed")
    then some renamed
    else none
