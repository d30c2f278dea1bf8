-- ===== src/Metadata/Store.antt =====
-- The methods of `MetadataStore`, in common/metadata_store.cpp.
pub mod Rules
pub mod Changes
pub mod Logs
unfoldable pub use path_overlay.Metadata.Statement.{
  Db, wide_to_utf8, utf8_to_wide, stored_text, last_error_message, int64_column, change_row,
  change_record, before_by, run_statement, run_query, run_query_one,
}
unfoldable pub use Rules.{upsert_rule, set_rule_enabled, get_rule, list_rules, delete_rule}
unfoldable pub use Changes.{
  add_or_update_change, list_changes, delete_change, delete_changes_for_rule,
}
unfoldable pub use Logs.{
  add_commit_record, get_commit_record, add_operation_record, update_operation_record,
  list_operations, add_cleanup_record, update_cleanup_record, list_cleanup_records,
}
