-- ===== src/Metadata/Store/Rules.antt =====
-- The methods of `MetadataStore` on the rules.
use path_overlay.Base.{Bool, some, List}
use path_overlay.Wide.{Text, wide}
use path_overlay.Os.{Os}
use path_overlay.Paths.{normalize_path}
use path_overlay.Rules.{OverlayRule, store_root}
use path_overlay.Action.{⊤}
use path_overlay.Metadata.Sql
use path_overlay.Metadata.Statement.{Db, stored_text, run_statement, run_query, run_query_one}

module _ (engine : Sql.Engine) where
  -- `UpsertRule`
  unfoldable pub upsert_rule : Os → OverlayRule → Db ⊤
  upsert_rule os rule =
      let stored : OverlayRule = record rule {
        name = stored_text engine rule.name;
        source = stored_text engine (normalize_path os rule.source);
        store = stored_text engine (store_root os rule);
      } in
      run_statement engine Sql.upsert_into_rules (wide "failed to prepare rule upsert")
        (wide "failed to upsert rule")
        (λ t. some (record t { rules = Sql.upsert_rule_row stored t.rules }))

  -- `SetRuleEnabled`
  unfoldable pub set_rule_enabled : Text → Bool → Db ⊤
  set_rule_enabled rule_id enabled =
      run_statement engine Sql.update_rules_enabled (wide "failed to prepare rule enable update")
        (wide "failed to update rule enabled state")
        (λ t. some (record t {
          rules =
              Sql.update_id (λ (r : OverlayRule). r.id) rule_id
                (λ (r : OverlayRule). record r { enabled = enabled }) t.rules;
        }))

  -- `GetRule`
  unfoldable pub get_rule : Text → Db OverlayRule
  get_rule rule_id =
      run_query_one engine Sql.select_rule (wide "failed to prepare rule query")
        (wide "failed to query rule") (wide "rule was not found")
        (λ t. Sql.find_id (λ (r : OverlayRule). r.id) rule_id t.rules)

  -- `ListRules`
  unfoldable pub list_rules : Db (List OverlayRule)
  list_rules =
      run_query engine Sql.select_rules (wide "failed to prepare rule list")
        (wide "failed to list rules")
        (λ t. Sql.order_by (λ (a b : OverlayRule). engine.collate a.id b.id) t.rules)

  -- `DeleteRule`
  unfoldable pub delete_rule : Text → Db ⊤
  delete_rule rule_id =
      run_statement engine Sql.delete_from_rules (wide "failed to prepare rule delete")
        (wide "failed to delete rule") (λ t. some (Sql.cascade_delete_rule rule_id t))
