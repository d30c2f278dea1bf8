-- ===== src/Rules.antt =====
-- Overlay rules: common/path_overlay_common.h, and the validation and mapping functions of
-- common/path_overlay_common.cpp.
pub mod Shadow
pub mod Disjoint
pub mod Mapped
use path_overlay.Base.{ℕ, zero, suc, Bool, true, false, ◌||◌, not, Option, none, some}
use path_overlay.Base.{List, [], ◌∷◌, ◌++◌, length, drop, ◌==◌, if◌then◌else◌}
use path_overlay.Wide.{Text, wide, backslash, same_text, is_empty}
use path_overlay.Os.{Os, Attributes}
use path_overlay.Paths.{
  is_slash, is_unc_path, join_path, path_without_drive_colon, to_lower, is_drive_root_path,
  normalize_path, same_or_child_path, default_store_root,
}

pub data RuleValidationCode : Type 0 where
  ok : RuleValidationCode
  empty_path : RuleValidationCode
  unc_path_unsupported : RuleValidationCode
  drive_root_unsupported : RuleValidationCode
  source_does_not_exist : RuleValidationCode
  source_is_not_directory : RuleValidationCode
  source_is_reparse_point : RuleValidationCode
  store_is_not_directory : RuleValidationCode
  source_store_overlap : RuleValidationCode
  rule_overlap : RuleValidationCode
  real_path_outside_source : RuleValidationCode

pub record RuleValidationResult : Type 0 where
  pub code : RuleValidationCode
  pub message : Text

-- `RuleValidationResult::ok`
abbrev pub is_ok : RuleValidationResult → Bool
is_ok result = elim result.code [ ok ↦ true | _ ↦ false ]

pub record OverlayRule : Type 0 where
  pub id : Text
  pub name : Text
  pub enabled : Bool
  pub source : Text
  pub store : Text

-- `Error`, and the result that no check refuses.
abbrev pub validation_error : RuleValidationCode → Text → RuleValidationResult
validation_error code message = record { code = code; message = message }

abbrev pub valid : RuleValidationResult
valid = record { code = ok; message = [] }

module _ (os : Os) where
  -- `NormalizePath(rule.store.empty() ? DefaultStoreRoot() : rule.store)`
  unfoldable pub store_root : OverlayRule → Text
  store_root rule =
      normalize_path os (if is_empty rule.store then default_store_root os else rule.store)

  -- The checks of `ValidateOverlayRule` that look at the paths alone.
  unfoldable pub validate_paths : Text → Text → RuleValidationResult
  validate_paths source store =
      if is_empty source || is_empty store
      then validation_error empty_path (wide "source and store must not be empty")
      else if is_unc_path source || is_unc_path store
      then validation_error unc_path_unsupported (wide "UNC paths are not supported in MVP")
      else if is_drive_root_path os source
      then validation_error drive_root_unsupported
          (wide "drive root source is not supported in MVP")
      else if same_or_child_path os source store || same_or_child_path os store source
      then validation_error source_store_overlap
          (wide "source and store must not contain each other")
      else valid

  -- The checks of `ValidateOverlayRule` on the attributes of the source.
  unfoldable pub validate_source_attributes : Option Attributes → RuleValidationResult
  validate_source_attributes none =
      validation_error source_does_not_exist (wide "source path does not exist")
  validate_source_attributes (some attributes) =
      if not attributes.directory
      then validation_error source_is_not_directory (wide "source path must be a directory")
      else if attributes.reparse_point
      then validation_error source_is_reparse_point
          (wide "source reparse points are not supported in MVP")
      else valid

  -- The check of `ValidateOverlayRule` on the attributes of the store.
  unfoldable pub validate_store_attributes : Option Attributes → RuleValidationResult
  validate_store_attributes none = valid
  validate_store_attributes (some attributes) =
      if not attributes.directory
      then validation_error store_is_not_directory (wide "store path must be a directory")
      else valid

  -- `ValidateOverlayRule`
  unfoldable pub validate_overlay_rule : os.Fs → OverlayRule → RuleValidationResult
  validate_overlay_rule fs rule =
      let source = normalize_path os rule.source in
      let store = store_root rule in
      let on_paths = validate_paths source store in
      let on_source = validate_source_attributes (os.get_file_attributes fs source) in
      let on_store = validate_store_attributes (os.get_file_attributes fs store) in
      if not (is_ok on_paths)
      then on_paths
      else if not (is_ok on_source)
      then on_source
      else on_store

  -- The two comparisons of `ValidateOverlayRuleSet` for one other rule.
  unfoldable pub validate_pair : OverlayRule → OverlayRule → RuleValidationResult
  validate_pair existing candidate =
      let candidate_source = normalize_path os candidate.source in
      let candidate_store = store_root candidate in
      let existing_source = normalize_path os existing.source in
      let existing_store = store_root existing in
      if same_or_child_path os existing_source candidate_source
        || same_or_child_path os candidate_source existing_source
      then validation_error rule_overlap (wide "rule sources must not overlap")
      else if same_or_child_path os existing_source candidate_store
          || (same_or_child_path os candidate_store existing_source
              || (same_or_child_path os candidate_source existing_store
                  || same_or_child_path os existing_store candidate_source))
      then validation_error source_store_overlap
          (wide "rule sources and stores must not contain each other")
      else valid

  -- The loop of `ValidateOverlayRuleSet` over the existing rules.
  unfoldable pub validate_against : os.Fs → OverlayRule → List OverlayRule → RuleValidationResult
  validate_against fs candidate [] = valid
  validate_against fs candidate (existing ∷ rest) =
      let others = validate_against fs candidate rest in
      let existing_result = validate_overlay_rule fs existing in
      let pair_result = validate_pair existing candidate in
      if same_text existing.id candidate.id
      then others
      else if not (is_ok existing_result)
      then validation_error existing_result.code (
          wide "existing rule '"
          ++ (existing.id ++ (wide "' is invalid: " ++ existing_result.message)))
      else if not (is_ok pair_result)
      then pair_result
      else others

  -- `ValidateOverlayRuleSet`
  unfoldable pub validate_overlay_rule_set :
      os.Fs → List OverlayRule → OverlayRule → RuleValidationResult
  validate_overlay_rule_set fs existing_rules candidate =
      let candidate_result = validate_overlay_rule fs candidate in
      if not (is_ok candidate_result)
      then candidate_result
      else validate_against fs candidate existing_rules

  -- `ValidateRealPathInRule`
  unfoldable pub validate_real_path_in_rule : os.Fs → OverlayRule → Text → RuleValidationResult
  validate_real_path_in_rule fs rule real_path =
      let rule_result = validate_overlay_rule fs rule in
      if not (is_ok rule_result)
      then rule_result
      else if not
          (same_or_child_path os (normalize_path os rule.source) (normalize_path os real_path))
      then validation_error real_path_outside_source (wide "real path is outside source")
      else valid

  -- The path that `MapRealPathToShadowPath` returns.
  unfoldable pub shadow_path : OverlayRule → Text → Text
  shadow_path rule real_path =
      join_path (join_path (store_root rule) (wide "drive"))
        (path_without_drive_colon (normalize_path os real_path))

  -- `MapRealPathToShadowPath`
  unfoldable pub map_real_path_to_shadow_path : os.Fs → OverlayRule → Text → Option Text
  map_real_path_to_shadow_path fs rule real_path =
      if is_ok (validate_real_path_in_rule fs rule real_path)
      then some (shadow_path rule real_path)
      else none

  -- `IsReparsePointPath`
  unfoldable pub is_reparse_point_path : os.Fs → Text → Bool
  is_reparse_point_path fs path = elim (os.get_file_attributes fs (normalize_path os path)) [
    | none ↦ false
    | some attributes ↦ attributes.reparse_point
  ]

  -- `path.find(L'\\', offset)`: the component up to the next backslash, and what stands behind it.
  unfoldable pub next_component : Text → Text × Option Text
  next_component [] = ([], none)
  next_component (ch ∷ rest) =
      let (component, after) = next_component rest in
      if ch == backslash then ([], some rest) else (ch ∷ component, after)

  -- The loop of `FindFirstReparsePointInRulePath`, on the part of the path from `offset` on. Each
  -- round consumes a code unit at least, so the length is enough fuel.
  unfoldable pub find_reparse_loop : os.Fs → ℕ → Text → Text → Option Text
  find_reparse_loop fs zero cursor rest = none
  find_reparse_loop fs (suc fuel) cursor [] = none
  find_reparse_loop fs (suc fuel) cursor (ch ∷ rest) =
      let skipped = find_reparse_loop fs fuel cursor rest in
      let (component, next) = next_component (ch ∷ rest) in
      let child = join_path cursor component in
      let deeper : Option Text = elim next [
        | none ↦ none
        | some after ↦ find_reparse_loop fs fuel child after
      ] in
      if is_slash ch then skipped else if is_reparse_point_path fs child then some child else deeper

  -- `FindFirstReparsePointInRulePath`
  unfoldable pub find_first_reparse_point_in_rule_path : os.Fs → OverlayRule → Text → Option Text
  find_first_reparse_point_in_rule_path fs rule real_path =
      let source = normalize_path os rule.source in
      let path = normalize_path os real_path in
      let rest = drop (length source) path in
      if not (same_or_child_path os source path)
        || same_text (to_lower os source) (to_lower os path)
      then none
      else find_reparse_loop fs (suc (length rest)) source rest
