-- ===== src/Driver/Cache.antt =====
-- The rule cache of driver/PathOverlayFlt/Driver.c: the messages that change it, and the search for the
-- rule of a path.
pub mod Find
pub mod Valid
use path_overlay.Base.{
  ℕ, ◌+◌, Bool, true, false, ◌&&◌, ◌||◌, not, Option, none, some, List, [], ◌∷◌, ◌++◌, length, ltb,
  leb, ◌==◌, if◌then◌else◌,
}
use path_overlay.Wide.{Text, is_empty}
use path_overlay.Service.Request.{protocol_version, max_path_chars}
use path_overlay.Driver.Status
use path_overlay.Driver.Kernel.{RuleEntry, RuleCache, DriverState, Kernel, D}
use path_overlay.Driver.Buffers.{
  Buffer, zeros, null_terminated_length, text_of, copy_null_terminated, trim_trailing_slashes,
  first_char,
}
use path_overlay.Driver.Components.{match_source_path_prefix, same_or_child_path}

abbrev pub max_rule_id_chars : ℕ
max_rule_id_chars = 64

abbrev pub max_driver_rules : ℕ
max_driver_rules = 16

-- `PATHOVERLAY_DRIVER_RULE_MESSAGE`
pub record RuleMessage : Type 0 where
  pub version : ℕ
  pub command : ℕ
  pub enabled : ℕ
  pub service_process_id : ℕ
  pub rule_id : Buffer
  pub source_nt_path : Buffer
  pub source_alias_nt_path : Buffer
  pub store_nt_path : Buffer

abbrev pub no_rules : RuleCache
no_rules = record { service_process_id = 0; rules = [] }

-- `PathOverlayCopyNullTerminated` into an array of the entry, which is zero.
unfoldable pub copy_field : ℕ → Buffer → Buffer
unfolding copy_null_terminated null_terminated_length
copy_field chars source = copy_null_terminated (zeros chars) source (null_terminated_length source)

-- The entry of a message.
unfoldable pub entry_of : RuleMessage → RuleEntry
unfolding copy_field trim_trailing_slashes
entry_of message = record {
  rule_id = copy_field max_rule_id_chars message.rule_id;
  source_nt_path = trim_trailing_slashes (copy_field max_path_chars message.source_nt_path);
  source_alias_nt_path =
      trim_trailing_slashes (copy_field max_path_chars message.source_alias_nt_path);
  store_nt_path = trim_trailing_slashes (copy_field max_path_chars message.store_nt_path);
}

-- `PathOverlaySetRule`
unfoldable pub set_rule : RuleMessage → RuleCache → ℕ × RuleCache
set_rule message cache =
    if message.enabled == 0
    then (Status.success, cache)
    else if first_char message.rule_id == 0
        || (first_char message.source_nt_path == 0 || first_char message.store_nt_path == 0)
    then (Status.invalid_parameter, cache)
    else if leb max_driver_rules (length cache.rules)
    then (Status.insufficient_resources, cache)
    else (
      Status.success,
      record {
        service_process_id = message.service_process_id;
        rules = cache.rules ++ (entry_of message ∷ []);
      },
    )

-- The `switch` of `PathOverlayMessage`, with `PathOverlayClearRule`.
unfoldable pub run_command : RuleMessage → RuleCache → ℕ × RuleCache
unfolding set_rule
run_command message cache =
    if message.command == 1
    then (Status.success, no_rules)
    else if message.command == 2
    then set_rule message cache
    else (Status.invalid_parameter, cache)

-- `PathOverlayMessage`: `none` for a buffer that is missing or too short.
unfoldable pub driver_message : {S : Type 0} → Option RuleMessage → D S ℕ
unfolding run_command
driver_message none s = (Status.invalid_parameter, s)
driver_message (some message) s =
    if not (message.version == protocol_version)
    then (Status.revision_mismatch, s)
    else (let (status, cache) = run_command message s.cache in (status, record s { cache = cache }))

-- `PathOverlayIsServiceProcess`
unfoldable pub is_service_process : RuleCache → ℕ → Bool
is_service_process cache process_id =
    ltb 0 (length cache.rules) && process_id == cache.service_process_id

-- A rule, and the text of `MatchedSourceNtPath`.
abbrev pub Matched : Type 0
Matched = RuleEntry × Text

module _ {S : Type 0} (kernel : Kernel S) where
  -- A round of the loop of `PathOverlayFindSourceRule`: `PathOverlayMatchSourcePathPrefix` on the entry.
  unfoldable pub match_entry : Text → RuleEntry → Option ℕ
  match_entry path entry =
      match_source_path_prefix kernel (text_of entry.source_nt_path)
        (text_of entry.source_alias_nt_path) path

  -- The loop of `PathOverlayFindSourceRule`, with the rule found so far: the outer `none` is an early
  -- `return FALSE`.
  unfoldable pub find_source_loop :
      Text → List RuleEntry → Option (RuleEntry × ℕ) → Option (RuleEntry × ℕ)
  find_source_loop path [] found = found
  find_source_loop path (entry ∷ rest) found = elim (match_entry path entry) [
    | none ↦ find_source_loop path rest found
    | some prefix ↦ elim found [
      | some _ ↦ none
      | none ↦ find_source_loop path rest (some (entry, prefix))
    ]
  ]

  -- The loop of `PathOverlayFindStoreRule`.
  unfoldable pub find_store_loop : Text → List RuleEntry → Option RuleEntry → Option RuleEntry
  find_store_loop path [] found = found
  find_store_loop path (entry ∷ rest) found =
      if same_or_child_path kernel (text_of entry.store_nt_path) path
      then elim found [ some _ ↦ none | none ↦ find_store_loop path rest (some entry) ]
      else find_store_loop path rest found

  -- `PathOverlayIsStorePathLocked`
  unfoldable pub is_store_path : Text → List RuleEntry → Bool
  is_store_path path [] = false
  is_store_path path (entry ∷ rest) =
      same_or_child_path kernel (text_of entry.store_nt_path) path || is_store_path path rest

  -- The text of `MatchedSourceNtPath`: the prefix of the path, cut to the array.
  unfoldable pub matched_source : Text → ℕ → Text
  unfolding copy_null_terminated text_of
  matched_source path prefix = text_of (copy_null_terminated (zeros max_path_chars) path prefix)

  -- `PathOverlayFindSourceRule`
  unfoldable pub find_source_rule : RuleCache → Text → Option Matched
  find_source_rule cache path = elim (find_source_loop path cache.rules none) [
    | none ↦ none
    | some (entry, prefix) ↦ some (entry, matched_source path prefix)
  ]

  -- `PathOverlayFindSourceRuleForPath`
  unfoldable pub find_source_rule_for_path : RuleCache → Text → Option Matched
  find_source_rule_for_path cache path =
      if length cache.rules == 0 || is_store_path path cache.rules
      then none
      else find_source_rule cache path

  -- `PathOverlayFindSourceOrStoreRuleForPath`: the rule, and whether the path is one of its source; if
  -- not, it is one of its store.
  unfoldable pub find_source_or_store_rule : RuleCache → Text → Option (RuleEntry × Bool)
  find_source_or_store_rule cache path =
      if length cache.rules == 0 then none else elim (find_source_rule cache path) [
        | some (entry, _) ↦ some (entry, true)
        | none ↦ elim (find_store_loop path cache.rules none) [
          | some entry ↦ some (entry, false)
          | none ↦ none
        ]
      ]
