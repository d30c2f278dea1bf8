-- ===== src/Service/Push.antt =====
-- How service/PathOverlaySvc/main.cpp brings the rules to the driver: `PushDriverRule`, `PushDriverRules`,
-- `SyncDriverRuleCache`.
pub mod Messages
pub mod Atomic
use path_overlay.Base.{
  ℕ, zero, suc, ◌+◌, ◌-◌, ◌/◌, ◌%◌, Bool, true, false, ◌&&◌, ◌||◌, not, Option, none, some, List,
  [], ◌∷◌, ◌++◌, length, leb, ltb, ◌==◌, if◌then◌else◌,
}
use path_overlay.Base.Lists.{select}
use path_overlay.Wide.{Text, wide, is_empty}
use path_overlay.Os.{Os}
use path_overlay.Paths.{normalize_path}
use path_overlay.Rules.{OverlayRule, is_ok, validate_overlay_rule_set, map_real_path_to_shadow_path}
use path_overlay.Action.{
  OperationResult, success, failure, Action, pure, fail, gets, attempt, ignore, on_result, fail_if,
  ◌>>=◌, ◌>>◌, ⊤,
}
use path_overlay.Metadata.Sql.{Engine, Tables}
use path_overlay.Metadata.Store.{list_rules}
use path_overlay.Service.NtPath.{
  Devices, trim_trailing_backslashes, normalize_absolute_dos_path, device_path, dos_path_to_nt_path,
}
use path_overlay.Service.Request.{protocol_version, max_path_chars}
use path_overlay.Driver.Status.{nt_success}
use path_overlay.Driver.Buffers.{Buffer, zeros}
use path_overlay.Driver.Cache.{max_rule_id_chars, max_driver_rules, RuleMessage}

-- The port of the service to the driver. `filter_send_message` is `FilterSendMessage`: the HRESULT, the status in
-- the response if there is a whole one, and the state after it; `get_short_path_name` is `GetShortPathNameW`,
-- `none` where it fails.
pub record DriverPort (S : Type 0) : Type 0 where
  pub is_connected : S → Bool
  pub filter_send_message : RuleMessage → S → (ℕ × Option ℕ) × S
  pub get_short_path_name : Text → Option Text

-- A number below `16 ^ fuel` in hexadecimal digits.
unfoldable pub hexadecimal_from : ℕ → ℕ → Text → Text
hexadecimal_from zero n digits = digits
hexadecimal_from (suc fuel) n digits =
    let digit = n % 16 in
    let rest =
      hexadecimal_from fuel (n / 16)
        ((if ltb digit 10 then digit + b'0' else digit - 10 + b'a') ∷ digits) in
    if n == 0 && not (is_empty digits) then digits else rest

-- `std::hex` of a 32-bit number
unfoldable pub hexadecimal : ℕ → Text
unfolding hexadecimal_from
hexadecimal n = hexadecimal_from 8 n []

-- `CopyProtocolPath` into an array of the message, if the text and a zero fit.
unfoldable pub protocol_array : Text → ℕ → Option Buffer
protocol_array source destination_chars =
    if leb destination_chars (length source)
    then none
    else some (source ++ zeros (destination_chars - length source))

-- The message that sets a rule.
abbrev pub set_message : ℕ → Buffer → Buffer → Buffer → Buffer → RuleMessage
set_message process_id id source alias store = record {
  version = protocol_version;
  command = 2;
  enabled = 1;
  service_process_id = process_id;
  rule_id = id;
  source_nt_path = source;
  source_alias_nt_path = alias;
  store_nt_path = store;
}

module _ (os : Os) (devices : Devices) {S : Type 0} (port : DriverPort S) where
  -- What becomes of a message, from the HRESULT and the status in the response.
  unfoldable pub message_result : ℕ × Option ℕ → OperationResult ⊤
  message_result (result, response) =
      if not (nt_success result)
      then failure (wide "FilterSendMessage failed, hr=0x" ++ hexadecimal result)
      else elim response [
        | none ↦ success tt
        | some status ↦
            if not (nt_success status)
            then failure (wide "driver rejected rule, status=0x" ++ hexadecimal status)
            else success tt
      ]

  -- `SendDriverRuleMessage`
  unfoldable pub send_driver_rule_message : RuleMessage → Action S ⊤
  unfolding message_result
  send_driver_rule_message message s =
      if not (port.is_connected s)
      then (failure (wide "driver not connected"), s)
      else (let (answer, t) = port.filter_send_message message s in (message_result answer, t))

  abbrev pub clear_message : RuleMessage
  clear_message = record {
    version = protocol_version;
    command = 1;
    enabled = 0;
    service_process_id = os.process_id;
    rule_id = zeros max_rule_id_chars;
    source_nt_path = zeros max_path_chars;
    source_alias_nt_path = zeros max_path_chars;
    store_nt_path = zeros max_path_chars;
  }

  -- `ClearDriverRule`
  unfoldable pub clear_driver_rule : Action S ⊤
  clear_driver_rule = send_driver_rule_message clear_message

  -- `GetShortDosPathIfAvailable`; the empty text stands for none.
  unfoldable pub get_short_dos_path_if_available : Text → Text
  get_short_dos_path_if_available dos_path =
      let normalized = normalize_path os dos_path in
      if is_empty normalized then [] else elim (port.get_short_path_name normalized) [
        | none ↦ []
        | some short ↦
            let short_path = trim_trailing_backslashes short in
            if os.wcsicmp short_path normalized then [] else short_path
      ]

  -- `DosPathToNtPathPreservingAlias`
  unfoldable pub dos_path_to_nt_path_preserving_alias : Text → Text
  dos_path_to_nt_path_preserving_alias dos_path =
      device_path os devices (normalize_absolute_dos_path os devices dos_path false)

  -- `sourceAliasNtPath` of `PushDriverRule`
  unfoldable pub source_alias : Text → Text → Text
  unfolding get_short_dos_path_if_available dos_path_to_nt_path_preserving_alias
  source_alias source source_nt_path =
      let alias_path = get_short_dos_path_if_available source in
      let alias_nt_path = dos_path_to_nt_path_preserving_alias alias_path in
      if is_empty alias_path || os.wcsicmp alias_nt_path source_nt_path then [] else alias_nt_path

  -- The message of `PushDriverRule`, from the paths on.
  unfoldable pub message_of_paths : Text → Text → Text → Text → Option RuleMessage
  unfolding protocol_array
  message_of_paths rule_id source_nt_path alias_nt_path store_nt_path =
      elim (protocol_array rule_id max_rule_id_chars) [
        | none ↦ none
        | some id ↦ elim (protocol_array source_nt_path max_path_chars) [
          | none ↦ none
          | some source ↦ elim (protocol_array alias_nt_path max_path_chars) [
            | none ↦ none
            | some alias ↦ elim (protocol_array store_nt_path max_path_chars) [
              | none ↦ none
              | some store ↦ some (set_message os.process_id id source alias store)
            ]
          ]
        ]
      ]

  -- The message of `PushDriverRule` for an enabled rule.
  unfoldable pub rule_message : os.Fs → OverlayRule → OperationResult RuleMessage
  unfolding source_alias message_of_paths
  rule_message fs rule = elim (map_real_path_to_shadow_path os fs rule rule.source) [
    | none ↦ failure (wide "failed to map source path to shadow root")
    | some shadow_source ↦
        let source_nt_path = dos_path_to_nt_path os devices rule.source in
        let shadow_source_nt_path = dos_path_to_nt_path os devices shadow_source in
        if is_empty source_nt_path || is_empty shadow_source_nt_path
        then failure (wide "failed to convert rule paths to NT device paths")
        else elim (message_of_paths rule.id source_nt_path (source_alias rule.source source_nt_path)
            shadow_source_nt_path) [
              | none ↦ failure (wide "rule path is too long for driver protocol")
              | some message ↦ success message
            ]
  ]

  -- The end of `PushDriverRule`, with the message, if there is one.
  unfoldable pub push_message : OperationResult RuleMessage → Action S ⊤
  push_message (failure message) = fail message
  push_message (success message) = send_driver_rule_message message

  -- `PushDriverRule`
  unfoldable pub push_driver_rule : os.Fs → OverlayRule → Action S ⊤
  unfolding rule_message push_message
  push_driver_rule fs rule =
      if not rule.enabled then pure tt else push_message (rule_message fs rule)

  -- `ClearDriverRule(nullptr); return false;`
  unfoldable pub clear_and_fail : Text → Action S ⊤
  unfolding clear_driver_rule
  clear_and_fail message = ignore clear_driver_rule >> fail message

  -- The loop of `PushDriverRules` that validates the rules.
  unfoldable pub validate_rules : os.Fs → List OverlayRule → List OverlayRule → Option Text
  validate_rules fs validated [] = none
  validate_rules fs validated (rule ∷ rules) =
      let later = validate_rules fs (validated ++ (rule ∷ [])) rules in
      let validation = validate_overlay_rule_set os fs validated rule in
      if not (is_ok validation)
      then some (wide "enabled rule set is invalid: " ++ validation.message)
      else later

  -- The loop of `PushDriverRules` that pushes them.
  unfoldable pub push_rules : os.Fs → List OverlayRule → Action S ⊤
  unfolding push_driver_rule clear_and_fail
  push_rules fs [] = pure tt
  push_rules fs (rule ∷ rules) = do
    result ← attempt (push_driver_rule fs rule)
    on_result result (λ _. push_rules fs rules) (λ message. clear_and_fail message)

  -- `PushDriverRules` behind the first message, with the enabled rules.
  unfoldable pub push_enabled_rules : os.Fs → List OverlayRule → Action S ⊤
  unfolding validate_rules push_rules
  push_enabled_rules fs enabled_rules =
      if ltb max_driver_rules (length enabled_rules)
      then clear_and_fail (wide "too many enabled rules for driver protocol")
      else elim (validate_rules fs [] enabled_rules) [
        | some message ↦ clear_and_fail message
        | none ↦ push_rules fs enabled_rules
      ]

  -- `PushDriverRules`
  unfoldable pub push_driver_rules : os.Fs → List OverlayRule → Action S ⊤
  unfolding push_enabled_rules
  push_driver_rules fs rules =
      clear_driver_rule
      >> push_enabled_rules fs (select (λ (rule : OverlayRule). rule.enabled) rules)

  -- `SyncDriverRuleCache`, without its lines in the log.
  unfoldable pub sync_driver_rule_cache : Engine → os.Fs → Tables → S → S
  unfolding push_driver_rules
  sync_driver_rule_cache engine fs t s =
      if not (port.is_connected s) then s else elim (list_rules engine t).0 [
        | failure _ ↦ (clear_driver_rule s).1
        | success rules ↦ (push_driver_rules fs rules s).1
      ]
