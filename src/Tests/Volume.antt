-- ===== src/Tests/Volume.antt =====
-- A volume where every call of the kernel succeeds, and a service that says yes and writes down the
-- commands.
use path_overlay.Base.{
  ℕ, ◌*◌, ◌^◌, ◌≡◌, ◌≢◌, refl, sym, subst, true, false, ◌||◌, none, some, List, [], ◌∷◌, ◌++◌,
  arith,
}
use path_overlay.Base.Lists.{Member, here, there}
use path_overlay.Wide.{Text, is_empty, same_text}
use path_overlay.Driver.Kernel.{RuleEntry, DriverState, Kernel}
use path_overlay.Driver.Buffers.{text_of, zeros, copy_null_terminated, chars_to_copy}
use path_overlay.Driver.Components.{
  match_source_path_prefix, same_or_child_path, match_components, component_matches,
  next_path_component, count_separators, count_component,
}
use path_overlay.Driver.Components.Split.{components, cons_char}
use path_overlay.Driver.Cache.{
  RuleMessage, find_source_loop, find_source_rule_for_path, find_source_or_store_rule,
  find_source_rule, is_store_path, match_entry, matched_source, is_service_process,
}
use path_overlay.Driver.Access.{
  named, CreateCall, file_name, has_write_intent, may_write, is_directory_open,
  has_directory_create_hint, should_pass_through_reparse_point_open,
}
use path_overlay.Driver.Shadow.{built, build_path, build_shadow_path}
use path_overlay.Driver.Create.{source_of}
use path_overlay.Driver.Writes.Prepared.{IsPrepared, KeepsInOverlay}
use path_overlay.Driver.SetInformation.{
  SetInformationCall, disposition_information, is_rename, deletes,
}
use path_overlay.Driver.SetInformation.Accepted.{IsRecorded}
use path_overlay.Driver.Send.{request_of}
use path_overlay.Driver.Send.Sent.{IsInTime}
use path_overlay.Driver.Port.{Registration}
use path_overlay.Driver.Port.Events.{PortEvent, connected, disconnected, received}

abbrev pub volume : Kernel (List ℕ)
volume = record {
  upcase = λ ch. ch;
  equal_unicode_string = same_text;
  compares_equal = same_text;
  allocate_pool = λ bytes s. true;
  at_passive_level = λ s. true;
  create_file = λ path s. 0;
  query_information = λ path size s. (0, size);
  replace_file_object_name = λ path s. 0;
  send_message = λ request s. (
    (0, record { status = 0; path_state = 0; shadow_nt_path = [] }),
    record s { outside = request.command ∷ s.outside },
  );
  format_detail = λ detail. none;
}

-- `\s`, `\b` and `\s\a`
abbrev pub source_path : Text
source_path = 92 ∷ 115 ∷ []

abbrev pub store_path : Text
store_path = 92 ∷ 98 ∷ []

abbrev pub file_path : Text
file_path = 92 ∷ 115 ∷ 92 ∷ 97 ∷ []

abbrev pub entry : RuleEntry
entry = record {
  rule_id = 114 ∷ 0 ∷ [];
  source_nt_path = source_path ++ (0 ∷ []);
  source_alias_nt_path = 0 ∷ [];
  store_nt_path = store_path ++ (0 ∷ []);
}

abbrev pub connected_driver : DriverState (List ℕ)
connected_driver = record {
  filter_handle = true;
  server_port = true;
  client_port = true;
  cache = record { service_process_id = 4; rules = entry ∷ [] };
  outside = [];
}

pub some_component : components source_path ≢ []
unfolding components cons_char
some_component e = cc

-- A store of 519 characters and a path of 32668.
abbrev pub long_store : Text
long_store = zeros 519

abbrev pub long_path : Text
long_path = zeros 32668

abbrev pub open_if : CreateCall
open_if = record {
  requestor = 8;
  normalized_name = named file_path;
  opened_name = named file_path;
  options = 3 * 2 ^ 24;
  file_attributes = 0;
  security_context = none;
  file_object_name = none;
}

abbrev pub Asked : ℕ → DriverState (List ℕ) → Type 0
Asked command s = Member command s.outside

pub asked :
    (known command : ℕ) (s : DriverState (List ℕ))
    → command ≡ known
    → Member known (command ∷ s.outside)
asked known command s e = subst (λ c. Member known (c ∷ s.outside)) (sym e) here

pub copies-IsPrepared : IsPrepared volume entry file_path (Asked 2)
unfolding request_of
copies-IsPrepared = record { accepted = λ s accepted. here; traced = λ request s e m. there m }

pub file_in_rule :
    find_source_rule_for_path volume connected_driver.cache file_path ≡ some (entry, source_path)
unfolding find_source_rule_for_path is_store_path find_source_rule find_source_loop match_entry
    matched_source text_of copy_null_terminated zeros match_source_path_prefix match_components
    component_matches next_path_component count_separators count_component same_or_child_path
    chars_to_copy same_text
file_in_rule = refl

abbrev pub shadow_path : Text
shadow_path = store_path ++ (92 ∷ 97 ∷ [])

pub file_shadow :
    build_shadow_path volume
      (text_of entry.store_nt_path)
      (source_of entry source_path)
      file_path
      connected_driver
    ≡ built shadow_path
unfolding build_shadow_path build_path text_of source_of
file_shadow = refl

pub open_if_writes : has_write_intent open_if ≡ true
unfolding has_write_intent may_write
open_if_writes = refl

pub open_if_file :
    (is_directory_open open_if ≡ false)
    × (has_directory_create_hint open_if ≡ false)
    × (should_pass_through_reparse_point_open open_if ≡ false)
unfolding is_directory_open has_directory_create_hint should_pass_through_reparse_point_open
open_if_file = (refl, refl, refl)

pub below_source : same_text (source_of entry source_path) file_path ≡ false
unfolding source_of same_text
below_source = refl

pub open_if_name : file_name open_if.normalized_name open_if.opened_name ≡ named file_path
unfolding file_name
open_if_name = refl

pub not_service :
    (process_id : ℕ) → process_id ≡ 8 → is_service_process connected_driver.cache process_id ≡ false
unfolding is_service_process
not_service process_id e = rw (e) refl

pub never_passes : KeepsInOverlay volume
unfolding text_of
never_passes request s e = (λ f. cc, omega arith)

-- The open of the shadow.
abbrev pub open_shadow : CreateCall
open_shadow = record open_if {
  normalized_name = named shadow_path;
  opened_name = named shadow_path;
}

pub open_shadow_name :
    file_name open_shadow.normalized_name open_shadow.opened_name ≡ named shadow_path
unfolding file_name
open_shadow_name = refl

pub entry_paths :
    (components (text_of entry.source_nt_path) ≢ [])
    × (is_empty (text_of entry.store_nt_path) ≡ false)
unfolding text_of components cons_char
entry_paths = (λ e. cc, refl)

-- A deletion.
abbrev pub deletion : SetInformationCall
deletion = record {
  requestor = 8;
  normalized_name = named file_path;
  information_class = disposition_information;
  rename_buffer = none;
  delete_file = some true;
  disposition_flags = none;
}

pub deletions-IsRecorded : IsRecorded volume deletion entry true file_path (Asked 3)
unfolding request_of is_rename
deletions-IsRecorded = record {
  deleted = λ text no_rename below s accepted. here;
  renamed = λ from to renames below goal s accepted. cc;
}

pub volume-IsInTime : IsInTime volume
volume-IsInTime request s e = cc

pub file_in_rule_or_store :
    find_source_or_store_rule volume connected_driver.cache file_path ≡ some (entry, true)
unfolding find_source_or_store_rule find_source_rule find_source_loop match_entry matched_source
    text_of copy_null_terminated zeros match_source_path_prefix match_components component_matches
    next_path_component count_separators count_component chars_to_copy same_text
file_in_rule_or_store = refl

pub deletion_asks : (is_rename deletion.information_class || deletes deletion) ≡ true
unfolding is_rename deletes
deletion_asks = refl

-- A driver that is loaded, and the messages of a service.
abbrev pub registration : Registration
registration = record {
  register_filter = 0;
  build_security_descriptor = 0;
  create_communication_port = 0;
  start_filtering = 0;
}

abbrev pub rule_message : RuleMessage
rule_message = record {
  version = 2;
  command = 2;
  enabled = 1;
  service_process_id = 4;
  rule_id = 114 ∷ 0 ∷ [];
  source_nt_path = source_path ++ (92 ∷ 0 ∷ []);
  source_alias_nt_path = 0 ∷ [];
  store_nt_path = store_path ++ (0 ∷ []);
}

abbrev pub port_events : List PortEvent
port_events = connected ∷ received (some rule_message) ∷ disconnected ∷ received none ∷ []
