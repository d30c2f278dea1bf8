-- ===== src/Driver/SetInformation.antt =====
-- `PathOverlayPreSetInformation` of driver/PathOverlayFlt/Driver.c: renames and deletions.
pub mod Paths
pub mod Accepted
pub mod Recorded
use path_overlay.Base.{
  ℕ, Bool, true, false, ◌&&◌, ◌||◌, not, Option, none, some, ◌==◌, if◌then◌else◌,
}
use path_overlay.Wide.{Text, same_text}
use path_overlay.Service.Request.{query_path, record_delete_command, record_rename_command}
use path_overlay.Driver.Status
use path_overlay.Driver.Status.{nt_success}
use path_overlay.Driver.Kernel.{RuleEntry, DriverState, Kernel, D, ◌>>=◌, ◌>>◌, pure, reads}
use path_overlay.Driver.Buffers.{text_of}
use path_overlay.Driver.Cache.{is_service_process, find_source_or_store_rule}
use path_overlay.Driver.Access.{NameResult, named, unnamed, has_flag}
use path_overlay.Driver.Send.{send_service_request}
use path_overlay.Driver.Shadow.{Built, built, refused, overran, build_real_path_from_shadow}
use path_overlay.Driver.Create.{
  Preop, success_no_callback, complete, memory_overrun, passthrough_state,
}

-- The classes of the information that the callback looks at.
pub data InformationClass : Type 0 where
  rename_information : InformationClass
  rename_information_ex : InformationClass
  rename_information_bypass_access_check : InformationClass
  rename_information_ex_bypass_access_check : InformationClass
  disposition_information : InformationClass
  disposition_information_ex : InformationClass
  other_information : InformationClass

-- `FILE_RENAME_INFORMATION`, with the answer of `FltGetDestinationFileNameInformation` on it.
pub record RenameInformation : Type 0 where
  pub file_name_length : ℕ
  pub destination_name : NameResult

-- `Data->Iopb->Parameters.SetFileInformation`; the buffer is read by its class, and `none` is `NULL`.
pub record SetInformationCall : Type 0 where
  pub requestor : ℕ
  pub normalized_name : NameResult
  pub information_class : InformationClass
  pub rename_buffer : Option RenameInformation
  pub delete_file : Option Bool
  pub disposition_flags : Option ℕ

-- `FILE_DISPOSITION_DELETE`
abbrev pub disposition_delete : ℕ
disposition_delete = 1

unfoldable pub is_rename : InformationClass → Bool
is_rename rename_information = true
is_rename rename_information_ex = true
is_rename rename_information_bypass_access_check = true
is_rename rename_information_ex_bypass_access_check = true
is_rename _ = false

-- The call asks for a deletion.
unfoldable pub deletes : SetInformationCall → Bool
deletes call = elim call.information_class [
  | disposition_information ↦ elim call.delete_file [ none ↦ false | some delete ↦ delete ]
  | disposition_information_ex ↦ elim call.disposition_flags [
    | none ↦ false
    | some flags ↦ has_flag flags disposition_delete
  ]
  | _ ↦ false
]

module _ {S : Type 0} (kernel : Kernel S) where
  -- The path below the source that a path of the rule stands for.
  unfoldable pub real_path_of : RuleEntry → Bool → Text → DriverState S → Built
  real_path_of rule source_path path s =
      if source_path
      then built path
      else build_real_path_from_shadow kernel (text_of rule.source_nt_path)
          (text_of rule.store_nt_path) path s

  -- The service says that the call is not for the overlay.
  unfoldable pub is_passed : RuleEntry → Text → D S Bool
  is_passed rule path = do
    (status, reply) ← send_service_request kernel query_path rule.rule_id path none
    pure (nt_success status && reply.path_state == passthrough_state)

  -- The end of a rename, with both paths below the source.
  unfoldable pub send_rename : RuleEntry → Text → Text → D S Preop
  unfolding is_passed
  send_rename rule source target = do
    source_passed ← is_passed rule source
    if source_passed then pure success_no_callback else (do
      target_passed ← is_passed rule target
      if target_passed then pure success_no_callback else (do
        (status, _) ←
            send_service_request kernel record_rename_command rule.rule_id source (some target)
        pure (complete status 0)))

  -- A rename in one rule: both paths below the source, and the rest.
  unfoldable pub rename_both : RuleEntry → Bool → Text → Bool → Text → D S Preop
  unfolding real_path_of send_rename
  rename_both rule source_path path target_source_path destination = do
    source ← reads (real_path_of rule source_path path)
    elim source [
      | refused status ↦ pure (complete status 0)
      | overran ↦ pure memory_overrun
      | built source' ↦ (do
        target ← reads (real_path_of rule target_source_path destination)
        elim target [
          | refused status ↦ pure (complete status 0)
          | overran ↦ pure memory_overrun
          | built target' ↦ send_rename rule source' target'
        ])
    ]

  -- A rename to a path, with the rule of that path.
  unfoldable pub rename_found :
      RuleEntry → Bool → Text → Text → Option (RuleEntry × Bool) → D S Preop
  unfolding rename_both
  rename_found rule source_path path destination none = pure (complete Status.not_supported 0)
  rename_found rule source_path path destination (some (target_rule, target_source_path)) =
      if not (same_text rule.rule_id target_rule.rule_id)
      then pure (complete Status.not_supported 0)
      else rename_both rule source_path path target_source_path destination

  -- The part for a rename, from the name of its target on.
  unfoldable pub rename_to : RuleEntry → Bool → Text → Text → D S Preop
  unfolding rename_found
  rename_to rule source_path path destination = do
    found ← reads (λ s. find_source_or_store_rule kernel s.cache destination)
    rename_found rule source_path path destination found

  unfoldable pub rename_in_rule : Option RenameInformation → RuleEntry → Bool → Text → D S Preop
  unfolding rename_to
  rename_in_rule none rule source_path path = pure (complete Status.invalid_parameter 0)
  rename_in_rule (some buffer) rule source_path path =
      if buffer.file_name_length == 0
      then pure (complete Status.invalid_parameter 0)
      else elim buffer.destination_name [
        | unnamed status ↦ pure (complete status 0)
        | named destination ↦ rename_to rule source_path path destination
      ]

  -- The part for a deletion.
  unfoldable pub delete_in_rule : RuleEntry → Bool → Text → D S Preop
  unfolding real_path_of is_passed
  delete_in_rule rule source_path path = do
    real ← reads (real_path_of rule source_path path)
    elim real [
      | refused status ↦ pure (complete status 0)
      | overran ↦ pure memory_overrun
      | built real_path ↦ (do
        passed ← is_passed rule real_path
        if passed then pure success_no_callback else (do
          (status, _) ←
              send_service_request kernel record_delete_command rule.rule_id real_path none
          pure (complete status 0)))
    ]

  -- `PathOverlayPreSetInformation`
  unfoldable pub pre_set_information : SetInformationCall → D S Preop
  unfolding rename_in_rule delete_in_rule
  pre_set_information call = do
    cache ← reads (λ s. s.cache)
    if is_service_process cache call.requestor
        then pure success_no_callback
        else (elim call.normalized_name [
          | unnamed _ ↦ pure success_no_callback
          | named path ↦ elim (find_source_or_store_rule kernel cache path) [
            | none ↦ pure success_no_callback
            | some (rule, source_path) ↦
                if is_rename call.information_class
                then rename_in_rule call.rename_buffer rule source_path path
                else if deletes call
                then delete_in_rule rule source_path path
                else pure success_no_callback
          ]
        ])
