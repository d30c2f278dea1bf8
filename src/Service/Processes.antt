-- ===== src/Service/Processes.antt =====
-- The processes that hold a file, which of them are protected, and how they are reported:
-- service/PathOverlaySvc/main.cpp.
use path_overlay.Base.{ℕ, Bool, true, false, ◌||◌, List, [], ◌∷◌, ◌++◌, leb, ◌==◌, if◌then◌else◌}
use path_overlay.Wide.{Text, wide, is_empty, decimal}
use path_overlay.Os.{Os}

-- `RM_APP_TYPE`; any other value counts as `unknown_app`.
pub data AppType : Type 0 where
  unknown_app : AppType
  main_window : AppType
  other_window : AppType
  service : AppType
  explorer : AppType
  console : AppType
  critical : AppType

-- What is read of `RM_PROCESS_INFO`.
pub record ProcessInfo : Type 0 where
  pub process_id : ℕ
  pub app_name : Text
  pub application_type : AppType

-- `OccupyingProcess`
pub record OccupyingProcess : Type 0 where
  pub process_id : ℕ
  pub application_name : Text
  pub application_type : AppType
  pub protected_process : Bool

unfoldable pub application_type_text : AppType → Text
unfolding wide
application_type_text main_window = wide "main-window"
application_type_text other_window = wide "other-window"
application_type_text service = wide "service"
application_type_text explorer = wide "explorer"
application_type_text console = wide "console"
application_type_text critical = wide "critical"
application_type_text unknown_app = wide "unknown"

-- `process.ApplicationType == RmCritical || process.ApplicationType == RmService`
unfoldable pub is_critical_or_service : AppType → Bool
is_critical_or_service critical = true
is_critical_or_service service = true
is_critical_or_service _ = false

-- The body of the loop of `FormatOccupyingProcesses`.
unfoldable pub format_process : OccupyingProcess → Text
unfolding wide decimal application_type_text
format_process process =
    wide "\n pid="
    ++ decimal process.process_id
    ++ wide " name="
    ++ (if is_empty process.application_name then wide "<unknown>" else process.application_name)
    ++ wide " type="
    ++ application_type_text process.application_type
    ++ (if process.protected_process then wide " protected=true" else [])

unfoldable pub format_processes : List OccupyingProcess → Text
format_processes [] = []
format_processes (process ∷ processes) = format_process process ++ format_processes processes

unfoldable pub format_occupying_processes : List OccupyingProcess → Text
unfolding wide
format_occupying_processes processes = wide "occupied files detected" ++ format_processes processes

module _ (os : Os) where
  -- `IsProtectedOccupyingProcess`
  unfoldable pub is_protected_occupying_process : ProcessInfo → Bool
  unfolding is_critical_or_service wide
  is_protected_occupying_process process =
      let name = process.app_name in
      leb process.process_id 4
      || process.process_id == os.process_id
      || is_critical_or_service process.application_type
      || os.wcsicmp name (wide "System")
      || os.wcsicmp name (wide "Registry")
      || os.wcsicmp name (wide "smss.exe")
      || os.wcsicmp name (wide "csrss.exe")
      || os.wcsicmp name (wide "wininit.exe")
      || os.wcsicmp name (wide "services.exe")
      || os.wcsicmp name (wide "lsass.exe")
      || os.wcsicmp name (wide "winlogon.exe")
      || os.wcsicmp name (wide "PathOverlaySvc.exe")

  unfoldable pub occupying_process : ProcessInfo → OccupyingProcess
  occupying_process info = record {
    process_id = info.process_id;
    application_name = info.app_name;
    application_type = info.application_type;
    protected_process = is_protected_occupying_process info;
  }
