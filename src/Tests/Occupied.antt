-- ===== src/Tests/Occupied.antt =====
-- A file of a rule that an editor holds, and the closing of the editor.
use path_overlay.Base.{
  ℕ, ◌≡◌, refl, ap, Bool, true, false, ◌+◌, ◌==◌, if◌then◌else◌, none, some, List, [], ◌∷◌, ◌++◌,
}
use path_overlay.Base.Lists.{All}
use path_overlay.Metadata.Records.{ChangeRecord, modified}
use path_overlay.Action.{OperationResult, success, ⊤, actions}
use path_overlay.Os.{Os}
use path_overlay.Paths.{
  normalize_path, expand_long_path_best_effort, find_last_slash, trim_reversed, ends_with_slash,
}
use path_overlay.Overlay.FsPath.{display_path}
use path_overlay.Wide.{same_text, back}
use path_overlay.Service.Resources.{collect_occupancy_resource_paths}
use path_overlay.Service.Processes.{ProcessInfo, main_window}
use path_overlay.Service.Occupancy.{
  Event, process_terminated, ProcessList, RestartManager, error_more_data, occupancy,
  query_occupying_processes, ensure_no_occupying_processes,
}
use path_overlay.Service.Occupancy.Queried.{Spares}
use path_overlay.Service.Occupancy.Spared.{ensure_no_occupying_processes_closes_unprotected}
use path_overlay.Service.Occupancy.Free.{
  FindsNone, IsGrowing, ensure_no_occupying_processes-FindsNone,
  ensure_no_occupying_processes_overlooks,
}
use path_overlay.Tests.Toy.{toy, file, two_disks, has_path}

abbrev editor : ProcessInfo
editor = record { process_id = 100; app_name = 101 ∷ []; application_type = main_window }

-- Something has been terminated.
abbrev is_closed : List Event → Bool
is_closed [] = false
is_closed (process_terminated id ∷ events) = true
is_closed (_ ∷ events) = is_closed events

-- The editor runs until it is terminated.
abbrev running : Bool → ℕ → ProcessList
running true room = record { result = 0; needed = 0; infos = [] }
running false room =
    if room == 0
    then record { result = error_more_data; needed = 1; infos = [] }
    else record { result = 0; needed = 1; infos = editor ∷ [] }

abbrev manager : RestartManager
manager = record {
  start_session = λ events. (0, 7);
  register_resources = λ events session paths. 0;
  get_list = λ events session room. running (is_closed events) room;
  open_process = λ events id. none;
  terminate_process = λ events id. none;
}

-- The toy machine, which takes the extended form of a path as well.
abbrev office : Os
office = record toy {
  get_file_attributes = λ disks path.
      if has_path (display_path path) (disks.c ++ disks.d)
      then some (record { directory = false; reparse_point = false })
      else none;
}

abbrev held : List ChangeRecord
held =
    record {
      real_path = file;
      shadow_path = [];
      target_path = [];
      state = modified;
      original_exists = true;
      original_size = 0;
      original_last_write_time = [];
      current_size = 0;
      last_write_time = [];
    }
    ∷ []

abbrev closing : OperationResult ⊤ × List Event
closing = ensure_no_occupying_processes office manager two_disks held true true []

ensure_no_occupying_processes_closes_unprotected_example :
    All (Spares office manager true) closing.1
ensure_no_occupying_processes_closes_unprotected_example =
    ensure_no_occupying_processes_closes_unprotected office manager two_disks held true true [] tt

-- The editor is closed, and then nobody holds the file.
closing_run : (closing.0 ≡ success tt) × (is_closed closing.1 ≡ true)
unfolding occupancy actions normalize_path query_occupying_processes ensure_no_occupying_processes
    expand_long_path_best_effort find_last_slash trim_reversed ends_with_slash has_path same_text
    back display_path
closing_run = (refl, refl)

ensure_no_occupying_processes-FindsNone_example :
    FindsNone office manager (collect_occupancy_resource_paths office two_disks held true) closing.1
ensure_no_occupying_processes-FindsNone_example =
    ensure_no_occupying_processes-FindsNone office manager two_disks held true true [] closing.1
      (ap (λ (r : OperationResult ⊤). (r, closing.1)) closing_run.0)

-- The list always grows.
abbrev busy : RestartManager
busy = record {
  start_session = λ events. (0, 7);
  register_resources = λ events session paths. 0;
  get_list =
      λ events session room. record { result = error_more_data; needed = room + 1; infos = [] };
  open_process = λ events id. none;
  terminate_process = λ events id. none;
}

busy-IsGrowing : IsGrowing office busy
busy-IsGrowing = record {
  starts = λ events. refl;
  registers = λ events session paths. refl;
  grows = λ events session room. refl;
}

ensure_no_occupying_processes_overlooks_example :
    (ensure_no_occupying_processes office busy two_disks held true false []).0 ≡ success tt
ensure_no_occupying_processes_overlooks_example =
    ensure_no_occupying_processes_overlooks office busy two_disks held true false [] busy-IsGrowing
