-- ===== src/Service/Occupancy.antt =====
-- The checks that no process holds a file of a rule, and the closing of those that do:
-- service/PathOverlaySvc/main.cpp, with the Restart Manager and the processes of Windows as
-- a parameter that answers by what was called before.
pub mod Queried
pub mod Spared
pub mod Free
use path_overlay.Base.{
  ℕ, Bool, true, false, ◌&&◌, ◌||◌, not, Option, none, some, List, [], ◌∷◌, ◌++◌, map, length, drop,
  leb, ltb, ◌==◌, if◌then◌else◌,
}
use path_overlay.Wide.{Text, wide, backslash, slash, colon, is_empty, starts_with, decimal}
use path_overlay.Os.{Os}
use path_overlay.Paths.{normalize_path}
use path_overlay.Metadata.Records.{ChangeRecord}
use path_overlay.Action.{OperationResult, success, failure, Action, pure, fail, ⊤, ◌>>=◌, ◌>>◌}
use path_overlay.Service.Resources.{resources, collect_occupancy_resource_paths}
use path_overlay.Service.Processes.{
  ProcessInfo, OccupyingProcess, is_critical_or_service, is_protected_occupying_process,
  occupying_process, format_occupying_processes,
}

-- The answer of `RmGetList`: its result, `processInfoNeeded`, and the entries that it filled.
pub record ProcessList : Type 0 where
  pub result : ℕ
  pub needed : ℕ
  pub infos : List ProcessInfo

-- The calls, each once it is made. A handle of a process is named by the process.
pub data Event : Type 0 where
  session_started : Event
  resources_registered : ℕ → List Text → Event
  processes_listed : ℕ → ℕ → Event
  session_ended : ℕ → Event
  process_opened : ℕ → Event
  process_terminated : ℕ → Event
  process_waited_for : ℕ → ℕ → Event
  handle_closed : ℕ → Event
  slept : ℕ → Event

-- What Windows answers after the calls so far, the last one first. `RmStartSession` gives its
-- result and the session; a call on a process fails with the code of `GetLastError`.
pub record RestartManager : Type 0 where
  pub start_session : List Event → ℕ × ℕ
  pub register_resources : List Event → ℕ → List Text → ℕ
  pub get_list : List Event → ℕ → ℕ → ProcessList
  pub open_process : List Event → ℕ → Option ℕ
  pub terminate_process : List Event → ℕ → Option ℕ

abbrev pub error_more_data : ℕ
error_more_data = 234

-- A call that answers nothing.
unfoldable pub call : Event → Action (List Event) ⊤
call event events = (success tt, event ∷ events)

module _ (os : Os) where
  module _ (manager : RestartManager) where
    -- The end of `QueryOccupyingProcesses`, behind the call that gave the result.
    unfoldable pub end_query :
        ℕ → ℕ → List OccupyingProcess → Action (List Event) (List OccupyingProcess)
    unfolding wide decimal
    end_query session result processes events = (
      if not (result == 0) && not (result == error_more_data)
          then failure (wide "failed to query occupying processes: " ++ decimal result)
          else success processes,
      session_ended session ∷ events,
    )

    -- The two calls of `RmGetList`.
    unfoldable pub list_processes : ℕ → Action (List Event) (List OccupyingProcess)
    list_processes session events =
        let counted = manager.get_list events session 0 in
        let events1 = processes_listed session 0 ∷ events in
        let listed = manager.get_list events1 session counted.needed in
        let processes = map (occupying_process os) listed.infos in
        if counted.result == error_more_data && ltb 0 counted.needed
        then end_query session listed.result (if listed.result == 0 then processes else [])
            (processes_listed session counted.needed ∷ events1)
        else end_query session counted.result [] events1

    -- `RmRegisterResources` and what follows it.
    unfoldable pub register_and_list : ℕ → List Text → Action (List Event) (List OccupyingProcess)
    unfolding wide decimal
    register_and_list session paths events =
        let result = manager.register_resources events session paths in
        let events1 = resources_registered session paths ∷ events in
        if not (result == 0)
        then (
          failure (wide "failed to register resources for occupancy detection: " ++ decimal result),
          session_ended session ∷ events1,
        )
        else list_processes session events1

    unfoldable pub query_occupying_processes :
        List Text → Action (List Event) (List OccupyingProcess)
    unfolding wide decimal
    query_occupying_processes paths events =
        let (result, session) = manager.start_session events in
        let events1 = session_started ∷ events in
        if length paths == 0
        then (success [], events)
        else if not (result == 0)
        then (failure (wide "failed to start Restart Manager session: " ++ decimal result), events1)
        else register_and_list session paths events1

    -- The first loop of `TerminateOccupyingUserProcesses`.
    unfoldable pub refuse_protected : List OccupyingProcess → OperationResult ⊤
    unfolding wide decimal
    refuse_protected [] = success tt
    refuse_protected (process ∷ processes) =
        if process.protected_process
        then failure
            (wide "refusing to close protected process: pid=" ++ decimal process.process_id)
        else refuse_protected processes

    -- `TerminateProcess` on a process that is open, and what follows it.
    unfoldable pub terminate_opened : ℕ → Action (List Event) ⊤
    unfolding wide decimal
    terminate_opened id events =
        let events1 = process_terminated id ∷ events in
        elim (manager.terminate_process events id) [
          | none ↦ (success tt, handle_closed id ∷ process_waited_for id 3000 ∷ events1)
          | some last_error ↦ (
            failure (
                wide "failed to close process: pid="
                ++ decimal id
                ++ wide " error="
                ++ decimal last_error),
            handle_closed id ∷ events1,
          )
        ]

    -- The body of the second loop.
    unfoldable pub terminate : ℕ → Action (List Event) ⊤
    unfolding wide decimal
    terminate id events =
        let events1 = process_opened id ∷ events in
        elim (manager.open_process events id) [
          | none ↦ terminate_opened id events1
          | some last_error ↦ (
            failure (
                wide "failed to open process for close: pid="
                ++ decimal id
                ++ wide " error="
                ++ decimal last_error),
            events1,
          )
        ]

    unfoldable pub terminate_all : List OccupyingProcess → Action (List Event) ⊤
    unfolding ◌>>=◌ ◌>>◌
    terminate_all [] events = (success tt, events)
    terminate_all (process ∷ processes) events =
        (terminate process.process_id >> terminate_all processes) events

    unfoldable pub terminate_occupying_user_processes :
        List OccupyingProcess → Action (List Event) ⊤
    terminate_occupying_user_processes processes events = elim (refuse_protected processes) [
      | success _ ↦ terminate_all processes events
      | failure message ↦ (failure message, events)
    ]

    -- The query behind the closing.
    unfoldable pub still_occupied : List OccupyingProcess → Action (List Event) ⊤
    unfolding wide
    still_occupied [] events = (success tt, events)
    still_occupied (process ∷ processes) events = (
      failure (
          wide "files are still occupied after close attempt\n"
          ++ format_occupying_processes (process ∷ processes)),
      events,
    )

    unfoldable pub query_again : List Text → Action (List Event) ⊤
    unfolding ◌>>=◌ ◌>>◌ call
    query_again paths = call (slept 250) >> (query_occupying_processes paths >>= still_occupied)

    unfoldable pub close_processes : List Text → List OccupyingProcess → Action (List Event) ⊤
    unfolding wide
    close_processes paths processes events =
        let (result, events1) = terminate_occupying_user_processes processes events in
        elim result [
          | success _ ↦ query_again paths events1
          | failure message ↦
              (failure (message ++ wide "\n" ++ format_occupying_processes processes), events1)
        ]

    -- What `EnsureNoOccupyingProcesses` does with the processes that it found.
    unfoldable pub on_processes : List Text → Bool → List OccupyingProcess → Action (List Event) ⊤
    unfolding wide
    on_processes paths confirm_close [] events = (success tt, events)
    on_processes paths confirm_close (process ∷ processes) events =
        if not confirm_close
        then (
          failure (
              format_occupying_processes (process ∷ processes)
              ++ wide "\nuse --confirm-close to close non-critical user processes"),
          events,
        )
        else close_processes paths (process ∷ processes) events

    unfoldable pub ensure_no_occupying_processes :
        os.Fs → List ChangeRecord → Bool → Bool → Action (List Event) ⊤
    unfolding ◌>>=◌
    ensure_no_occupying_processes fs records is_commit confirm_close =
        let paths = collect_occupancy_resource_paths os fs records is_commit in
        query_occupying_processes paths >>= on_processes paths confirm_close

-- To unfold this is to unfold what the check is made of.
unfoldable pub occupancy : ⊤
unfolding call resources is_critical_or_service is_protected_occupying_process occupying_process
    end_query list_processes register_and_list refuse_protected terminate_opened terminate
    terminate_all terminate_occupying_user_processes still_occupied query_again close_processes
    on_processes
occupancy = tt
