-- ===== src/Service/Occupancy/Queried.antt =====
-- What a query of service/PathOverlaySvc/main.cpp answers, and what a process rests on that is closed.
use path_overlay.Base.{
  ℕ, ◌≡◌, refl, ◌⊎◌, inl, inr, Bool, true, false, ◌&&◌, not, if-cases, List, [], ◌∷◌, map, length,
  ltb, ◌==◌,
}
use path_overlay.Base.Lists.{All, Member}
use path_overlay.Wide.{Text}
use path_overlay.Os.{Os}
use path_overlay.Action.{OperationResult, success, failure}
use path_overlay.Service.Processes.{
  ProcessInfo, OccupyingProcess, is_protected_occupying_process, occupying_process,
}
use path_overlay.Service.Occupancy.{
  Event, session_started, resources_registered, processes_listed, session_ended, process_terminated,
  RestartManager, error_more_data, end_query, list_processes, register_and_list,
  query_occupying_processes,
}

module _ (os : Os) (manager : RestartManager) where
  -- The processes are an answer of the Restart Manager, or there are none.
  abbrev pub Listed : List OccupyingProcess → Type 0
  Listed processes =
      (processes ≡ [])
      ⊎ ((events : List Event) × (session : ℕ) × (room : ℕ) × (processes
            ≡ map (occupying_process os) (manager.get_list events session room).infos))

  -- None of the processes is protected.
  abbrev pub AreUnprotected : List ProcessInfo → Type 0
  AreUnprotected infos = All (λ info. is_protected_occupying_process os info ≡ false) infos

  -- What a call that closes a process rests on: the user has agreed, and an answer of the Restart
  -- Manager lists the process and none that is protected.
  abbrev pub Spares : Bool → Event → Type 0
  Spares confirm_close (process_terminated id) =
      (confirm_close ≡ true)
      × (events : List Event) × (session : ℕ) × (room : ℕ) × AreUnprotected
          (manager.get_list events session room).infos
      × Member id (
          map (λ (info : ProcessInfo). info.process_id)
            (manager.get_list events session room).infos)
  Spares confirm_close _ = Unit

  module _ (confirm_close : Bool) where
    -- The answer of a query, and the calls behind it.
    abbrev pub IsQueried : OperationResult (List OccupyingProcess) × List Event → Type 0
    IsQueried (success processes, events) = Listed processes × All (Spares confirm_close) events
    IsQueried (failure message, events) = All (Spares confirm_close) events

    pub queried_events :
        (r : OperationResult (List OccupyingProcess) × List Event)
        → IsQueried r
        → All (Spares confirm_close) r.1
    queried_events (success processes, events) h = h.1
    queried_events (failure message, events) h = h

    end_query-IsQueried :
        (session result : ℕ) (processes : List OccupyingProcess) (events : List Event)
        → Listed processes
        → All (Spares confirm_close) events
        → IsQueried (end_query os manager session result processes events)
    unfolding end_query
    end_query-IsQueried session result processes events h k =
        if-cases (λ r. IsQueried (r, session_ended session ∷ events))
          (not (result == 0) && not (result == error_more_data)) _ _ (λ _. (tt, k))
          (λ _. (h, (tt, k)))

    list_processes-IsQueried :
        (session : ℕ) (events : List Event)
        → All (Spares confirm_close) events
        → IsQueried (list_processes os manager session events)
    unfolding list_processes
    list_processes-IsQueried session events k =
        let counted = manager.get_list events session 0 in
        let events1 = processes_listed session 0 ∷ events in
        let listed = manager.get_list events1 session counted.needed in
        if-cases IsQueried (counted.result == error_more_data && ltb 0 counted.needed) _ _
          (λ _.
            end_query-IsQueried session listed.result _
              (processes_listed session counted.needed ∷ events1)
              (if-cases Listed (listed.result == 0) _ _
                (λ _. inr (events1, session, counted.needed, refl)) (λ _. inl refl))
              (tt, (tt, k)))
          (λ _. end_query-IsQueried session counted.result [] events1 (inl refl) (tt, k))

    pub query-IsQueried :
        (paths : List Text) (events : List Event)
        → All (Spares confirm_close) events
        → IsQueried (query_occupying_processes os manager paths events)
    unfolding query_occupying_processes register_and_list
    query-IsQueried paths events k =
        let (result, session) = manager.start_session events in
        let events1 = session_started ∷ events in
        let registered = manager.register_resources events1 session paths in
        if-cases IsQueried (length paths == 0) _ _ (λ _. (inl refl, k))
          λ _.
            if-cases IsQueried (not (result == 0)) _ _ (λ _. (tt, k))
              λ _.
                if-cases IsQueried (not (registered == 0)) _ _ (λ _. (tt, (tt, (tt, k))))
                  λ _.
                    list_processes-IsQueried session (resources_registered session paths ∷ events1)
                      (tt, (tt, k))
