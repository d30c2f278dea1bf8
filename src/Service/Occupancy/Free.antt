-- ===== src/Service/Occupancy/Free.antt =====
-- What service/PathOverlaySvc/main.cpp has seen where it goes on with a commit or a discard.
use path_overlay.Base.{
  ℕ, ◌≡◌, refl, Bool, true, false, ◌&&◌, if-cases, List, [], ◌∷◌, ◌++◌, length, ltb, ◌==◌,
}
use path_overlay.Wide.{Text, wide}
use path_overlay.Os.{Os}
use path_overlay.Metadata.Records.{ChangeRecord}
use path_overlay.Action.{OperationResult, success, failure, ⊤, ◌>>=◌, ◌>>◌}
use path_overlay.Service.Resources.{collect_occupancy_resource_paths}
use path_overlay.Service.Processes.{OccupyingProcess, format_occupying_processes}
use path_overlay.Service.Occupancy.{
  Event, session_started, resources_registered, processes_listed, slept, error_more_data, end_query,
  list_processes, register_and_list, RestartManager, call, query_occupying_processes,
  terminate_occupying_user_processes, still_occupied, query_again, close_processes, on_processes,
  ensure_no_occupying_processes,
}

module _ (os : Os) (manager : RestartManager) where
  abbrev Query : Type 0
  Query = OperationResult (List OccupyingProcess) × List Event

  -- The last of the calls is a query that finds no process.
  abbrev pub FindsNone : List Text → List Event → Type 0
  FindsNone paths after =
      (before : List Event) × (query_occupying_processes os manager paths before
        ≡ (success [], after))

  still_occupied-success :
      (r : Query) (after : List Event)
      → ((λ (s : List Event). r) >>= still_occupied os manager) [] ≡ (success tt, after)
      → r ≡ (success [], after)
  unfolding ◌>>=◌ still_occupied
  still_occupied-success (success [], s) after h = cc
  still_occupied-success (success (process ∷ processes), s) after h = cc
  still_occupied-success (failure message, s) after h = cc

  query_again-FindsNone :
      (paths : List Text) (events after : List Event)
      → query_again os manager paths events ≡ (success tt, after)
      → FindsNone paths after
  unfolding query_again ◌>>=◌ ◌>>◌ call
  query_again-FindsNone paths events after h = (
    slept 250 ∷ events,
    still_occupied-success (query_occupying_processes os manager paths (slept 250 ∷ events)) after
        h,
  )

  close_processes-FindsNone :
      (paths : List Text) (processes : List OccupyingProcess) (events after : List Event)
      → close_processes os manager paths processes events ≡ (success tt, after)
      → FindsNone paths after
  unfolding close_processes
  close_processes-FindsNone paths processes events after h =
      go (terminate_occupying_user_processes os manager processes events) h
    where
      go :
          (r : OperationResult ⊤ × List Event)
          → elim r.0 [
            | success _ ↦ query_again os manager paths r.1
            | failure message ↦
                (failure (message ++ wide "\n" ++ format_occupying_processes processes), r.1)
          ]
            ≡ (success tt, after)
          → FindsNone paths after
      go (success tt, s) h = query_again-FindsNone paths s after h
      go (failure message, s) h = cc

  on_processes-FindsNone :
      (paths : List Text) (confirm_close : Bool) (events after : List Event) (r : Query)
      → query_occupying_processes os manager paths events ≡ r
      → ((λ (s : List Event). r) >>= on_processes os manager paths confirm_close) []
        ≡ (success tt, after)
      → FindsNone paths after
  unfolding ◌>>=◌ on_processes
  on_processes-FindsNone paths confirm_close events after (success [], s) e h = (events, cc)
  on_processes-FindsNone paths false events after (success (process ∷ processes), s) e h = cc
  on_processes-FindsNone paths true events after (success (process ∷ processes), s) e h =
      close_processes-FindsNone paths (process ∷ processes) s after h
  on_processes-FindsNone paths confirm_close events after (failure message, s) e h = cc

  -- EnsureNoOccupyingProcesses succeeds only where the last thing that it did is a query, of the
  -- paths of the records, that found no process.
  pub ensure_no_occupying_processes-FindsNone :
      (fs : os.Fs) (records : List ChangeRecord) (is_commit confirm_close : Bool)
      (events after : List Event)
      → ensure_no_occupying_processes os manager fs records is_commit confirm_close events
        ≡ (success tt, after)
      → FindsNone (collect_occupancy_resource_paths os fs records is_commit) after
  unfolding ensure_no_occupying_processes ◌>>=◌
  ensure_no_occupying_processes-FindsNone fs records is_commit confirm_close events after h =
      let paths = collect_occupancy_resource_paths os fs records is_commit in
      on_processes-FindsNone paths confirm_close events after
        (query_occupying_processes os manager paths events) refl h

  -- The list of processes grows before each call of `RmGetList` that asks for it.
  pub record IsGrowing : Type 0 where
    pub starts : (events : List Event) → (manager.start_session events).0 ≡ 0
    pub registers :
        (events : List Event) (session : ℕ) (paths : List Text)
        → manager.register_resources events session paths ≡ 0
    pub grows :
        (events : List Event) (session room : ℕ)
        → (manager.get_list events session room).result ≡ error_more_data

  end_query-growing :
      (session result : ℕ) (events : List Event)
      → result ≡ error_more_data
      → (end_query os manager session result [] events).0 ≡ success []
  unfolding end_query
  end_query-growing session result events h = rw (h) refl

  list_processes-growing :
      (session : ℕ) (events : List Event)
      → IsGrowing
      → (list_processes os manager session events).0 ≡ success []
  unfolding list_processes
  list_processes-growing session events growing =
      let counted = manager.get_list events session 0 in
      let events1 = processes_listed session 0 ∷ events in
      let listed = manager.get_list events1 session counted.needed in
      if-cases (λ (r : Query). r.0 ≡ success [])
        (counted.result == error_more_data && ltb 0 counted.needed) _ _
        (λ _. rw (growing.grows events1 session counted.needed) (
          end_query-growing session error_more_data
            (processes_listed session counted.needed ∷ events1) refl))
        (λ _. end_query-growing session counted.result events1 (growing.grows events session 0))

  query-growing :
      (paths : List Text) (events : List Event)
      → IsGrowing
      → (query_occupying_processes os manager paths events).0 ≡ success []
  unfolding query_occupying_processes register_and_list
  query-growing paths events growing =
      let session = (manager.start_session events).1 in
      let events1 = session_started ∷ events in
      if-cases (λ (r : Query). r.0 ≡ success []) (length paths == 0) _ _ (λ _. refl)
        λ _.
          rw (growing.starts events, growing.registers events1 session paths)
            (list_processes-growing session (resources_registered session paths ∷ events1) growing)

  on_processes-none :
      (paths : List Text) (confirm_close : Bool) (r : Query)
      → r.0 ≡ success []
      → (((λ (s : List Event). r) >>= on_processes os manager paths confirm_close) []).0
        ≡ success tt
  unfolding ◌>>=◌ on_processes
  on_processes-none paths confirm_close (success [], s) h = refl
  on_processes-none paths confirm_close (success (process ∷ processes), s) h = cc
  on_processes-none paths confirm_close (failure message, s) h = cc

  -- EnsureNoOccupyingProcesses succeeds, whether or not the user agrees to a closing, where each
  -- session starts, the files are registered, and the list of the processes grows before each call
  -- of `RmGetList`, although each of the answers then says that it leaves processes out.
  pub ensure_no_occupying_processes_overlooks :
      (fs : os.Fs) (records : List ChangeRecord) (is_commit confirm_close : Bool)
      (events : List Event)
      → IsGrowing
      → (ensure_no_occupying_processes os manager fs records is_commit confirm_close events).0
        ≡ success tt
  unfolding ensure_no_occupying_processes ◌>>=◌
  ensure_no_occupying_processes_overlooks fs records is_commit confirm_close events growing =
      let paths = collect_occupancy_resource_paths os fs records is_commit in
      on_processes-none paths confirm_close (query_occupying_processes os manager paths events)
        (query-growing paths events growing)
