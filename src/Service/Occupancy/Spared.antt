-- ===== src/Service/Occupancy/Spared.antt =====
-- Which processes service/PathOverlaySvc/main.cpp closes.
use path_overlay.Base.{
  ℕ, ◌≡◌, refl, sym, subst, inl, inr, Bool, true, false, not, if-cases, Option-cases, List, [], ◌∷◌,
  map, if◌then◌else◌, arith,
}
use path_overlay.Base.Lists.{All, Member, here, there}
use path_overlay.Wide.{Text}
use path_overlay.Os.{Os}
use path_overlay.Metadata.Owned.{All-map}
use path_overlay.Metadata.Records.{ChangeRecord}
use path_overlay.Action.{OperationResult, success, failure, Action, ⊤, result-cases, ◌>>=◌, ◌>>◌}
use path_overlay.Service.Resources.{collect_occupancy_resource_paths}
use path_overlay.Service.Processes.{
  ProcessInfo, OccupyingProcess, is_protected_occupying_process, occupying_process,
}
use path_overlay.Service.Occupancy.Queried.{
  Listed, AreUnprotected, Spares, IsQueried, queried_events, query-IsQueried,
}
use path_overlay.Service.Occupancy.{
  Event, process_opened, process_terminated, slept, RestartManager, call, query_occupying_processes,
  refuse_protected, terminate_opened, terminate, terminate_all, terminate_occupying_user_processes,
  still_occupied, query_again, close_processes, on_processes, ensure_no_occupying_processes,
}

module _ (os : Os) (manager : RestartManager) where
  module _ (confirm_close : Bool) where
    terminate_opened-Spares :
        (id : ℕ) (events : List Event)
        → Spares os manager confirm_close (process_terminated id)
        → All (Spares os manager confirm_close) events
        → All (Spares os manager confirm_close) (terminate_opened os manager id events).1
    unfolding terminate_opened
    terminate_opened-Spares id events h k =
        elim (Option-cases (manager.terminate_process events id)) [
          | inl e ↦ rw (e, All) (tt, (tt, (h, k)))
          | inr (code, e) ↦ rw (e, All) (tt, (h, k))
        ]

    terminate-Spares :
        (id : ℕ) (events : List Event)
        → Spares os manager confirm_close (process_terminated id)
        → All (Spares os manager confirm_close) events
        → All (Spares os manager confirm_close) (terminate os manager id events).1
    unfolding terminate
    terminate-Spares id events h k = elim (Option-cases (manager.open_process events id)) [
      | inl e ↦ rw (e, All) (terminate_opened-Spares id (process_opened id ∷ events) h (tt, k))
      | inr (code, e) ↦ rw (e, All) (tt, k)
    ]

    -- What follows a call that may have failed.
    then-Spares :
        (r : OperationResult ⊤ × List Event) (m : Action (List Event) ⊤)
        → All (Spares os manager confirm_close) r.1
        → ((events : List Event)
            → All (Spares os manager confirm_close) events
            → All (Spares os manager confirm_close) (m events).1)
        → All (Spares os manager confirm_close) (((λ (s : List Event). r) >> m) r.1).1
    unfolding ◌>>=◌ ◌>>◌
    then-Spares (success tt, events) m h k = k events h
    then-Spares (failure message, events) m h k = h

    terminate_all-Spares :
        (processes : List OccupyingProcess) (events : List Event)
        → All
            (λ process. Spares os manager confirm_close (process_terminated process.process_id))
            processes
        → All (Spares os manager confirm_close) events
        → All (Spares os manager confirm_close) (terminate_all os manager processes events).1
    unfolding terminate_all ◌>>=◌ ◌>>◌
    terminate_all-Spares [] events h k = k
    terminate_all-Spares (process ∷ processes) events (h, hs) k =
        then-Spares (terminate os manager process.process_id events)
          (terminate_all os manager processes) (terminate-Spares process.process_id events h k)
          (λ events1. terminate_all-Spares processes events1 hs)

  -- A test that does not refuse.
  goes_on :
      (rest : OperationResult ⊤) (message : Text) (test : Bool)
      → (if test then failure message else rest) ≡ success tt
      → (test ≡ false) × (rest ≡ success tt)
  goes_on rest message true h = cc
  goes_on rest message false h = (refl, h)

  refuse_protected-AreUnprotected :
      (infos : List ProcessInfo)
      → refuse_protected os manager (map (occupying_process os) infos) ≡ success tt
      → AreUnprotected os manager infos
  unfolding refuse_protected occupying_process
  refuse_protected-AreUnprotected [] h = tt
  refuse_protected-AreUnprotected (info ∷ infos) h =
      let (e, rest) = goes_on _ _ (is_protected_occupying_process os info) h in
      (e, refuse_protected-AreUnprotected infos rest)

  -- Every process of an answer stands in it.
  occupying-Member :
      (infos : List ProcessInfo) (ids : List ℕ)
      → ((id : ℕ) → Member id (map (λ (info : ProcessInfo). info.process_id) infos) → Member id ids)
      → All (λ process. Member process.process_id ids) (map (occupying_process os) infos)
  unfolding occupying_process
  occupying-Member [] ids h = tt
  occupying-Member (info ∷ infos) ids h =
      (h info.process_id here, occupying-Member infos ids (λ id k. h id (there k)))

  module _ (confirm_close : Bool) where
    terminate_occupying-Spares :
        (processes : List OccupyingProcess) (events : List Event)
        → confirm_close ≡ true
        → Listed os manager processes
        → All (Spares os manager confirm_close) events
        → All
            (Spares os manager confirm_close)
            (terminate_occupying_user_processes os manager processes events).1
    unfolding terminate_occupying_user_processes refuse_protected terminate_all
    terminate_occupying-Spares processes events agreed (inl e) k =
        subst
          (λ ps.
            All (Spares os manager confirm_close)
              (terminate_occupying_user_processes os manager ps events).1)
          (sym e) k
    terminate_occupying-Spares processes events agreed (inr (before, session, room, e)) k =
        let infos = (manager.get_list before session room).infos in
        subst
          (λ ps.
            All (Spares os manager confirm_close)
              (terminate_occupying_user_processes os manager ps events).1)
          (sym e)
          (elim (result-cases (refuse_protected os manager (map (occupying_process os) infos))) [
            | inl allowed ↦
                rw (allowed, All)
                  (terminate_all-Spares confirm_close (map (occupying_process os) infos) events
                    (All-map (map (occupying_process os) infos)
                      (λ process member. (
                        agreed,
                        before,
                        session,
                        room,
                        refuse_protected-AreUnprotected infos allowed,
                        member,
                      ))
                      (occupying-Member infos (map (λ (info : ProcessInfo). info.process_id) infos)
                        (λ id member. member)))
                    k)
            | inr (message, refused) ↦ rw (refused, All) k
          ])

    query_again-Spares :
        (paths : List Text) (events : List Event)
        → All (Spares os manager confirm_close) events
        → All (Spares os manager confirm_close) (query_again os manager paths events).1
    unfolding query_again ◌>>=◌ ◌>>◌ call still_occupied
    query_again-Spares paths events k =
        judged (query_occupying_processes os manager paths (slept 250 ∷ events)) (
          queried_events os manager confirm_close _
            (query-IsQueried os manager confirm_close paths (slept 250 ∷ events) (tt, k)))
      where
        judged :
            (r : OperationResult (List OccupyingProcess) × List Event)
            → All (Spares os manager confirm_close) r.1
            → All
                (Spares os manager confirm_close)
                (((λ (s : List Event). r) >>= still_occupied os manager) []).1
        judged (success [], s) h = h
        judged (success (process ∷ processes), s) h = h
        judged (failure message, s) h = h

    close_processes-Spares :
        (paths : List Text) (processes : List OccupyingProcess) (events : List Event)
        → confirm_close ≡ true
        → Listed os manager processes
        → All (Spares os manager confirm_close) events
        → All
            (Spares os manager confirm_close)
            (close_processes os manager paths processes events).1
    unfolding close_processes
    close_processes-Spares paths processes events agreed h k =
        let r = terminate_occupying_user_processes os manager processes events in
        let closed = terminate_occupying-Spares processes events agreed h k in
        elim (result-cases r.0) [
          | inl e ↦ rw (e, All) (query_again-Spares paths r.1 closed)
          | inr (message, e) ↦ rw (e, All) closed
        ]

    on_processes-Spares :
        (paths : List Text) (r : OperationResult (List OccupyingProcess) × List Event)
        → IsQueried os manager confirm_close r
        → All
            (Spares os manager confirm_close)
            (((λ (s : List Event). r) >>= on_processes os manager paths confirm_close) []).1
    unfolding ◌>>=◌ on_processes
    on_processes-Spares paths (success [], events) h = h.1
    on_processes-Spares paths (success (process ∷ processes), events) (h, k) =
        if-cases (λ (r : OperationResult ⊤ × List Event). All (Spares os manager confirm_close) r.1)
          (not confirm_close) _ _ (λ _. k)
          (λ e. close_processes-Spares paths (process ∷ processes) events (ground arith) h k)
    on_processes-Spares paths (failure message, events) h = h

  -- A process that EnsureNoOccupyingProcesses closes is one that the Restart Manager has listed, in
  -- an answer with no protected process, and the user has agreed to the closing: where this holds
  -- of the calls that were made before, it holds of those that it has made when it returns, also
  -- when it fails.
  pub ensure_no_occupying_processes_closes_unprotected :
      (fs : os.Fs) (records : List ChangeRecord) (is_commit confirm_close : Bool)
      (events : List Event)
      → All (Spares os manager confirm_close) events
      → All
          (Spares os manager confirm_close)
          (ensure_no_occupying_processes os manager fs records is_commit confirm_close events).1
  unfolding ensure_no_occupying_processes ◌>>=◌
  ensure_no_occupying_processes_closes_unprotected fs records is_commit confirm_close events k =
      let paths = collect_occupancy_resource_paths os fs records is_commit in
      on_processes-Spares confirm_close paths (query_occupying_processes os manager paths events)
        (query-IsQueried os manager confirm_close paths events k)
