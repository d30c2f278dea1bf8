-- ===== src/Driver/Port/Events.antt =====
-- The life of driver/PathOverlayFlt/Driver.c: `DriverEntry`, and what comes to its ports.
use path_overlay.Base.{
  ℕ, ◌≡◌, refl, sym, subst, ◌⊎◌, inl, inr, true, false, not, Bool-cases, Option, List, [], ◌∷◌,
  arith,
}
use path_overlay.Driver.Status
use path_overlay.Driver.Status.{nt_success}
use path_overlay.Driver.Kernel.{DriverState}
use path_overlay.Driver.Cache.{RuleMessage, driver_message}
use path_overlay.Driver.Cache.Valid.{IsValid, no_rules-IsValid, driver_message-ChangesCache}
use path_overlay.Driver.Port.{
  Registration, unloaded, driver_entry, close_communication_port, unload, connect, disconnect,
}

-- A client that connects or goes, and a message from it.
pub data PortEvent : Type 0 where
  connected : PortEvent
  disconnected : PortEvent
  received : Option RuleMessage → PortEvent

not_success : (status : ℕ) → not (nt_success status) ≡ true → nt_success status ≡ false
not_success status h = ground arith

success : (status : ℕ) → not (nt_success status) ≡ false → nt_success status ≡ true
success status h = ground arith

module _ {S : Type 0} where
  unfoldable pub handle : PortEvent → DriverState S → DriverState S
  handle connected s = (connect s).1
  handle disconnected s = disconnect s
  handle (received message) s = (driver_message message s).1

  unfoldable pub handle_all : List PortEvent → DriverState S → DriverState S
  unfolding handle
  handle_all [] s = s
  handle_all (event ∷ events) s = handle_all events (handle event s)

  -- The filter and the server port are there.
  abbrev pub IsLoaded : DriverState S → Type 0
  IsLoaded s = (s.filter_handle ≡ true) × (s.server_port ≡ true)

  -- Neither is there, and no client.
  abbrev pub IsUnloaded : DriverState S → Type 0
  IsUnloaded s = (s.filter_handle ≡ false) × (s.server_port ≡ false) × (s.client_port ≡ false)

  abbrev KeepsLoaded : DriverState S → Type 0
  KeepsLoaded s = IsLoaded s × IsValid s.cache

  connect-keeps : (s : DriverState S) → KeepsLoaded s → KeepsLoaded (connect s).1
  unfolding connect
  connect-keeps s h = elim (Bool-cases s.client_port) [
    | inl taken ↦ rw (taken) h
    | inr free ↦ rw (free) h
  ]

  handle-keeps :
      (event : PortEvent) (s : DriverState S) → KeepsLoaded s → KeepsLoaded (handle event s)
  unfolding handle disconnect
  handle-keeps connected s h = connect-keeps s h
  handle-keeps disconnected s h = h
  handle-keeps (received message) s (l, v) =
      let changed = driver_message-ChangesCache message s in
      subst KeepsLoaded (sym changed.same) (l, changed.valid v)

  handle_all-keeps :
      (events : List PortEvent) (s : DriverState S)
      → KeepsLoaded s
      → KeepsLoaded (handle_all events s)
  unfolding handle_all
  handle_all-keeps [] s h = h
  handle_all-keeps (event ∷ events) s h =
      handle_all-keeps events (handle event s) (handle-keeps event s h)

  -- How `DriverEntry` ends, and what follows.
  record Loads (events : List PortEvent) (result : ℕ × DriverState S) : Type 0 where
    outcome :
        ((nt_success result.0 ≡ false) × IsUnloaded result.1)
        ⊎ ((nt_success result.0 ≡ true)
            × IsLoaded (handle_all events result.1)
            × IsValid (handle_all events result.1).cache
            × IsUnloaded (unload (handle_all events result.1)))

  unload-IsUnloaded : (s : DriverState S) → IsUnloaded (unload s)
  unfolding unload close_communication_port
  unload-IsUnloaded s = (refl, refl, refl)

  -- What follows a start that succeeds.
  runs :
      (events : List PortEvent) (s : DriverState S)
      → KeepsLoaded s
      → (nt_success Status.success ≡ true)
        × IsLoaded (handle_all events s)
        × IsValid (handle_all events s).cache
        × IsUnloaded (unload (handle_all events s))
  runs events s h =
      let (loaded, valid) = handle_all-keeps events s h in
      (refl, loaded, valid, unload-IsUnloaded (handle_all events s))

  driver_entry-Loads :
      (answers : Registration) (events : List PortEvent) (outside : S)
      → Loads events (driver_entry answers (unloaded outside))
  unfolding driver_entry close_communication_port
  driver_entry-Loads answers events outside =
      elim (Bool-cases (not (nt_success answers.register_filter))) [
        | inl refused ↦
            rw (refused) (record { outcome = inl (not_success _ refused, (refl, refl, refl)) })
        | inr registered ↦ elim (Bool-cases (not (nt_success answers.build_security_descriptor))) [
          | inl refused ↦
              rw (registered, refused, refused)
                (record { outcome = inl (not_success _ refused, (refl, refl, refl)) })
          | inr built ↦ elim (Bool-cases (not (nt_success answers.create_communication_port))) [
            | inl refused ↦
                rw (registered, built, refused)
                  (record {
                    outcome = inl (not_success _ refused, (refl, not_success _ refused, refl));
                  })
            | inr created ↦ elim (Bool-cases (not (nt_success answers.start_filtering))) [
              | inl refused ↦
                  rw (registered, built, created, refused)
                    (record { outcome = inl (not_success _ refused, (refl, refl, refl)) })
              | inr started ↦
                  rw (registered, built, created, started)
                    (record {
                      outcome = inr (runs events _ ((refl, success _ created), no_rules-IsValid));
                    })
            ]
          ]
        ]
      ]

  -- `DriverEntry` fails and leaves no filter, no port and no client, or it succeeds; then, after any clients
  -- and messages, whatever is in them, there is a filter and a port, the cache has at most 16 rules,
  -- and each array of a rule has its size, ends within it, and, if it is a path, ends in no backslash;
  -- and `PathOverlayUnload` leaves no filter, no port and no client.
  pub driver_entry_loads :
      (answers : Registration) (events : List PortEvent) (outside : S)
      → let (status, s) = driver_entry answers (unloaded outside) in
        let t = handle_all events s in
        ((nt_success status ≡ false) × IsUnloaded s)
        ⊎ ((nt_success status ≡ true) × IsLoaded t × IsValid t.cache × IsUnloaded (unload t))
  driver_entry_loads answers events outside = (driver_entry-Loads answers events outside).outcome
