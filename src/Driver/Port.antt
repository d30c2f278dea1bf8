-- ===== src/Driver/Port.antt =====
-- The ports of driver/PathOverlayFlt/Driver.c and its life from `DriverEntry` on.
pub mod Events
use path_overlay.Base.{ℕ, Bool, true, false, not, Option, none, some, if◌then◌else◌}
use path_overlay.Driver.Status
use path_overlay.Driver.Status.{nt_success}
use path_overlay.Driver.Kernel.{DriverState, D}
use path_overlay.Driver.Cache.{RuleMessage, no_rules, driver_message}

-- What the filter manager answers to `DriverEntry`: the statuses of `FltRegisterFilter`,
-- `FltBuildDefaultSecurityDescriptor`, `FltCreateCommunicationPort` and `FltStartFiltering`.
pub record Registration : Type 0 where
  pub register_filter : ℕ
  pub build_security_descriptor : ℕ
  pub create_communication_port : ℕ
  pub start_filtering : ℕ

module _ {S : Type 0} where
  -- The global variables before `DriverEntry`.
  abbrev pub unloaded : S → DriverState S
  unloaded outside = record {
    filter_handle = false;
    server_port = false;
    client_port = false;
    cache = no_rules;
    outside = outside;
  }

  -- `PathOverlayCloseCommunicationPort`
  unfoldable pub close_communication_port : DriverState S → DriverState S
  close_communication_port s = record s { client_port = false; server_port = false }

  -- `PathOverlayCreateCommunicationPort`
  unfoldable pub create_communication_port : Registration → D S ℕ
  create_communication_port answers s =
      if not (nt_success answers.build_security_descriptor)
      then (answers.build_security_descriptor, s)
      else (
        answers.create_communication_port,
        record s { server_port = nt_success answers.create_communication_port },
      )

  -- `PathOverlayUnload`
  unfoldable pub unload : DriverState S → DriverState S
  unfolding close_communication_port
  unload s = record (close_communication_port s) { filter_handle = false }

  -- `DriverEntry`
  unfoldable pub driver_entry : Registration → D S ℕ
  unfolding create_communication_port close_communication_port
  driver_entry answers s =
      if not (nt_success answers.register_filter)
      then (answers.register_filter, s)
      else (let (status, t) =
            create_communication_port answers (record s { filter_handle = true }) in
          if not (nt_success status)
          then (status, record t { filter_handle = false })
          else if not (nt_success answers.start_filtering)
          then (
            answers.start_filtering,
            record (close_communication_port t) { filter_handle = false },
          )
          else (Status.success, t))

  -- `PathOverlayConnect`
  unfoldable pub connect : D S ℕ
  connect s =
      if s.client_port
      then (Status.connection_count_limit, s)
      else (Status.success, record s { client_port = true })

  -- `PathOverlayDisconnect`: `FltCloseClientPort` sets the handle to `NULL`.
  unfoldable pub disconnect : DriverState S → DriverState S
  disconnect s = record s { client_port = false }
