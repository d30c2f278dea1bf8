-- ===== src/Lib.antt =====
-- PathOverlay shows a directory with the changes of a user kept apart from it: every change to a
-- file below the source of a rule goes to a shadow below the store of the rule, until a commit
-- writes the changes to the source or a discard drops them. This library models the part of the
-- program that decides and does this.
--
-- The parts, and the files that model them:
--   * Paths and rules, common/path_overlay_common.cpp and its header: Paths (normal form,
--     containment, joining), Rules (`validate_overlay_rule`, `validate_overlay_rule_set`,
--     `map_real_path_to_shadow_path`, the search for reparse points). Wide has the wide strings.
--   * The metadata store, common/metadata_store.cpp and its header: Metadata/Records (the records
--     and the text of a state), Metadata/Sql (the tables, and what the text of each statement
--     says), Metadata/Statement (how a statement is run), Metadata/Store (one function per method
--     of `MetadataStore`), Metadata/Recovery (`RecoverInterruptedOperations`), Metadata/Owned/Calls
--     (`StoreCall`, a call of one of the methods that change tables).
--   * The overlay operations, common/overlay_operations.cpp and its header: Overlay/World (the
--     state), Overlay/FsPath, Overlay/Files, Overlay/Copy and Overlay/Records (the helpers),
--     Overlay/Prepare (`PrepareCopyOnWrite`, `PrepareDirectoryView`, `PrepareRenamedTargetPath`,
--     `RecordCreatedFile`, `RecordDelete`), Overlay/Rename (`RecordRename`), Overlay/Commit
--     (`Commit`), Overlay/Discard (`Discard`, `ProcessCleanupQueue`).
--   * The service, service/PathOverlaySvc/main.cpp: Service/NtPath (names of the kernel),
--     Service/Hidden (`IsTombstoned`, `IsHiddenByRenameSource`), Service/Thread (a round of
--     `DriverMessageThread`), Service/Push (`PushDriverRules`, `SyncDriverRuleCache`),
--     Service/Resources, Service/Processes and Service/Occupancy (`EnsureNoOccupyingProcesses`: the
--     files, the processes and the closing), Service/Request (`ProcessDriverRequest`, on the
--     messages of common/path_overlay_protocol.h).
--   * The driver, driver/PathOverlayFlt/Driver.c: Driver/Status (codes), Driver/Kernel (the global
--     variables, and what is asked of the kernel), Driver/Buffers (arrays of characters),
--     Driver/Components (the matching of paths), Driver/Cache (the rules: `PathOverlaySetRule`,
--     `PathOverlayMessage`, the searches), Driver/Access (the parameters of a create), Driver/Send
--     (`PathOverlaySendServiceRequest` and the traces), Driver/Shadow (paths that are put
--     together), Driver/Create (`PathOverlayPreCreate`), Driver/SetInformation
--     (`PathOverlayPreSetInformation`), Driver/Query (`PathOverlayPreQueryOpen`,
--     `PathOverlayPreNetworkQueryOpen`), Driver/Port (`DriverEntry`, the port,
--     `PathOverlayUnload`).
-- The driver asks the service about a path over its port, and sends the call on to the shadow or
-- has the service record it. The service finds the rule of a request and calls the overlay
-- operations on it. They call the store and the path functions; the store calls the path functions.
--
-- A method is a function from its arguments and a state to a result and the state that it leaves,
-- also when it fails: `OperationResult` with a message, or a `bool` with an `error` argument, is
-- `OperationResult` of Action, with the calls in sequence by do blocks. A function of the source
-- with several parts is several functions here, each with the part that it models. The other
-- modules below Paths, Rules, Metadata, Overlay, Service and Driver hold proofs, and Tests a small
-- machine with examples.
--
-- What is not code of the repository is a parameter. `Os` stands for Windows, the C runtime and
-- `std::filesystem`: an abstract file system with the queries and the effects that the sources use,
-- each with its error code; no law of it is assumed but where a theorem names one (`IsFramed`: a
-- call that writes below the store leaves what is observed apart from it; `KeepsBackslash`: the
-- lower case of a backslash is a backslash). The theorems on what a method leaves alone are for a
-- store whose path is not empty and does not end with a separator (`IsPlainStore`), so not for the
-- root of a drive. `Engine` stands for SQLite: it may refuse to prepare or to run any statement,
-- and orders the rows of a query; what an accepted statement does to the tables is modelled from
-- its text and the schema. A text goes to the engine and back through two conversions of Windows,
-- which `Engine` has too: the columns of the paths and messages hold a text as it is read back, and
-- the theorems that need a text to be read as it was bound say so; the columns of identifiers,
-- states and the times of the logs hold ASCII, which the conversions leave alone. `Devices` stands
-- for the names of devices and for the opening of the database. `Kernel` stands for the kernel and
-- the filter manager of the driver, and for the service behind its port: `send_message` may change
-- whatever the driver reads, and what the driver runs between two messages is one step.
-- `DriverPort` is the same port from the service's end. `RestartManager` stands for the Restart
-- Manager and the processes of Windows: its answers depend on the calls so far, and a handle is
-- named by its process. `Registration` has the statuses that `DriverEntry` gets. Texts are lists of
-- code units, without a terminating zero.
--
-- Fuel: `ExpandLongPathBestEffort` calls itself on the part before the last separator, so the
-- length of the path is enough; the search for reparse points consumes a code unit in each round,
-- so the length of the rest is enough; the drives are tried for the 26 letters; `decimal` divides
-- by ten, so the number is enough; a 32-bit number has eight hexadecimal digits. Sizes are 64-bit:
-- two 32-bit halves are put together as the source does, and a column holds a number below 2 ^ 64.
-- The attempts of a cleanup, an `int`, are not bounded. Each round of the matching of two paths
-- consumes a component of the source, so the length of the source and one more is enough. The
-- lengths of a `UNICODE_STRING` are put together in 16 bits, and a copy that is longer than its
-- buffer is an outcome of its own.
--
-- Not modelled: exceptions, such as the one that a step of a directory iterator throws where the
-- `for` over it has no error code; loading, opening and creating the database, the listing of
-- reparse points for a report, the identifier of a new rule, the pipe of the service with its
-- threads and commands, the log, and the command line; of the driver, its table of callbacks, its
-- lock, the reference counts, the freeing of memory, and the status that a message writes to its
-- output buffer beside the one that it returns.
pub mod Base
pub mod Wide
pub mod Os
pub mod Paths
pub mod Rules
pub mod Action
pub mod Metadata
pub mod Overlay
pub mod Service
pub mod Driver
mod Tests
