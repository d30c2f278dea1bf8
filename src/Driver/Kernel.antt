-- ===== src/Driver/Kernel.antt =====
-- The state of driver/PathOverlayFlt/Driver.c, and what it asks of the kernel.
use path_overlay.Base.{ℕ, Bool, Option, List}
use path_overlay.Wide.{Text}
use path_overlay.Driver.Buffers.{Buffer}
use path_overlay.Service.Request.{ServiceRequest}

-- `PATHOVERLAY_RULE_ENTRY`
pub record RuleEntry : Type 0 where
  pub rule_id : Buffer
  pub source_nt_path : Buffer
  pub source_alias_nt_path : Buffer
  pub store_nt_path : Buffer

-- `PATHOVERLAY_RULE_CACHE`: the first `Count` entries of `Rules`.
pub record RuleCache : Type 0 where
  pub service_process_id : ℕ
  pub rules : List RuleEntry

-- The global variables: whether there is a filter, a server port and a client port, and the cache. What
-- else the callbacks depend on (the file system, the service, other threads) is `outside`.
pub record DriverState (S : Type 0) : Type 0 where
  pub filter_handle : Bool
  pub server_port : Bool
  pub client_port : Bool
  pub cache : RuleCache
  pub outside : S

-- `PATHOVERLAY_SERVICE_RESPONSE`, as it comes from the service.
pub record Reply : Type 0 where
  pub status : ℕ
  pub path_state : ℕ
  pub shadow_nt_path : Buffer

-- What `PathOverlayTracePreCreateDecision` prints.
pub record TraceDetail : Type 0 where
  pub action : Text
  pub status : ℕ
  pub options : ℕ
  pub disposition : ℕ
  pub file_attributes : ℕ
  pub desired_access : ℕ
  pub directory_open : ℕ
  pub directory_hint : ℕ
  pub write_intent : ℕ
  pub real_path_exists : ℕ
  pub shadow_path_exists : ℕ
  pub file_object_name : Text

-- The calls of the kernel and of the filter manager, with a status where they return one.
--   * `upcase` is `RtlUpcaseUnicodeChar`, `equal_unicode_string` is `RtlEqualUnicodeString` and
--     `compares_equal` says that `RtlCompareUnicodeString` returns 0, both with no regard to case.
--   * `allocate_pool` says whether `ExAllocatePool2` has the bytes, `at_passive_level` whether the IRQL is
--     `PASSIVE_LEVEL`.
--   * `create_file` is the status of `FltCreateFileEx` with `FILE_OPEN` on a path, and `query_information`
--     that of `FltQueryInformationFile` behind it, with the bytes returned.
--   * `send_message` is `FltSendMessage`: its status, the reply, and the state when it returns, after the
--     service and other threads have run.
--   * `format_detail` is `RtlStringCchPrintfW` on the text of a trace, `none` where it fails.
pub record Kernel (S : Type 0) : Type 0 where
  pub upcase : ℕ → ℕ
  pub equal_unicode_string : Text → Text → Bool
  pub compares_equal : Text → Text → Bool
  pub allocate_pool : ℕ → DriverState S → Bool
  pub at_passive_level : DriverState S → Bool
  pub create_file : Text → DriverState S → ℕ
  pub query_information : Text → ℕ → DriverState S → ℕ × ℕ
  pub replace_file_object_name : Text → DriverState S → ℕ
  pub send_message : ServiceRequest → DriverState S → (ℕ × Reply) × DriverState S
  pub format_detail : TraceDetail → Option Text

-- A call in the driver: what it returns and the state that it leaves.
abbrev pub D : Type 0 → Type 0 → Type 0
D S A = DriverState S → A × DriverState S

module _ {S : Type 0} where
  infixl 5 ◌>>=◌ ◌>>◌
  unfoldable pub ◌>>=◌ : {A B : Type 0} → D S A → (A → D S B) → D S B
  ◌>>=◌ m f s = let (a, t) = m s in f a t

  unfoldable pub ◌>>◌ : {B : Type 0} → D S (Unit {0}) → D S B → D S B
  unfolding ◌>>=◌
  m >> k = m >>= λ _. k

  unfoldable pub pure : {A : Type 0} → A → D S A
  pure a s = (a, s)

  -- What a call reads of the state.
  unfoldable pub reads : {A : Type 0} → (DriverState S → A) → D S A
  reads f s = (f s, s)
