-- ===== src/Driver/Status.antt =====
-- The codes of the type NTSTATUS that driver/PathOverlayFlt/Driver.c uses, as 32-bit numbers.
use path_overlay.Base.{ℕ, ◌^◌, Bool, ltb}

-- `NT_SUCCESS`: the code is not negative.
abbrev pub nt_success : ℕ → Bool
nt_success status = ltb status (2 ^ 31)

abbrev pub success : ℕ
success = 0

-- `STATUS_TIMEOUT`, a code of success, which `FltSendMessage` gives when no answer comes in time.
abbrev pub timeout : ℕ
timeout = 0x102

abbrev pub reparse : ℕ
reparse = 0x104

abbrev pub unsuccessful : ℕ
unsuccessful = 0xC0000001

abbrev pub invalid_parameter : ℕ
invalid_parameter = 0xC000000D

abbrev pub object_name_not_found : ℕ
object_name_not_found = 0xC0000034

abbrev pub port_disconnected : ℕ
port_disconnected = 0xC0000037

abbrev pub object_path_invalid : ℕ
object_path_invalid = 0xC0000039

abbrev pub revision_mismatch : ℕ
revision_mismatch = 0xC0000059

abbrev pub insufficient_resources : ℕ
insufficient_resources = 0xC000009A

abbrev pub not_supported : ℕ
not_supported = 0xC00000BB

abbrev pub name_too_long : ℕ
name_too_long = 0xC0000106

abbrev pub invalid_device_state : ℕ
invalid_device_state = 0xC0000184

abbrev pub not_found : ℕ
not_found = 0xC0000225

abbrev pub connection_count_limit : ℕ
connection_count_limit = 0xC0000246
