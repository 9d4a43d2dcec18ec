-- ===== src/Process/Texts.antt =====
-- The texts that the process prints: `Display` of the errors and `help_text` of src/config.rs, and
-- `startup_report` of src/server.rs.
use cachebox.Prelude.{ℕ, Option, none, some, List, [], ◌∷◌, ◌++◌}
use cachebox.Bytes.{Text, text}
use cachebox.Engine.Lease.{decimal}
use cachebox.Config.Options.{
  Config, ConfigError, default_bind_addr, default_native_bind_addr, default_max_body_bytes,
  default_max_memory_bytes, default_max_value_bytes, default_cleanup_interval_ms,
  default_cleanup_max_entries_per_tick,
}

-- `impl fmt::Display for ConfigError`
unfoldable pub error_text : ConfigError → Text
error_text ConfigError.help_requested = text "help requested"
error_text (ConfigError.missing_value flag) = text "missing value for " ++ flag
error_text (ConfigError.unknown_argument argument) = text "unknown argument: " ++ argument
error_text (ConfigError.invalid_bind_address value) = text "invalid bind address: " ++ value
error_text (ConfigError.invalid_native_bind_address value) =
    text "invalid native bind address: " ++ value
error_text (ConfigError.invalid_native_unix_socket value) =
    text "invalid native Unix socket path: " ++ value
error_text (ConfigError.invalid_max_body_bytes value) =
    text "invalid max body byte limit: " ++ value
error_text (ConfigError.invalid_max_memory_bytes value) =
    text "invalid max memory byte limit: " ++ value
error_text (ConfigError.invalid_max_value_bytes value) =
    text "invalid max value byte limit: " ++ value
error_text (ConfigError.invalid_cleanup_interval_ms value) =
    text "invalid cleanup interval in milliseconds: " ++ value
error_text (ConfigError.invalid_cleanup_max_entries_per_tick value) =
    text "invalid cleanup max entries per tick: " ++ value

concat : List Text → Text
concat [] = []
concat (x ∷ xs) = x ++ concat xs

unfoldable pub help_text : Text → Text
unfolding concat
help_text program_name = concat (
    text "Cachebox cache server\n"
    ∷ text "\n"
    ∷ text "Usage:\n"
    ∷ text "  "
    ∷ program_name
    ∷ text " [--bind <addr:port>] [--native-bind <addr:port>] [--native-unix <path>]"
    ∷ text " [--max-body-bytes <bytes>] [--max-memory-bytes <bytes>] [--max-value-bytes"
    ∷ text " <bytes>] [--cleanup-interval-ms <ms>] [--cleanup-max-entries-per-tick"
    ∷ text " <count>]\n"
    ∷ text "  "
    ∷ program_name
    ∷ text " --help\n"
    ∷ text "\n"
    ∷ text "Options:\n"
    ∷ text "  --bind <addr:port>  Address for the HTTP admin server to bind.\n"
    ∷ text "                      Default: "
    ∷ default_bind_addr
    ∷ text "\n"
    ∷ text "  --native-bind <addr:port>\n"
    ∷ text "                      Address for the native TCP data-plane listener.\n"
    ∷ text "                      Default: "
    ∷ default_native_bind_addr
    ∷ text "\n"
    ∷ text "  --native-unix <path>\n"
    ∷ text "                      Path for the native Unix socket data-plane listener.\n"
    ∷ text "                      Disabled unless provided. Unix platforms only.\n"
    ∷ text "  --max-body-bytes    Maximum accepted request body size.\n"
    ∷ text "                      Default: "
    ∷ decimal default_max_body_bytes
    ∷ text "\n"
    ∷ text "  --max-memory-bytes  Maximum estimated in-memory cache size.\n"
    ∷ text "                      Default: "
    ∷ decimal default_max_memory_bytes
    ∷ text "\n"
    ∷ text "  --max-value-bytes   Maximum single cached value size.\n"
    ∷ text "                      Default: "
    ∷ decimal default_max_value_bytes
    ∷ text "\n"
    ∷ text "  --cleanup-interval-ms\n"
    ∷ text "                      Background expired-entry cleanup interval in"
    ∷ text " milliseconds.\n"
    ∷ text "                      Use 0 to disable background cleanup.\n"
    ∷ text "                      Default: "
    ∷ decimal default_cleanup_interval_ms
    ∷ text "\n"
    ∷ text "  --cleanup-max-entries-per-tick\n"
    ∷ text "                      Maximum expired entries reclaimed per cleanup tick.\n"
    ∷ text "                      Default: "
    ∷ decimal default_cleanup_max_entries_per_tick
    ∷ text "\n"
    ∷ text "  -h, --help          Print this help text.\n"
    ∷ [])

pub record StartupReport : Type 0 where
  pub admin_bind_addr : Text
  pub native_bind_addr : Option Text
  pub native_unix_socket : Option Text
  pub max_body_bytes : ℕ
  pub max_memory_bytes : ℕ
  pub max_value_bytes : ℕ
  pub cleanup_interval_ms : ℕ
  pub cleanup_max_entries_per_tick : ℕ

-- `Option::map`, for an address that is shown
unfoldable pub map_option : {A B : Type 0} → (A → B) → Option A → Option B
map_option f none = none
map_option f (some a) = some (f a)

-- `to_string` of an address is the standard library's, and so is `display` of a path, which changes
-- bytes that are no text.
unfoldable pub startup_report :
    {Addr : Type 0} → (Addr → Text) → (Text → Text) → Config Addr → StartupReport
unfolding map_option
startup_report to_string display config = record {
  admin_bind_addr = to_string config.bind_addr;
  native_bind_addr = map_option to_string config.native_bind_addr;
  native_unix_socket = map_option display config.native_unix_socket;
  max_body_bytes = config.max_body_bytes;
  max_memory_bytes = config.max_memory_bytes;
  max_value_bytes = config.max_value_bytes;
  cleanup_interval_ms = config.cleanup_interval_ms;
  cleanup_max_entries_per_tick = config.cleanup_max_entries_per_tick;
}

-- `as_deref().unwrap_or("disabled")`
unfoldable pub or_disabled : Option Text → Text
or_disabled none = text "disabled"
or_disabled (some shown) = shown

-- What `main` prints of the report.
unfoldable pub report_lines : StartupReport → List Text
unfolding or_disabled
report_lines report =
    (text "admin_bind_addr=" ++ report.admin_bind_addr)
    ∷ (text "native_bind_addr=" ++ or_disabled report.native_bind_addr)
    ∷ (text "native_unix_socket=" ++ or_disabled report.native_unix_socket)
    ∷ (text "max_body_bytes=" ++ decimal report.max_body_bytes)
    ∷ (text "max_memory_bytes=" ++ decimal report.max_memory_bytes)
    ∷ (text "max_value_bytes=" ++ decimal report.max_value_bytes)
    ∷ (text "cleanup_interval_ms=" ++ decimal report.cleanup_interval_ms)
    ∷ (text "cleanup_max_entries_per_tick=" ++ decimal report.cleanup_max_entries_per_tick)
    ∷ []
