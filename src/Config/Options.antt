-- ===== src/Config/Options.antt =====
-- src/config.rs: `Config`, its defaults, `ConfigError`, and `from_args`, the loop over the arguments.
-- The parser of socket addresses is the standard library's, and a parameter.
use cachebox.Prelude.{
  ℕ, ◌*◌, ◌||◌, Option, none, some, List, [], ◌∷◌, ◌==◌, if◌then◌else◌, Result, ok, err,
}
use cachebox.Prelude.{is_empty}
use cachebox.Bytes.{Text, text, same_text}
use cachebox.Config.Numbers.{parse_u64}

abbrev pub default_bind_addr : Text
default_bind_addr = text "127.0.0.1:7400"

abbrev pub default_native_bind_addr : Text
default_native_bind_addr = text "127.0.0.1:7401"

abbrev pub default_max_body_bytes : ℕ
default_max_body_bytes = 8 * 1024 * 1024

abbrev pub default_max_memory_bytes : ℕ
default_max_memory_bytes = 64 * 1024 * 1024

abbrev pub default_max_value_bytes : ℕ
default_max_value_bytes = 8 * 1024 * 1024

abbrev pub default_cleanup_interval_ms : ℕ
default_cleanup_interval_ms = 250

abbrev pub default_cleanup_max_entries_per_tick : ℕ
default_cleanup_max_entries_per_tick = 128

-- `Config`, over the type of socket addresses
pub record Config (Addr : Type 0) : Type 0 where
  pub bind_addr : Addr
  pub native_bind_addr : Option Addr
  pub native_unix_socket : Option Text
  pub max_body_bytes : ℕ
  pub max_memory_bytes : ℕ
  pub max_value_bytes : ℕ
  pub cleanup_interval_ms : ℕ
  pub cleanup_max_entries_per_tick : ℕ

pub data ConfigError : Type 0 where
  help_requested : ConfigError
  missing_value unknown_argument : Text → ConfigError
  invalid_bind_address invalid_native_bind_address invalid_native_unix_socket : Text → ConfigError
  invalid_max_body_bytes invalid_max_memory_bytes invalid_max_value_bytes : Text → ConfigError
  invalid_cleanup_interval_ms invalid_cleanup_max_entries_per_tick : Text → ConfigError

-- `?` in a function that returns a result
infixl 20 ◌>>=◌
unfoldable pub ◌>>=◌ {ℓ κ} :
    {A : Type ℓ} {B : Type κ}
    → Result ConfigError A
    → (A → Result ConfigError B)
    → Result ConfigError B
ok a >>= f = f a
err e >>= f = err e

-- `value.ok_or_else(|| ConfigError::MissingValue { flag })`
unfoldable pub value_of : Text → Option Text → Result ConfigError Text
value_of flag none = err (missing_value flag)
value_of flag (some value) = ok value

-- `parsed.map_err(|_| error(value))`
unfoldable pub or_error {ℓ} : {A : Type ℓ} → ConfigError → Option A → Result ConfigError A
or_error e none = err e
or_error e (some a) = ok a

unfoldable pub parse_nonzero_usize :
    Text → Option Text → (Text → ConfigError) → Result ConfigError ℕ
unfolding value_of or_error ◌>>=◌
parse_nonzero_usize flag value error = do
  value ← value_of flag value
  parsed ← or_error (error value) (parse_u64 value)
  if parsed == 0 then err (error value) else ok parsed

-- `parse_u64` of src/config.rs: the number of a flag
unfoldable pub parse_number : Text → Option Text → (Text → ConfigError) → Result ConfigError ℕ
unfolding value_of or_error ◌>>=◌
parse_number flag value error = do
  value ← value_of flag value
  or_error (error value) (parse_u64 value)

-- The patterns of the `match` in `from_args`.
pub data Flag : Type 0 where
  help bind native_bind native_unix : Flag
  max_body_bytes max_memory_bytes max_value_bytes : Flag
  cleanup_interval_ms cleanup_max_entries_per_tick : Flag

abbrev pub flag_text : Flag → Text
flag_text help = text "--help"
flag_text bind = text "--bind"
flag_text native_bind = text "--native-bind"
flag_text native_unix = text "--native-unix"
flag_text max_body_bytes = text "--max-body-bytes"
flag_text max_memory_bytes = text "--max-memory-bytes"
flag_text max_value_bytes = text "--max-value-bytes"
flag_text cleanup_interval_ms = text "--cleanup-interval-ms"
flag_text cleanup_max_entries_per_tick = text "--cleanup-max-entries-per-tick"

unfoldable pub flag_of : Text → Option Flag
flag_of argument =
    if same_text argument (text "-h") || same_text argument (flag_text help)
    then some help
    else if same_text argument (flag_text bind)
    then some bind
    else if same_text argument (flag_text native_bind)
    then some native_bind
    else if same_text argument (flag_text native_unix)
    then some native_unix
    else if same_text argument (flag_text max_body_bytes)
    then some max_body_bytes
    else if same_text argument (flag_text max_memory_bytes)
    then some max_memory_bytes
    else if same_text argument (flag_text max_value_bytes)
    then some max_value_bytes
    else if same_text argument (flag_text cleanup_interval_ms)
    then some cleanup_interval_ms
    else if same_text argument (flag_text cleanup_max_entries_per_tick)
    then some cleanup_max_entries_per_tick
    else none

module _ {Addr : Type 0} (parse_addr : Text → Option Addr) where
  -- `Config::default`: `none` is the panic of `expect`.
  unfoldable pub default : Option (Config Addr)
  default = elim (parse_addr default_bind_addr) [
    | none ↦ none
    | some bind_addr ↦ elim (parse_addr default_native_bind_addr) [
      | none ↦ none
      | some native_bind_addr ↦ some (record {
        bind_addr = bind_addr;
        native_bind_addr = some native_bind_addr;
        native_unix_socket = none;
        max_body_bytes = default_max_body_bytes;
        max_memory_bytes = default_max_memory_bytes;
        max_value_bytes = default_max_value_bytes;
        cleanup_interval_ms = default_cleanup_interval_ms;
        cleanup_max_entries_per_tick = default_cleanup_max_entries_per_tick;
      })
    ]
  ]

  -- The arms of the `match`; `next` is what `args.next()` gives.
  unfoldable pub apply_flag :
      Flag → Text → Option Text → Config Addr → Result ConfigError (Config Addr)
  unfolding ◌>>=◌ value_of or_error
  apply_flag help argument next config = err help_requested
  apply_flag bind argument next config = do
    value ← value_of argument next
    addr ← or_error (invalid_bind_address value) (parse_addr value)
    ok (record config { bind_addr = addr })
  apply_flag native_bind argument next config = do
    value ← value_of argument next
    addr ← or_error (invalid_native_bind_address value) (parse_addr value)
    ok (record config { native_bind_addr = some addr })
  apply_flag native_unix argument next config = do
    value ← value_of argument next
    if is_empty value
        then err (invalid_native_unix_socket value)
        else ok (record config { native_unix_socket = some value })
  apply_flag max_body_bytes argument next config = do
    limit ← parse_nonzero_usize argument next invalid_max_body_bytes
    ok (record config { max_body_bytes = limit })
  apply_flag max_memory_bytes argument next config = do
    limit ← parse_nonzero_usize argument next invalid_max_memory_bytes
    ok (record config { max_memory_bytes = limit })
  apply_flag max_value_bytes argument next config = do
    limit ← parse_nonzero_usize argument next invalid_max_value_bytes
    ok (record config { max_value_bytes = limit })
  apply_flag cleanup_interval_ms argument next config = do
    interval ← parse_number argument next invalid_cleanup_interval_ms
    ok (record config { cleanup_interval_ms = interval })
  apply_flag cleanup_max_entries_per_tick argument next config = do
    limit ← parse_nonzero_usize argument next invalid_cleanup_max_entries_per_tick
    ok (record config { cleanup_max_entries_per_tick = limit })

  -- One turn of the loop.
  unfoldable pub apply_argument :
      Text → Option Text → Config Addr → Result ConfigError (Config Addr)
  apply_argument argument next config = elim (flag_of argument) [
    | none ↦ err (unknown_argument argument)
    | some flag ↦ apply_flag flag argument next config
  ]

  -- `while let Some(argument) = args.next()`: a turn that goes on has taken one value.
  unfoldable pub apply_arguments : List Text → Config Addr → Result ConfigError (Config Addr)
  unfolding ◌>>=◌
  apply_arguments [] config = ok config
  apply_arguments (argument ∷ []) config = apply_argument argument none config
  apply_arguments (argument ∷ value ∷ args) config = do
    config ← apply_argument argument (some value) config
    apply_arguments args config

  unfoldable pub from_args : List Text → Option (Result ConfigError (Config Addr))
  from_args args = elim default [ none ↦ none | some config ↦ some (apply_arguments args config) ]
