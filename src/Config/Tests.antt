-- ===== src/Config/Tests.antt =====
-- Runs of the parser of src/config.rs at concrete arguments.
use cachebox.Prelude.{◌≡◌, refl, Option, none, some, List, [], ◌∷◌, ◌++◌, ok, err}
use cachebox.Bytes.{Text, text, same_text}
use cachebox.Config.Numbers.{parse_digits, parse_u64}
use cachebox.Config.Options.{
  Config, ConfigError, ◌>>=◌, value_of, or_error, parse_nonzero_usize, flag_of, default, apply_flag,
  apply_argument, apply_arguments, from_args,
}
use cachebox.Config.Laws.{IsConfig, from_args-IsConfig}
use cachebox.Config.Arguments.{continue, from_args_prefix}
use cachebox.Config.RoundTrip.{arguments_of, from_args-arguments_of}

-- Addresses that are any text.
abbrev any : Text → Option Text
any t = some t

abbrev line : List Text
line =
    text "--max-memory-bytes"
    ∷ text "1000"
    ∷ text "--bind"
    ∷ text "a:1"
    ∷ text "--max-memory-bytes"
    ∷ text "2000"
    ∷ []

abbrev set : Config Text
set = record {
  bind_addr = text "a:1";
  native_bind_addr = some (text "127.0.0.1:7401");
  native_unix_socket = none;
  max_body_bytes = 8388608;
  max_memory_bytes = 2000;
  max_value_bytes = 8388608;
  cleanup_interval_ms = 250;
  cleanup_max_entries_per_tick = 128;
}

line-accepted : from_args any line ≡ some (ok set)
unfolding from_args default apply_arguments apply_argument apply_flag flag_of same_text value_of
    or_error parse_nonzero_usize parse_u64 parse_digits ◌>>=◌
line-accepted = refl

zero_refused :
    from_args any (text "--max-body-bytes" ∷ text "0" ∷ [])
    ≡ some (err (ConfigError.invalid_max_body_bytes (text "0")))
unfolding from_args default apply_arguments apply_argument apply_flag flag_of same_text value_of
    or_error parse_nonzero_usize parse_u64 parse_digits ◌>>=◌
zero_refused = refl

from_args-IsConfig_example : IsConfig set
from_args-IsConfig_example = from_args-IsConfig any line set line-accepted

from_args_prefix_example :
    from_args any (line ++ text "--unknown" ∷ [])
    ≡ some (continue any (ok set) (text "--unknown" ∷ []))
from_args_prefix_example =
    from_args_prefix any line (text "--unknown" ∷ []) (ok set) tt line-accepted

started :
    default any
    ≡ some (record set { bind_addr = text "127.0.0.1:7400"; max_memory_bytes = 67108864 })
unfolding default
started = refl

from_args-arguments_of_example : from_args any (arguments_of any (λ t. t) set) ≡ some (ok set)
from_args-arguments_of_example =
    from_args-arguments_of any (λ t. t) (λ t. refl) set
      (record set { bind_addr = text "127.0.0.1:7400"; max_memory_bytes = 67108864 })
      (from_args-IsConfig any line set line-accepted) started
