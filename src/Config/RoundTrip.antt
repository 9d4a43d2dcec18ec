-- ===== src/Config/RoundTrip.antt =====
-- src/config.rs: the arguments that a configuration is printed to, and `from_args` on them.
use cachebox.Prelude.{
  ℕ, ◌≤◌, ◌≡◌, refl, ap, ◌∙◌, true, Option, none, some, List, [], ◌∷◌, ◌++◌, arith, ok, is_some,
  u64_max,
}
use cachebox.Bytes.{Text}
use cachebox.Engine.Lease.{decimal}
use cachebox.Config.Numbers.{parse_u64-decimal}
use cachebox.Config.Laws.{IsConfig, IsLimit, IsPath, from_args_eq}
use cachebox.Config.Arguments.{flag_of-flag_text, step_ok, nothing}
use cachebox.Config.Options.{
  Config, ConfigError, ◌>>=◌, value_of, or_error, parse_nonzero_usize, parse_number, Flag, bind,
  native_bind, native_unix, max_body_bytes, max_memory_bytes, max_value_bytes, cleanup_interval_ms,
  cleanup_max_entries_per_tick, flag_text, default, apply_flag, apply_argument, apply_arguments,
  from_args,
}

parse_nonzero_usize-decimal :
    (flag : Text) (error : Text → ConfigError) (n : ℕ)
    → IsLimit n
    → parse_nonzero_usize flag (some (decimal n)) error ≡ ok n
unfolding parse_nonzero_usize value_of or_error ◌>>=◌
parse_nonzero_usize-decimal flag error n h = rw (parse_u64-decimal n h.1) (ground (arith, h.0))

parse_number-decimal :
    (flag : Text) (error : Text → ConfigError) (n : ℕ)
    → n ≤ u64_max
    → parse_number flag (some (decimal n)) error ≡ ok n
unfolding parse_number value_of or_error ◌>>=◌
parse_number-decimal flag error n h = rw (parse_u64-decimal n h) refl

module _ {Addr : Type 0} (parse_addr : Text → Option Addr) (show_addr : Addr → Text) where
  optional : Flag → Option Text → List Text
  optional flag none = []
  optional flag (some value) = flag_text flag ∷ value ∷ []

  shown : Option Addr → Option Text
  shown none = none
  shown (some a) = some (show_addr a)

  limits_of : Config Addr → List Text
  limits_of c =
      flag_text max_body_bytes
      ∷ decimal c.max_body_bytes
      ∷ flag_text max_memory_bytes
      ∷ decimal c.max_memory_bytes
      ∷ flag_text max_value_bytes
      ∷ decimal c.max_value_bytes
      ∷ flag_text cleanup_interval_ms
      ∷ decimal c.cleanup_interval_ms
      ∷ flag_text cleanup_max_entries_per_tick
      ∷ decimal c.cleanup_max_entries_per_tick
      ∷ []

  -- A command line that gives every setting.
  unfoldable pub arguments_of : Config Addr → List Text
  unfolding optional shown limits_of
  arguments_of c =
      optional native_unix c.native_unix_socket
      ++ (optional native_bind (shown c.native_bind_addr)
          ++ (flag_text bind ∷ show_addr c.bind_addr ∷ limits_of c))

  no_path : (d : Config Addr) → default parse_addr ≡ some d → d.native_unix_socket ≡ none
  unfolding default
  no_path d found = ground (arith, found)

  step :
      (flag : Flag) (v : Text) (rest : List Text) (c d : Config Addr)
      → apply_flag parse_addr flag (flag_text flag) (some v) c ≡ ok d
      → apply_arguments parse_addr (flag_text flag ∷ v ∷ rest) c ≡ apply_arguments parse_addr rest d
  unfolding apply_argument
  step flag v rest c d h =
      step_ok parse_addr (flag_text flag) v rest c d (rw (flag_of-flag_text flag, apply_argument) h)

  unix_step :
      (path : Option Text) (rest : List Text) (c : Config Addr)
      → IsPath path
      → c.native_unix_socket ≡ none
      → apply_arguments parse_addr (optional native_unix path ++ rest) c
        ≡ apply_arguments parse_addr rest (record c { native_unix_socket = path })
  unfolding optional apply_flag ◌>>=◌ value_of
  unix_step none rest c h e =
      ap
        (λ (p : Option Text). apply_arguments parse_addr rest (record c { native_unix_socket = p }))
        e
  unix_step (some path) rest c h e =
      step native_unix path rest c (record c { native_unix_socket = some path }) (rw h refl)

  module _ (back : (a : Addr) → parse_addr (show_addr a) ≡ some a) where
    bind_step :
        (a : Addr) (rest : List Text) (c : Config Addr)
        → apply_arguments parse_addr (flag_text bind ∷ show_addr a ∷ rest) c
          ≡ apply_arguments parse_addr rest (record c { bind_addr = a })
    unfolding apply_flag ◌>>=◌ value_of or_error
    bind_step a rest c =
        step bind (show_addr a) rest c (record c { bind_addr = a }) (rw (back a) refl)

    native_step :
        (a : Option Addr) (rest : List Text) (c : Config Addr)
        → is_some a ≡ true
        → apply_arguments parse_addr (optional native_bind (shown a) ++ rest) c
          ≡ apply_arguments parse_addr rest (record c { native_bind_addr = a })
    unfolding optional shown apply_flag ◌>>=◌ value_of or_error
    native_step none rest c h = ground (arith, h)
    native_step (some a) rest c h =
        step native_bind (show_addr a) rest c (record c { native_bind_addr = some a })
          (rw (back a) refl)

    -- The limits, one after another.
    limit_steps :
        (c d : Config Addr)
        → IsConfig c
        → apply_arguments parse_addr (limits_of c) d
          ≡ ok (record c {
            bind_addr = d.bind_addr;
            native_bind_addr = d.native_bind_addr;
            native_unix_socket = d.native_unix_socket;
          })
    unfolding limits_of apply_flag ◌>>=◌
    limit_steps c d h =
        let d1 = record d { max_body_bytes = c.max_body_bytes } in
        let d2 = record d1 { max_memory_bytes = c.max_memory_bytes } in
        let d3 = record d2 { max_value_bytes = c.max_value_bytes } in
        let d4 = record d3 { cleanup_interval_ms = c.cleanup_interval_ms } in
        let d5 = record d4 { cleanup_max_entries_per_tick = c.cleanup_max_entries_per_tick } in
        step max_body_bytes (decimal c.max_body_bytes) _ d d1 (
          rw
            (parse_nonzero_usize-decimal (flag_text max_body_bytes)
              ConfigError.invalid_max_body_bytes c.max_body_bytes h.body)
            refl)
        ∙ (step max_memory_bytes (decimal c.max_memory_bytes) _ d1 d2 (
              rw
                (parse_nonzero_usize-decimal (flag_text max_memory_bytes)
                  ConfigError.invalid_max_memory_bytes c.max_memory_bytes h.memory)
                refl)
            ∙ (step max_value_bytes (decimal c.max_value_bytes) _ d2 d3 (
                  rw
                    (parse_nonzero_usize-decimal (flag_text max_value_bytes)
                      ConfigError.invalid_max_value_bytes c.max_value_bytes h.value)
                    refl)
                ∙ (step cleanup_interval_ms (decimal c.cleanup_interval_ms) _ d3 d4 (
                      rw
                        (parse_number-decimal (flag_text cleanup_interval_ms)
                          ConfigError.invalid_cleanup_interval_ms c.cleanup_interval_ms h.interval)
                        refl)
                    ∙ (step cleanup_max_entries_per_tick (decimal c.cleanup_max_entries_per_tick) _
                          d4 d5
                          (rw
                            (parse_nonzero_usize-decimal (flag_text cleanup_max_entries_per_tick)
                              ConfigError.invalid_cleanup_max_entries_per_tick
                              c.cleanup_max_entries_per_tick h.per_tick)
                            refl)
                        ∙ (nothing parse_addr d5)))))

    -- The printed arguments of a configuration give it back.
    pub from_args-arguments_of :
        (c d : Config Addr)
        → IsConfig c
        → default parse_addr ≡ some d
        → from_args parse_addr (arguments_of c) ≡ some (ok c)
    unfolding arguments_of
    from_args-arguments_of c d h found =
        let d1 = record d { native_unix_socket = c.native_unix_socket } in
        let d2 = record d1 { native_bind_addr = c.native_bind_addr } in
        let d3 = record d2 { bind_addr = c.bind_addr } in
        from_args_eq parse_addr (arguments_of c) d found
        ∙ ap some (
            unix_step c.native_unix_socket _ d h.path (no_path d found)
            ∙ (native_step c.native_bind_addr _ d1 h.native
                ∙ (bind_step c.bind_addr (limits_of c) d2 ∙ limit_steps c d3 h)))
