-- ===== src/Config/Laws.antt =====
-- What src/config.rs accepts and refuses: the limits of a configuration, and how the errors of the
-- arguments come about.
use cachebox.Prelude.{
  ℕ, ◌≤◌, ◌<◌, ◌≡◌, refl, sym, ◌∙◌, inl, inr, true, false, Option, none, some, List, [], ◌∷◌, arith,
  ◌==◌, if◌then◌else◌, Bool-cases, Option-cases, Result, ok, err, is_some, u64_max,
}
use cachebox.Prelude.{is_empty}
use mathlib.Core.Path.{subst}
use mathlib.Core.Option.{some-injective}
use cachebox.Bytes.{Text}
use cachebox.Config.Numbers.{parse_u64, parse_u64_bounds}
use cachebox.Config.Options.{
  Config, ConfigError, ◌>>=◌, value_of, or_error, parse_nonzero_usize, parse_number, Flag, help,
  bind, native_bind, native_unix, max_body_bytes, max_memory_bytes, max_value_bytes,
  cleanup_interval_ms, cleanup_max_entries_per_tick, flag_of, default, apply_flag, apply_argument,
  apply_arguments, from_args,
}

-- A limit that the server can work with.
abbrev pub IsLimit : ℕ → Type 0
IsLimit n = (0 < n) × (n ≤ u64_max)

abbrev pub IsPath : Option Text → Type 0
IsPath none = Unit
IsPath (some path) = is_empty path ≡ false

-- The settings that a command line can give.
pub record IsConfig {Addr : Type 0} (c : Config Addr) : Type 0 where
  pub native : is_some c.native_bind_addr ≡ true
  pub path : IsPath c.native_unix_socket
  pub body : IsLimit c.max_body_bytes
  pub memory : IsLimit c.max_memory_bytes
  pub value : IsLimit c.max_value_bytes
  pub interval : c.cleanup_interval_ms ≤ u64_max
  pub per_tick : IsLimit c.cleanup_max_entries_per_tick

-- What a result promises if it is not an error.
abbrev pub OnOk {ℓ} : {A : Type ℓ} → (A → Type 0) → Result ConfigError A → Type 0
OnOk P (ok a) = P a
OnOk P (err e) = Unit

OnOk-bind {ℓ κ} :
    {A : Type ℓ} {B : Type κ} (P : A → Type 0) (Q : B → Type 0) (m : Result ConfigError A)
    (f : A → Result ConfigError B)
    → OnOk P m
    → ((a : A) → P a → OnOk Q (f a))
    → OnOk Q (m >>= f)
unfolding ◌>>=◌
OnOk-bind P Q (ok a) f h g = g a h
OnOk-bind P Q (err e) f h g = tt

parse_nonzero_usize_bounds :
    (flag : Text) (value : Option Text) (error : Text → ConfigError)
    → OnOk IsLimit (parse_nonzero_usize flag value error)
unfolding parse_nonzero_usize value_of or_error ◌>>=◌
parse_nonzero_usize_bounds flag none error = tt
parse_nonzero_usize_bounds flag (some value) error = elim (Option-cases (parse_u64 value)) [
  | inl bad ↦ rw bad tt
  | inr (n, good) ↦ elim (Bool-cases (n == 0)) [
    | inl nil ↦ rw good (rw nil tt)
    | inr pos ↦ rw good (rw pos (ground (arith, pos), parse_u64_bounds n value good))
  ]
]

parse_number_bounds :
    (flag : Text) (value : Option Text) (error : Text → ConfigError)
    → OnOk (λ n. n ≤ u64_max) (parse_number flag value error)
unfolding parse_number value_of or_error ◌>>=◌
parse_number_bounds flag none error = tt
parse_number_bounds flag (some value) error = elim (Option-cases (parse_u64 value)) [
  | inl bad ↦ rw bad tt
  | inr (n, good) ↦ rw good (parse_u64_bounds n value good)
]

OnOk-any {ℓ} : {A : Type ℓ} (m : Result ConfigError A) → OnOk (λ _. Unit) m
OnOk-any (ok a) = tt
OnOk-any (err e) = tt

native_unix_path :
    {Addr : Type 0} (path : Text) (c : Config Addr)
    → IsConfig c
    → OnOk IsConfig (
        if is_empty path
        then err (ConfigError.invalid_native_unix_socket path)
        else ok (record c { native_unix_socket = some path }))
native_unix_path path c h = elim (Bool-cases (is_empty path)) [
  | inl empty ↦ rw empty tt
  | inr full ↦ rw full (ground (arith, full))
]

module _ {Addr : Type 0} (parse_addr : Text → Option Addr) where
  apply_flag-IsConfig :
      (flag : Flag) (argument : Text) (next : Option Text) (c : Config Addr)
      → IsConfig c
      → OnOk IsConfig (apply_flag parse_addr flag argument next c)
  unfolding apply_flag
  apply_flag-IsConfig help argument next c h = tt
  apply_flag-IsConfig bind argument next c h =
      OnOk-bind (λ _. Unit) IsConfig _ _ (OnOk-any (value_of argument next))
        (λ v _.
          OnOk-bind (λ _. Unit) IsConfig _ _ (OnOk-any (or_error _ (parse_addr v)))
            (λ addr _. ground arith))
  apply_flag-IsConfig native_bind argument next c h =
      OnOk-bind (λ _. Unit) IsConfig _ _ (OnOk-any (value_of argument next))
        (λ v _.
          OnOk-bind (λ _. Unit) IsConfig _ _ (OnOk-any (or_error _ (parse_addr v)))
            (λ addr _. ground arith))
  apply_flag-IsConfig native_unix argument next c h =
      OnOk-bind (λ _. Unit) IsConfig _ _ (OnOk-any (value_of argument next))
        (λ v _. native_unix_path v c h)
  apply_flag-IsConfig max_body_bytes argument next c h =
      OnOk-bind IsLimit IsConfig _ _
        (parse_nonzero_usize_bounds argument next ConfigError.invalid_max_body_bytes)
        (λ n b. ground arith)
  apply_flag-IsConfig max_memory_bytes argument next c h =
      OnOk-bind IsLimit IsConfig _ _
        (parse_nonzero_usize_bounds argument next ConfigError.invalid_max_memory_bytes)
        (λ n b. ground arith)
  apply_flag-IsConfig max_value_bytes argument next c h =
      OnOk-bind IsLimit IsConfig _ _
        (parse_nonzero_usize_bounds argument next ConfigError.invalid_max_value_bytes)
        (λ n b. ground arith)
  apply_flag-IsConfig cleanup_interval_ms argument next c h =
      OnOk-bind (λ n. n ≤ u64_max) IsConfig _ _
        (parse_number_bounds argument next ConfigError.invalid_cleanup_interval_ms)
        (λ n b. ground arith)
  apply_flag-IsConfig cleanup_max_entries_per_tick argument next c h =
      OnOk-bind IsLimit IsConfig _ _
        (parse_nonzero_usize_bounds argument next ConfigError.invalid_cleanup_max_entries_per_tick)
        (λ n b. ground arith)

  apply_argument-IsConfig :
      (argument : Text) (next : Option Text) (c : Config Addr)
      → IsConfig c
      → OnOk IsConfig (apply_argument parse_addr argument next c)
  unfolding apply_argument
  apply_argument-IsConfig argument next c h = elim (Option-cases (flag_of argument)) [
    | inl unknown ↦ rw (unknown, OnOk) tt
    | inr (flag, known) ↦ rw (known, OnOk) (apply_flag-IsConfig flag argument next c h)
  ]

  apply_arguments-IsConfig :
      (args : List Text) (c : Config Addr)
      → IsConfig c
      → OnOk IsConfig (apply_arguments parse_addr args c)
  unfolding apply_arguments
  apply_arguments-IsConfig [] c h = h
  apply_arguments-IsConfig (argument ∷ []) c h = apply_argument-IsConfig argument none c h
  apply_arguments-IsConfig (argument ∷ v ∷ args) c h =
      OnOk-bind IsConfig IsConfig _ _ (apply_argument-IsConfig argument (some v) c h)
        (λ d good. apply_arguments-IsConfig args d good)

  default-IsConfig : (c : Config Addr) → default parse_addr ≡ some c → IsConfig c
  unfolding default
  default-IsConfig c e = ground (arith, e)

  pub from_args_eq :
      (args : List Text) (d : Config Addr)
      → default parse_addr ≡ some d
      → from_args parse_addr args ≡ some (apply_arguments parse_addr args d)
  unfolding from_args
  from_args_eq args d found = rw (found, from_args) refl

  pub no_default : (args : List Text) → default parse_addr ≡ none → from_args parse_addr args ≡ none
  unfolding from_args
  no_default args bad = rw (bad, from_args) refl

  -- A configuration that the arguments give has its limits above 0 and in the range of their types, a
  -- native address, and no empty path.
  pub from_args-IsConfig :
      (args : List Text) (c : Config Addr) → from_args parse_addr args ≡ some (ok c) → IsConfig c
  from_args-IsConfig args c e = elim (Option-cases (default parse_addr)) [
    | inl bad ↦ ground (arith, e, no_default args bad)
    | inr (d, found) ↦
        subst (OnOk IsConfig) (some-injective _ _ (sym (from_args_eq args d found) ∙ e))
          (apply_arguments-IsConfig args d (default-IsConfig d found))
  ]
