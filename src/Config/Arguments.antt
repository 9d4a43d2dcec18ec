-- ===== src/Config/Arguments.antt =====
-- The loop of `from_args` in src/config.rs: arguments one after another, and the arguments that print
-- a configuration.
use cachebox.Prelude.{
  ◌≡◌, refl, sym, ap, ◌∙◌, ◌⊎◌, inl, inr, Option, none, some, List, [], ◌∷◌, ◌++◌, arith,
  Option-cases, Result-cases, Result, ok, err,
}
use mathlib.Core.Path.{subst}
use mathlib.Core.Option.{some-injective}
use cachebox.Bytes.{Text, same_text}
use cachebox.Config.Laws.{from_args_eq, no_default}
use cachebox.Config.Options.{
  Config, ConfigError, help_requested, missing_value, unknown_argument, ◌>>=◌, value_of,
  parse_nonzero_usize, parse_number, Flag, help, bind, native_bind, native_unix, max_body_bytes,
  max_memory_bytes, max_value_bytes, cleanup_interval_ms, cleanup_max_entries_per_tick, flag_text,
  flag_of, default, apply_flag, apply_argument, apply_arguments, from_args,
}

-- An error that more arguments would not change.
abbrev pub IsFinal : ConfigError → Type 0
IsFinal (missing_value flag) = ⊥
IsFinal e = Unit

pub flag_of-flag_text : (flag : Flag) → flag_of (flag_text flag) ≡ some flag
unfolding flag_of same_text
flag_of-flag_text help = refl
flag_of-flag_text bind = refl
flag_of-flag_text native_bind = refl
flag_of-flag_text native_unix = refl
flag_of-flag_text max_body_bytes = refl
flag_of-flag_text max_memory_bytes = refl
flag_of-flag_text max_value_bytes = refl
flag_of-flag_text cleanup_interval_ms = refl
flag_of-flag_text cleanup_max_entries_per_tick = refl

pub err-injective :
    {A : Type 0} {d e : ConfigError} → ◌≡◌ {A = Result ConfigError A} (err d) (err e) → d ≡ e
err-injective h = ground (arith, h)

-- What a turn without a value to take answers: the value is missing, or the turn takes none.
IsLast : {A : Type 0} → Text → Result ConfigError A → Result ConfigError A → Type 0
IsLast argument alone next =
    (alone ≡ err (missing_value argument)) ⊎ ((e : ConfigError) × (alone ≡ err e) × (next ≡ err e))

module _ {Addr : Type 0} (parse_addr : Text → Option Addr) where
  IsLast-flag :
      (flag : Flag) (argument next : Text) (c : Config Addr)
      → IsLast argument
          (apply_flag parse_addr flag argument none c)
          (apply_flag parse_addr flag argument (some next) c)
  unfolding IsLast apply_flag value_of ◌>>=◌ parse_nonzero_usize parse_number
  IsLast-flag help argument next c = inr (help_requested, refl, refl)
  IsLast-flag bind argument next c = inl refl
  IsLast-flag native_bind argument next c = inl refl
  IsLast-flag native_unix argument next c = inl refl
  IsLast-flag max_body_bytes argument next c = inl refl
  IsLast-flag max_memory_bytes argument next c = inl refl
  IsLast-flag max_value_bytes argument next c = inl refl
  IsLast-flag cleanup_interval_ms argument next c = inl refl
  IsLast-flag cleanup_max_entries_per_tick argument next c = inl refl

  IsLast-argument :
      (argument next : Text) (c : Config Addr)
      → IsLast argument
          (apply_argument parse_addr argument none c)
          (apply_argument parse_addr argument (some next) c)
  unfolding apply_argument IsLast
  IsLast-argument argument next c = elim (Option-cases (flag_of argument)) [
    | inl unknown ↦ rw (unknown, apply_argument) (inr (unknown_argument argument, refl, refl))
    | inr (flag, known) ↦ rw (known, apply_argument) (IsLast-flag flag argument next c)
  ]

  pub step_ok :
      (argument v : Text) (xs : List Text) (c d : Config Addr)
      → apply_argument parse_addr argument (some v) c ≡ ok d
      → apply_arguments parse_addr (argument ∷ v ∷ xs) c ≡ apply_arguments parse_addr xs d
  unfolding apply_arguments ◌>>=◌
  step_ok argument v xs c d h =
      ap (λ (r : Result ConfigError (Config Addr)). r >>= apply_arguments parse_addr xs) h

  pub step_err :
      (argument v : Text) (xs : List Text) (c : Config Addr) (e : ConfigError)
      → apply_argument parse_addr argument (some v) c ≡ err e
      → apply_arguments parse_addr (argument ∷ v ∷ xs) c ≡ err e
  unfolding apply_arguments ◌>>=◌
  step_err argument v xs c e h =
      ap (λ (r : Result ConfigError (Config Addr)). r >>= apply_arguments parse_addr xs) h

  help_turn :
      (next : Option Text) (c : Config Addr)
      → apply_argument parse_addr (flag_text help) next c ≡ err help_requested
  unfolding apply_argument apply_flag
  help_turn next c = rw (flag_of-flag_text help, apply_argument) refl

  alone :
      (argument : Text) (c : Config Addr)
      → apply_arguments parse_addr (argument ∷ []) c ≡ apply_argument parse_addr argument none c
  unfolding apply_arguments
  alone argument c = refl

  pub nothing : (c : Config Addr) → apply_arguments parse_addr [] c ≡ ok c
  unfolding apply_arguments
  nothing c = refl

  -- A line that is accepted leaves the rest of the arguments to be read.
  pub apply_arguments-append :
      (xs ys : List Text) (c d : Config Addr)
      → apply_arguments parse_addr xs c ≡ ok d
      → apply_arguments parse_addr (xs ++ ys) c ≡ apply_arguments parse_addr ys d
  unfolding IsLast
  apply_arguments-append [] ys c d h = ground (arith, h, nothing c)
  apply_arguments-append (argument ∷ []) ys c d h =
      ground (arith, h, alone argument c, IsLast-argument argument [] c)
  apply_arguments-append (argument ∷ v ∷ xs) ys c d h =
      elim (Result-cases (apply_argument parse_addr argument (some v) c)) [
        | inl (e, bad) ↦ ground (arith, h, step_err argument v xs c e bad)
        | inr (c', good) ↦
            step_ok argument v (xs ++ ys) c c' good
            ∙ apply_arguments-append xs ys c' d (sym (step_ok argument v xs c c' good) ∙ h)
      ]

  -- An error that more arguments would not change stays.
  pub apply_arguments_error :
      (xs ys : List Text) (c : Config Addr) (e : ConfigError)
      → IsFinal e
      → apply_arguments parse_addr xs c ≡ err e
      → apply_arguments parse_addr (xs ++ ys) c ≡ err e
  unfolding IsLast
  apply_arguments_error [] ys c e f h = ground (arith, h, nothing c)
  apply_arguments_error (argument ∷ []) [] c e f h = h
  apply_arguments_error (argument ∷ []) (y ∷ ys) c e f h = elim (IsLast-argument argument y c) [
    | inl missing ↦ absurd (subst IsFinal (err-injective (sym h ∙ (alone argument c ∙ missing))) f)
    | inr (e', one, two) ↦
        step_err argument y ys c e' two ∙ (sym one ∙ (sym (alone argument c) ∙ h))
  ]
  apply_arguments_error (argument ∷ v ∷ xs) ys c e f h =
      elim (Result-cases (apply_argument parse_addr argument (some v) c)) [
        | inl (e', bad) ↦
            ground
              (arith, h, step_err argument v xs c e' bad, step_err argument v (xs ++ ys) c e' bad)
        | inr (c', good) ↦
            step_ok argument v (xs ++ ys) c c' good
            ∙ apply_arguments_error xs ys c' e f (sym (step_ok argument v xs c c' good) ∙ h)
      ]

  -- What more arguments make of a result.
  unfoldable pub continue :
      Result ConfigError (Config Addr) → List Text → Result ConfigError (Config Addr)
  continue (ok c) ys = apply_arguments parse_addr ys c
  continue (err e) ys = err e

  -- A result that no missing value cuts short.
  abbrev pub IsSettled : Result ConfigError (Config Addr) → Type 0
  IsSettled (ok c) = Unit
  IsSettled (err e) = IsFinal e

  apply_arguments-continue :
      (xs ys : List Text) (c : Config Addr) (r : Result ConfigError (Config Addr))
      → IsSettled r
      → apply_arguments parse_addr xs c ≡ r
      → apply_arguments parse_addr (xs ++ ys) c ≡ continue r ys
  unfolding continue
  apply_arguments-continue xs ys c (ok d) settled e = apply_arguments-append xs ys c d e
  apply_arguments-continue xs ys c (err x) settled e = apply_arguments_error xs ys c x settled e

  -- More arguments are read with the settings that an accepted line gave, and do not change the first error,
  -- unless it is a missing value.
  pub from_args_prefix :
      (xs ys : List Text) (r : Result ConfigError (Config Addr))
      → IsSettled r
      → from_args parse_addr xs ≡ some r
      → from_args parse_addr (xs ++ ys) ≡ some (continue r ys)
  from_args_prefix xs ys r settled e = elim (Option-cases (default parse_addr)) [
    | inl bad ↦ ground (arith, e, no_default parse_addr xs bad)
    | inr (d, found) ↦
        from_args_eq parse_addr (xs ++ ys) d found
        ∙ ap some (
            apply_arguments-continue xs ys d r settled
              (some-injective _ _ (sym (from_args_eq parse_addr xs d found) ∙ e)))
  ]

  pub from_args-append :
      (xs ys : List Text) (c : Config Addr)
      → from_args parse_addr xs ≡ some (ok c)
      → from_args parse_addr (xs ++ ys) ≡ some (apply_arguments parse_addr ys c)
  unfolding continue apply_arguments
  from_args-append xs ys c e = from_args_prefix xs ys (ok c) tt e

  pub help_first :
      (ys : List Text) (c : Config Addr)
      → apply_arguments parse_addr (flag_text help ∷ ys) c ≡ err help_requested
  help_first [] c = alone (flag_text help) c ∙ help_turn none c
  help_first (y ∷ ys) c = step_err (flag_text help) y ys c help_requested (help_turn (some y) c)
