-- ===== src/Process/Main.antt =====
-- src/main.rs: from the arguments to the exit code. `server::run` is a parameter here: what it
-- returns, `none` for `Ok(())`.
use cachebox.Prelude.{
  ℕ, ◌<◌, ◌≡◌, refl, sym, ap, ◌∙◌, ◌≢◌, ◌↔◌, inl, inr, Option, none, some, List, [], ◌∷◌, ◌++◌,
  arith, Option-cases, Result, ok, err, drop,
}
use mathlib.Core.Option.{some-injective}
use cachebox.Bytes.{Text, text}
use cachebox.Config.Options.{Config, ConfigError, help_requested, help, flag_text, from_args}
use cachebox.Config.Arguments.{from_args-append, help_first, err-injective}
use cachebox.Process.Texts.{error_text, help_text, startup_report, report_lines}

-- What a run of the process leaves behind: lines on both streams, and `ExitCode`.
pub record Exit : Type 0 where
  pub stdout : List Text
  pub stderr : List Text
  pub code : ℕ

-- `env::args().next().unwrap_or_else(|| "cachebox".to_string())`
unfoldable pub program_name : List Text → Text
program_name [] = text "cachebox"
program_name (name ∷ args) = name

module _ {Addr : Type 0} (parse_addr : Text → Option Addr) (to_string : Addr → Text)
    (display : Text → Text) (run : Config Addr → Option Text) where
  -- The arm of a configuration, after the report: by the result of `server::run`.
  unfoldable pub exit_of_run : List Text → Option Text → Exit
  exit_of_run report none = record { stdout = report; stderr = []; code = 0 }
  exit_of_run report (some error) = record {
    stdout = report;
    stderr = (text "cachebox: failed to run server: " ++ error) ∷ [];
    code = 1;
  }

  -- The arms of the `match` in `main`.
  unfoldable pub exit_of : Text → Result ConfigError (Config Addr) → Exit
  exit_of name (ok config) =
      exit_of_run (report_lines (startup_report to_string display config)) (run config)
  exit_of name (err help_requested) = record { stdout = help_text name ∷ []; stderr = []; code = 0 }
  exit_of name (err error) = record {
    stdout = [];
    stderr =
        (text "cachebox: " ++ error_text error) ∷ (text "try '" ++ name ++ text " --help'") ∷ [];
    code = 2;
  }

  -- `main`, on the arguments with the name of the program in front; `none` is a panic.
  unfoldable pub main : List Text → Option Exit
  unfolding program_name
  main args = elim (from_args parse_addr (drop 1 args)) [
    | none ↦ none
    | some result ↦ some (exit_of (program_name args) result)
  ]

  exit_of_run-code : (report : List Text) (r : Option Text) → (exit_of_run report r).code < 2
  unfolding exit_of_run
  exit_of_run-code report none = omega arith
  exit_of_run-code report (some error) = omega arith

  help-code : (name : Text) (e : ConfigError) → e ≡ help_requested → (exit_of name (err e)).code ≡ 0
  unfolding exit_of
  help-code name e h = rw h refl

  refused-code :
      (name : Text) (e : ConfigError) → e ≢ help_requested → (exit_of name (err e)).code ≡ 2
  unfolding exit_of
  refused-code name e h = ground (arith, h)

  -- Of the arguments only an error other than a request of help gives the exit code 2.
  exit_of-code :
      (name : Text) (r : Result ConfigError (Config Addr))
      → ((exit_of name r).code ≡ 2) ↔ ((e : ConfigError) × (r ≡ err e) × (e ≢ help_requested))
  unfolding exit_of
  exit_of-code name (ok config) =
      (λ two. absurd (omega (arith, two, exit_of_run-code _ (run config))), λ h. ground (arith, h))
  exit_of-code name (err e) = (
    λ two. (e, refl, λ same. omega (arith, two, help-code name e same)),
    λ h. refused-code name e (λ same. h.2 (err-injective (sym h.1) ∙ same)),
  )

  main_eq :
      (args : List Text) (r : Result ConfigError (Config Addr))
      → from_args parse_addr (drop 1 args) ≡ some r
      → main args ≡ some (exit_of (program_name args) r)
  unfolding main
  main_eq args r h = rw (h, main) refl

  main_panics : (args : List Text) → from_args parse_addr (drop 1 args) ≡ none → main args ≡ none
  unfolding main
  main_panics args h = rw (h, main) refl

  -- The process ends with the exit code 2 exactly if its arguments are refused with another error than
  -- the request of help.
  pub main-code :
      (args : List Text) (out : Exit)
      → main args ≡ some out
      → (out.code ≡ 2) ↔ (
          (e : ConfigError) × (from_args parse_addr (drop 1 args) ≡ some (err e))
          × (e ≢ help_requested))
  main-code args out h = elim (Option-cases (from_args parse_addr (drop 1 args))) [
    | inl bad ↦ ground (arith, h, main_panics args bad)
    | inr (r, found) ↦
        let same = some-injective _ _ (sym (main_eq args r found) ∙ h) in
        let law = exit_of-code (program_name args) r in
        (
          λ two.
              let w = law.0 (ap (λ (x : Exit). x.code) same ∙ two) in
              (w.0, found ∙ ap some w.1, w.2),
          λ w.
              ap (λ (x : Exit). x.code) (sym same)
              ∙ law.1 (w.0, some-injective _ _ (sym found ∙ w.1), w.2),
        )
  ]

  -- A request of help after an accepted line prints the help and ends with success, whatever follows.
  pub main-help :
      (name : Text) (xs ys : List Text) (c : Config Addr)
      → from_args parse_addr xs ≡ some (ok c)
      → main (name ∷ (xs ++ flag_text help ∷ ys))
        ≡ some (record { stdout = help_text name ∷ []; stderr = []; code = 0 })
  unfolding exit_of program_name
  main-help name xs ys c h = main_eq (name ∷ (xs ++ flag_text help ∷ ys)) (err help_requested) (
      from_args-append parse_addr xs (flag_text help ∷ ys) c h
      ∙ ap some (help_first parse_addr ys c))
