-- ===== src/Macrod.antt =====
-- src/hawck-macrod.cpp: the options of the macro daemon's program, and its pid file.
pub mod Exit
mod Examples
use hawck.Prelude.{ℕ, Bool, true, false, List, [], ◌∷◌, Str, codes, str_eq, if◌then◌else◌}
use hawck.Effect.{
  Error, Result, ok, err, system_error, socket_error, keyboard_error, process_ended, Action,
  proceed, ◌>>=◌, ◌>>◌,
}
use hawck.Daemon.{
  Unix, Process, Ended, goes_on, daemonize, Processes, kill_pretender, clear_pid_file,
}

-- What `getopt_long` gives: the option that sets the flag, another long option, `-h`, and what it does
-- not know.
pub data Opt : Type 0 where
  no_fork : Opt
  long_option : Str → Opt
  help unknown unexpected : Opt

-- How the loop over the options ends: with the flag, or with the program.
pub data Parsed : Type 0 where
  starts : Bool → Parsed
  exits aborts : Parsed

unfoldable pub parse : List Opt → Bool → Parsed
parse [] flag = starts flag
parse (no_fork ∷ opts) flag = parse opts true
parse (long_option name ∷ opts) flag =
    let passed = parse opts flag in if str_eq name (codes "version") then exits else passed
parse (help ∷ opts) flag = exits
parse (unknown ∷ opts) flag = parse opts flag
parse (unexpected ∷ opts) flag = aborts

-- The step into the background, after the directory of the log was made.
unfoldable pub background : Unix → Bool → Str → Process → Ended
background U no_fork_flag log p = if no_fork_flag then goes_on p else daemonize U log p

module _ (P : Processes) where
  open P use {W}

  abbrev pub thrown_again : ℕ → Str → Error → Action W Unit
  thrown_again indeterminate pid_file e = clear_pid_file P indeterminate pid_file >> λ u. (err e, u)

  -- The handler of every exception, which is thrown again.
  unfoldable pub handled : ℕ → Str → Result (Unit {0}) × W → Result (Unit {0}) × W
  handled indeterminate pid_file (ok u, w) = (ok tt, w)
  handled indeterminate pid_file (err process_ended, w) = (err process_ended, w)
  handled indeterminate pid_file (err system_error, w) =
      thrown_again indeterminate pid_file system_error w
  handled indeterminate pid_file (err socket_error, w) =
      thrown_again indeterminate pid_file socket_error w
  handled indeterminate pid_file (err keyboard_error, w) =
      thrown_again indeterminate pid_file keyboard_error w

  -- The end of `main`: the constructor of the daemon stands before the `try`.
  unfoldable pub run_main : ℕ → Str → Action W Unit → Action W Unit → Action W Unit
  run_main indeterminate pid_file construct run =
      kill_pretender P pid_file >> construct >>= λ _ w. handled indeterminate pid_file (run w)
