-- ===== src/Inputd/Exit.antt =====
-- What src/hawck-inputd.cpp leaves in its pid file.
use hawck.Prelude.{
  ℕ, ◌≡◌, refl, ◌∙◌, Bool, true, false, none, some, Str, ◌==◌, ==_iff, if◌then◌else◌,
}
use hawck.Effect.{
  Result, ok, err, system_error, socket_error, keyboard_error, process_ended, Action, proceed,
}
use hawck.Daemon.{Processes, read_or, kill_pretender, clear_pid_file}
use hawck.Daemon.PidFile.{kill_pretender_kills}
use hawck.Inputd.{pid_file, caught, run_main}

-- Whether it is the exception that `main` catches.
abbrev pub is_caught : {A : Type 0} → Result A → Bool
is_caught (ok a) = false
is_caught (err system_error) = true
is_caught (err socket_error) = false
is_caught (err keyboard_error) = false
is_caught (err process_ended) = false

module _ (P : Processes) where
  open P use {W}

  pub clear_own :
      (indeterminate : ℕ) (file : Str) (u : W)
      → P.read_pid file u ≡ some P.getpid
      → (P.flock file u).0 ≡ true
      → ((clear_pid_file P indeterminate file u).0 ≡ ok tt)
        × (P.read_pid file (clear_pid_file P indeterminate file u).1 ≡ none)
  unfolding clear_pid_file
  clear_own indeterminate file u mine taken =
      let u' = (P.flock file u).1 in
      let here : P.read_pid file u' ≡ some P.getpid = P.read-flock file u ∙ mine in
      let same : (P.getpid == P.getpid) ≡ true = (==_iff P.getpid P.getpid).1 refl in
      rw (taken, here, same, clear_pid_file, read_or)
        (refl, P.read-unlock file (P.write_pid file none u') ∙ P.read-write file none u')

  caught_pid :
      (indeterminate : ℕ) (r : Result (Unit {0}) × W)
      → P.read_pid (pid_file P) r.1 ≡ some P.getpid
      → (P.flock (pid_file P) r.1).0 ≡ true
      → P.read_pid (pid_file P) (caught P indeterminate r).1
        ≡ (if is_caught r.0 then none else some P.getpid)
  unfolding caught
  caught_pid indeterminate (ok u, w) mine taken = mine
  caught_pid indeterminate (err system_error, w) mine taken =
      let (cleared, gone) = clear_own indeterminate (pid_file P) w mine taken in
      rw (cleared, proceed) gone
  caught_pid indeterminate (err socket_error, w) mine taken = mine
  caught_pid indeterminate (err keyboard_error, w) mine taken = mine
  caught_pid indeterminate (err process_ended, w) mine taken = mine

  -- Where the daemon leaves the pid file alone, and the file can be locked, the file is empty at the end
  -- of `main` only if the daemon ends by a `SystemError`; after a `SocketError`, or a `KeyboardError`, as
  -- for a device that cannot be opened, it has the number of the process still.
  pub run_main_pid :
      (indeterminate : ℕ) (body : Action W Unit) (w : W)
      → (kill_pretender P (pid_file P) w).0 ≡ ok tt
      → P.read_pid (pid_file P) (body (kill_pretender P (pid_file P) w).1).1
        ≡ P.read_pid (pid_file P) (kill_pretender P (pid_file P) w).1
      → (P.flock (pid_file P) (body (kill_pretender P (pid_file P) w).1).1).0 ≡ true
      → P.read_pid (pid_file P) (run_main P indeterminate body w).1
        ≡ (if is_caught (body (kill_pretender P (pid_file P) w).1).0 then none else some P.getpid)
  unfolding run_main
  run_main_pid indeterminate body w started kept taken =
      let mine = (kill_pretender_kills P (pid_file P) 0 w started).0 in
      rw (started, proceed)
        (caught_pid indeterminate (body (kill_pretender P (pid_file P) w).1) (kept ∙ mine) taken)
