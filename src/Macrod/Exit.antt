-- ===== src/Macrod/Exit.antt =====
-- What src/hawck-macrod.cpp leaves in its pid file.
use hawck.Prelude.{ℕ, ◌≡◌, refl, ap, ◌∙◌, Bool, true, false, none, some, Str, if◌then◌else◌}
use hawck.Effect.{
  Error, Result, ok, err, system_error, socket_error, keyboard_error, process_ended, Action,
  proceed,
}
use hawck.Daemon.{Processes, kill_pretender}
use hawck.Daemon.PidFile.{kill_pretender_kills}
use hawck.Inputd.Exit.{clear_own}
use hawck.Macrod.{thrown_again, handled, run_main}

abbrev pub is_thrown : {A : Type 0} → Result A → Bool
is_thrown (ok a) = false
is_thrown (err process_ended) = false
is_thrown (err system_error) = true
is_thrown (err socket_error) = true
is_thrown (err keyboard_error) = true

module _ (P : Processes) where
  open P use {W}

  again :
      (indeterminate : ℕ) (file : Str) (e : Error) (w : W)
      → P.read_pid file w ≡ some P.getpid
      → (P.flock file w).0 ≡ true
      → (P.read_pid file (thrown_again P indeterminate file e w).1 ≡ none)
        × ((thrown_again P indeterminate file e w).0 ≡ err e)
  again indeterminate file e w mine taken =
      let (cleared, gone) = clear_own P indeterminate file w mine taken in
      rw (cleared, proceed) (gone, refl)

  handled_pid :
      (indeterminate : ℕ) (file : Str) (r : Result (Unit {0}) × W)
      → P.read_pid file r.1 ≡ some P.getpid
      → (P.flock file r.1).0 ≡ true
      → (P.read_pid file (handled P indeterminate file r).1
          ≡ (if is_thrown r.0 then none else some P.getpid))
        × ((handled P indeterminate file r).0 ≡ r.0)
  unfolding handled
  handled_pid indeterminate file (ok tt, w) mine taken = (mine, refl)
  handled_pid indeterminate file (err process_ended, w) mine taken = (mine, refl)
  handled_pid indeterminate file (err system_error, w) mine taken =
      again indeterminate file system_error w mine taken
  handled_pid indeterminate file (err socket_error, w) mine taken =
      again indeterminate file socket_error w mine taken
  handled_pid indeterminate file (err keyboard_error, w) mine taken =
      again indeterminate file keyboard_error w mine taken

  -- Where the daemon leaves the pid file alone, and the file can be locked: if the daemon can be made,
  -- `main` ends as `run` does, and the file is empty if that was by an exception, of whatever class, and
  -- has the number of the process else.
  pub run_main-made :
      (indeterminate : ℕ) (file : Str) (construct run : Action W Unit) (w v : W)
      → (kill_pretender P file w).0 ≡ ok tt
      → construct (kill_pretender P file w).1 ≡ (ok tt, v)
      → P.read_pid file (run v).1 ≡ P.read_pid file (kill_pretender P file w).1
      → (P.flock file (run v).1).0 ≡ true
      → (P.read_pid file (run_main P indeterminate file construct run w).1
          ≡ (if is_thrown (run v).0 then none else some P.getpid))
        × ((run_main P indeterminate file construct run w).0 ≡ (run v).0)
  unfolding run_main
  run_main-made indeterminate file construct run w v started made kept taken =
      let mine = (kill_pretender_kills P file 0 w started).0 in
      rw (started, proceed, ap (λ r. r.0) made, ap (λ r. r.1) made)
        (handled_pid indeterminate file (run v) (kept ∙ mine) taken)

  -- If the daemon cannot be made, the file keeps the number of the process that ends.
  pub run_main-unmade :
      (indeterminate : ℕ) (file : Str) (construct run : Action W Unit) (w v : W) (e : Error)
      → (kill_pretender P file w).0 ≡ ok tt
      → construct (kill_pretender P file w).1 ≡ (err e, v)
      → P.read_pid file v ≡ P.read_pid file (kill_pretender P file w).1
      → (P.read_pid file (run_main P indeterminate file construct run w).1 ≡ some P.getpid)
        × ((run_main P indeterminate file construct run w).0 ≡ err e)
  unfolding run_main
  run_main-unmade indeterminate file construct run w v e started made kept =
      let mine = (kill_pretender_kills P file 0 w started).0 in
      rw (started, proceed, ap (λ r. r.0) made, ap (λ r. r.1) made) (kept ∙ mine, refl)
