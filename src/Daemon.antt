-- ===== src/Daemon.antt =====
-- src/Daemon.cpp: how a program becomes a daemon, and its pid file.
pub mod Streams
pub mod PidFile
mod Examples
use hawck.Prelude.{
  ℕ, zero, suc, ◌+◌, ◌≡◌, ◌&&◌, ◌||◌, Bool, true, false, [], ◌∷◌, Option, none, some, Str, codes,
  str_eq, ◌==◌, if◌then◌else◌,
}
use hawck.Keyboard.Opening.{decimal}
use hawck.Paths.{path_join}
use hawck.Effect.{Result, ok, err, system_error, process_ended, Action, proceed, ◌>>=◌, ◌>>◌}

-- The open files of a process, by descriptor.
abbrev pub Fds : Type 0
Fds = ℕ → Option Str

abbrev pub assign : ℕ → Option Str → Fds → Fds
assign fd file fds = λ n. if fd == n then file else fds n

abbrev pub close : ℕ → Fds → Fds
close fd fds = assign fd none fds

-- `dup2`: it fails if the first descriptor is not open.
abbrev pub dup2 : ℕ → ℕ → Fds → Fds
dup2 old new fds = elim (fds old) [ none ↦ fds | some file ↦ assign new (some file) fds ]

-- The loop that closes the descriptors below `maxfd`.
unfoldable pub close_all : ℕ → Fds → Fds
close_all zero fds = fds
close_all (suc maxfd) fds = close maxfd (close_all maxfd fds)

pub data Forked : Type 0 where
  fork_failed in_child in_parent : Forked

-- What the process calls. `open_file` gives a descriptor that is not in use, if the file can be opened.
pub record Unix : Type 0 where
  pub open_file : Str → Fds → Option ℕ
  pub open-free : (path : Str) (fds : Fds) (fd : ℕ) → open_file path fds ≡ some fd → fds fd ≡ none
  pub first_fork : Forked
  pub second_fork : Forked
  pub setsid : Bool
  pub chdir : Str → Bool
  pub open_max : Option ℕ

-- What a process changes of itself.
pub record Process : Type 0 where
  pub fds : Fds
  pub umask : ℕ
  pub cwd : Str
  pub leads_session : Bool

-- How a function that has to do with processes ends: with the process that goes on,
-- by `abort`, by an exception, or by the exit of the process.
pub data Ended : Type 0 where
  goes_on : Process → Ended
  aborts : Ended
  throws : Ended
  exits : Ended

module _ (U : Unix) where
  -- The calls of `dup2`, and the end of the three files.
  abbrev pub dup_and_close : ℕ → ℕ → ℕ → Fds → Fds
  dup_and_close dev_null out error fds =
      close dev_null (close out (close error (dup2 2 error (dup2 1 out (dup2 0 dev_null fds)))))

  -- `dup_streams`.
  unfoldable pub dup_streams : Str → Str → Process → Ended
  dup_streams stdout_path stderr_path p = elim (U.open_file (codes "/dev/null") p.fds) [
    | none ↦ aborts
    | some dev_null ↦
        let fds1 = assign dev_null (some (codes "/dev/null")) p.fds in
        elim (U.open_file stdout_path fds1) [
          | none ↦ throws
          | some out ↦
              let fds2 = assign out (some stdout_path) fds1 in
              elim (U.open_file stderr_path fds2) [
                | none ↦ throws
                | some error ↦ goes_on (record p {
                  fds = dup_and_close dev_null out error (assign error (some stderr_path) fds2);
                })
              ]
        ]
  ]

  -- `forkThrough`, before what follows it.
  abbrev pub fork_through : Forked → Ended → Ended
  fork_through fork_failed rest = throws
  fork_through in_child rest = rest
  fork_through in_parent rest = exits

  abbrev pub max_fd : ℕ
  max_fd = elim U.open_max [ none ↦ 8192 | some n ↦ n ]

  -- `daemonize`.
  unfoldable pub daemonize : Str → Process → Ended
  daemonize logfile_path p =
      let leader = record p { leads_session = true } in
      let child = record leader { leads_session = false } in
      let closed = record child { umask = 0; cwd = codes "/"; fds = close_all max_fd child.fds } in
      let rest = dup_streams logfile_path logfile_path closed in
      fork_through U.first_fork (
        if U.setsid
        then fork_through U.second_fork (if U.chdir (codes "/") then rest else throws)
        else throws)

-- The pid file, and the processes. `read_pid` is what `>>` reads from a file, if it has a number;
-- `write_pid` writes a number or an empty line. `locked` says whether the process has the lock of a
-- file, and `killed` which processes it has sent SIGTERM.
pub record Processes : Type 1 where
  pub W : Type 0
  pub getpid : ℕ
  pub basename : Str → Str
  pub readlink : Str → W → Option Str
  pub flock : Str → W → Bool × W
  pub unlock : Str → W → W
  pub read_pid : Str → W → Option ℕ
  pub write_pid : Str → Option ℕ → W → W
  pub kill : ℕ → W → W
  pub locked : W → Str → Bool
  pub killed : W → ℕ → Bool
  pub read-write :
      (file : Str) (pid : Option ℕ) (w : W) → read_pid file (write_pid file pid w) ≡ pid
  pub read-unlock : (file : Str) (w : W) → read_pid file (unlock file w) ≡ read_pid file w
  pub read-flock : (file : Str) (w : W) → read_pid file (flock file w).1 ≡ read_pid file w
  pub locked-unlock : (file : Str) (w : W) → locked (unlock file w) file ≡ false
  pub killed-kill :
      (pid n : ℕ) (w : W)
      → (pid == 0) ≡ false
      → killed (kill pid w) n ≡ (if pid == n then true else killed w n)
  pub killed-write :
      (file : Str) (pid : Option ℕ) (n : ℕ) (w : W) → killed (write_pid file pid w) n ≡ killed w n
  pub killed-unlock : (file : Str) (n : ℕ) (w : W) → killed (unlock file w) n ≡ killed w n
  pub killed-flock : (file : Str) (n : ℕ) (w : W) → killed (flock file w).1 n ≡ killed w n
  pub readlink-flock : (file path : Str) (w : W) → readlink path (flock file w).1 ≡ readlink path w

module _ (P : Processes) where
  open P use {W}

  -- `Flocka` around the rest of a function.
  abbrev pub with_lock : Str → (W → W) → Action W Unit
  with_lock file body w =
      let (taken, w') = P.flock file w in
      if taken then (ok tt, P.unlock file (body w')) else (err system_error, w')

  abbrev pub read_or : ℕ → Str → W → ℕ
  read_or initial file w = elim (P.read_pid file w) [ none ↦ initial | some pid ↦ pid ]

  -- The path of the program of a process; a link that cannot be read gives the empty string.
  unfoldable pub pidexe : ℕ → W → Str
  pidexe pid w =
      elim (P.readlink (path_join (codes "/proc") (decimal 10 pid [] ∷ codes "exe" ∷ [])) w) [
        | none ↦ []
        | some path ↦ path
      ]

  abbrev pub is_pretender : ℕ → W → Bool
  is_pretender old_pid w = str_eq (P.basename (pidexe old_pid w)) (P.basename (pidexe P.getpid w))

  -- SIGTERM ends the process that sends it to itself, or to 0, which stands for its own group.
  abbrev pub is_own : ℕ → Bool
  is_own pid = pid == P.getpid || pid == 0

  unfoldable pub kill_pretender : Str → Action W Unit
  kill_pretender pid_file w =
      let (taken, w1) = P.flock pid_file w in
      let old_pid = read_or 0 pid_file w1 in
      let w2 = if is_pretender old_pid w1 then P.kill old_pid w1 else w1 in
      let written = P.unlock pid_file (P.write_pid pid_file (some P.getpid) w2) in
      if taken
      then (if is_pretender old_pid w1 && is_own old_pid
          then (err process_ended, w2)
          else (ok tt, written))
      else (err system_error, w1)

  -- `clearPidFile`: `pid` has no value before it is read.
  unfoldable pub clear_pid_file : ℕ → Str → Action W Unit
  clear_pid_file indeterminate pid_file =
      with_lock pid_file
        λ w. if read_or indeterminate pid_file w == P.getpid then P.write_pid pid_file none w else w
