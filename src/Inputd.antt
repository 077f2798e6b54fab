-- ===== src/Inputd.antt =====
-- src/hawck-inputd.cpp: the options of the input daemon, the devices that it listens on, and its pid
-- file.
pub mod Devices
pub mod Exit
mod Examples
use hawck.Prelude.{
  ℕ, ◌≡◌, Bool, true, false, not, ◌&&◌, ◌||◌, List, [], ◌∷◌, ◌++◌, Option, none, some, Str, codes,
  str_eq, if◌then◌else◌,
}
use hawck.Prelude.Int.{ℤ, pos}
use hawck.Effect.{
  Result, ok, err, system_error, socket_error, keyboard_error, process_ended, Action, proceed,
  ◌>>=◌, ◌>>◌,
}
use hawck.Paths.{string_ends_with, string_starts_with}
use hawck.KbdManager.Hotplug.{by_id_is_keyboard}
use hawck.Daemon.{Processes, kill_pretender, clear_pid_file}

-- What `getopt_long` gives: an option that sets a flag, another long option with its argument, the short
-- options, and what it does not know.
pub data Opt : Type 0 where
  sets_flag : Opt
  long_option : Str → Str → Opt
  kbd_device : Str → Opt
  kbd_name : Str → Opt
  help : Opt
  unknown : Opt
  unexpected : Opt

pub record Settings : Type 0 where
  pub udev_event_delay : ℤ
  pub socket_timeout : ℤ
  pub kbd_devices : List Str

abbrev pub defaults : Settings
defaults = record { udev_event_delay = pos 3800; socket_timeout = pos 1024; kbd_devices = [] }

-- How the loop over the options ends.
pub data Parsed : Type 0 where
  settings : Settings → Parsed
  exits : Parsed
  aborts : Parsed

module _ (stoi : Str → Option ℤ) where
  -- `numOption`: a number that cannot be read ends the program.
  abbrev pub num_option : Str → (ℤ → Parsed) → Parsed
  num_option opt rest = elim (stoi opt) [ none ↦ exits | some n ↦ rest n ]

  -- The loop over the options.
  unfoldable pub parse : List Opt → Settings → Parsed
  parse [] s = settings s
  parse (sets_flag ∷ opts) s = parse opts s
  parse (long_option name arg ∷ opts) s =
      let passed = parse opts s in
      let delay = num_option arg (λ n. parse opts (record s { udev_event_delay = n })) in
      let timeout = num_option arg (λ n. parse opts (record s { socket_timeout = n })) in
      if str_eq name (codes "version")
      then exits
      else if str_eq name (codes "udev-event-delay")
      then delay
      else if str_eq name (codes "socket-timeout")
      then timeout
      else passed
  parse (kbd_device path ∷ opts) s =
      parse opts (record s { kbd_devices = s.kbd_devices ++ path ∷ [] })
  parse (kbd_name name ∷ opts) s = parse opts s
  parse (help ∷ opts) s = exits
  parse (unknown ∷ opts) s = parse opts s
  parse (unexpected ∷ opts) s = aborts

-- What is called on paths; a directory that cannot be listed has no entries.
pub record Listing : Type 0 where
  pub realpath_safe : Str → Str
  pub basename : Str → Str
  pub by_id : Option (List Str)
  pub by_path : Option (List Str)

abbrev pub has_device : Str → List Str → Bool
has_device rpath [] = false
has_device rpath (d ∷ devices) = str_eq d rpath || has_device rpath devices

module _ (L : Listing) where
  unfoldable pub add_by_id : List Str → List Str → List Str
  add_by_id [] devices = devices
  add_by_id (path ∷ paths) devices =
      add_by_id paths
        (if by_id_is_keyboard path then devices ++ L.realpath_safe path ∷ [] else devices)

  abbrev pub is_internal : Str → Bool
  is_internal path =
      string_starts_with (L.basename path) (codes "platform-i8042")
      && string_ends_with path (codes "-event-kbd")

  unfoldable pub add_by_path : List Str → List Str → List Str
  add_by_path [] devices = devices
  add_by_path (path ∷ paths) devices =
      let rpath = L.realpath_safe path in
      add_by_path paths (
        if not (has_device rpath devices) && is_internal path
        then devices ++ rpath ∷ []
        else devices)

  abbrev pub entries : Option (List Str) → List Str
  entries none = []
  entries (some paths) = paths

  -- The devices that the daemon listens on.
  unfoldable pub find_devices : List Str → List Str
  find_devices [] = add_by_path (entries L.by_path) (add_by_id (entries L.by_id) [])
  find_devices (d ∷ devices) = d ∷ devices

module _ (P : Processes) where
  open P use {W}

  abbrev pub pid_file : Str
  pid_file = codes "/var/lib/hawck-input/pid"

  -- The handler of `SystemError`, which is thrown again; nothing else is caught.
  unfoldable pub caught : ℕ → Result (Unit {0}) × W → Result (Unit {0}) × W
  caught indeterminate (ok u, w) = (ok tt, w)
  caught indeterminate (err system_error, w) =
      (clear_pid_file P indeterminate pid_file >> λ u. (err system_error, u)) w
  caught indeterminate (err socket_error, w) = (err socket_error, w)
  caught indeterminate (err keyboard_error, w) = (err keyboard_error, w)
  caught indeterminate (err process_ended, w) = (err process_ended, w)

  -- The end of `main`: `body` is the block of the daemon, on the files and processes.
  unfoldable pub run_main : ℕ → Action W Unit → Action W Unit
  run_main indeterminate body = kill_pretender P pid_file >>= λ _ w. caught indeterminate (body w)
