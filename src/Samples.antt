-- ===== src/Samples.antt =====
-- Small implementations of what the program calls, for the tests: devices, a socket, scripts.
use hawck.Daemon.{Processes}
use hawck.Prelude.{
  ◌-◌, ◌+◌, map, Bool, Option, ℕ, refl, true, false, List, [], ◌∷◌, ◌++◌, none, some, codes, ◌==◌,
  arith, if◌then◌else◌,
}
use hawck.Prelude.Int.{pos, ℤ, is_neg}
use hawck.Keyboard.Opening.{Info, Opens}
use hawck.Input.{InputEvent, KbdAction, ev_key, zero_id, zero_action}
use hawck.Effect.{Result, ok, err, socket_error}
use hawck.Udev.{Uinput}
use hawck.Remote.{Link}
use hawck.Macro.{Scripting, emit_call, flush_call, matched}
use hawck.InputLoop.{Outside}
use hawck.Macro.Loading.{Files}
use hawck.Permissions.{System}
use hawck.Keyboard.{Devices, Keyboard, KbdState}

abbrev pub key_event : ℕ → ℕ → InputEvent
key_event code value = record { time = 7; type = ev_key; code = code; value = value }

-- A kernel device that accepts every write, and on which the keys 1 and 10 are down.
abbrev pub device : Uinput
device = record {
  W = List InputEvent;
  write = λ ev w. (true, w ++ ev ∷ []);
  key_states = λ w. some (2 ∷ 4 ∷ []);
  log = λ w. w;
  log-write = λ ev w. refl;
}

-- A kernel device that refuses the key 5.
abbrev pub picky_device : Uinput
picky_device = record {
  W = List InputEvent;
  write = λ ev w. (if ev.code == 5 then false else true, if ev.code == 5 then w else w ++ ev ∷ []);
  key_states = λ w. none;
  log = λ w. w;
  log-write = λ ev w. ground arith;
}

-- A socket that takes every packet, and one that takes none.
abbrev pub link : Link
link = record {
  Net = List KbdAction;
  send = λ ps n. (true, n ++ ps);
  accept = λ n. n;
  sent = λ n. n;
  sent-send = λ ps n. refl;
}

abbrev pub broken_link : Link
broken_link = record {
  Net = List KbdAction;
  send = λ ps n. (false, n);
  accept = λ n. n;
  sent = λ n. n;
  sent-send = λ ps n. refl;
}

-- A script that counts its calls, and answers the key 30 with the key 48.
abbrev pub scripting : Scripting
scripting = record {
  Lua = ℕ;
  call_match = λ lua ev kbd_hid.
      if ev.code == 30
      then (emit_call ev_key 48 ev.value ∷ flush_call ∷ [], matched true, lua + 1)
      else ([], matched false, lua + 1);
  get_id = λ id. some (codes "keyboard");
}

-- What comes in from the macro daemon, packet by packet, until the time is over.
abbrev incoming : List KbdAction → Result KbdAction × List KbdAction
incoming [] = (err socket_error, [])
incoming (p ∷ ps) = (ok p, ps)

abbrev pub outside : Outside
outside = record {
  World = List KbdAction;
  get_event = λ w. (ok none, w);
  unlock_all = λ w. w;
  lock_all = λ w. (true, w);
  send = λ action w. (true, w);
  recv = λ w. incoming w;
  recon = λ w. (ok tt, w);
}

abbrev pub asked : KbdAction
asked = record zero_action { ev = key_event 30 1 }

abbrev pub other : KbdAction
other = record zero_action { ev = key_event 31 1 }

-- Keyboards that are all grabbed or all released, with no key down, and a key press to read; a closed
-- descriptor has no states of keys.
abbrev pub devices : Devices
devices = record {
  W = Bool;
  key_states = λ fd w. if is_neg fd then none else some (0 ∷ 0 ∷ []);
  grab = λ fd w. (true, true);
  release = λ fd w. (true, false);
  read = λ fd w. (some (key_event 30 1), w);
  close = λ fd w. w;
  grabbed = λ w fd. w;
  grabbed-grab = λ fd w. refl;
  grabbed-release = λ fd w. refl;
  grabbed-read = λ fd w. refl;
}

abbrev pub keyboard : ℤ → KbdState → Keyboard
keyboard fd state = record {
  name = codes "a b";
  uniq_id = [];
  phys = [];
  dev_id = zero_id;
  fd = fd;
  state = state;
}

-- Every descriptor has an event.
abbrev pub poll_all : List ℤ → Bool → Result (Option (List Bool)) × Bool
poll_all fds w = (ok (some (map (λ fd. true) fds)), w)

-- User 1000, whose name is u; its script is a file with the mode 0755 of the group g.
abbrev pub system : System
system = record {
  getuid = 1000;
  user_id = λ name. some 1000;
  user_named = λ id. some (codes "u");
  group_id = λ name. some 100;
  group_named = λ id. some (codes "g");
  stat = λ path. some (record { st_mode = 0o100755; st_uid = 1000; st_gid = 100 });
  search = λ perm. some (record {
    file_type = codes "f";
    perm = codes "rwxr-xr-x";
    user = codes "~";
    group = codes "*";
  });
}

-- A directory of scripts in which every file can be run.
abbrev pub files : Files link scripting system
files = record {
  realpath_safe = λ path. path;
  path_basename = λ path. path;
  scripts_dir = codes "scripts";
  make = λ path. some 0;
}

-- The number of open descriptors, that of the reads until no key is down, and whether the devices are
-- grabbed.
abbrev pub counted : Devices
counted = record {
  W = ℕ × (ℕ × Bool);
  key_states = λ fd w. some ((if w.1.0 == 0 then 0 else 4) ∷ 0 ∷ []);
  grab = λ fd w. (true, (w.0, (w.1.0, true)));
  release = λ fd w. (true, (w.0, (w.1.0, false)));
  read = λ fd w. (some (key_event 30 0), (w.0, (w.1.0 - 1, w.1.1)));
  close = λ fd w. (w.0 - 1, w.1);
  grabbed = λ w fd. w.1.1;
  grabbed-grab = λ fd w. refl;
  grabbed-release = λ fd w. refl;
  grabbed-read = λ fd w. refl;
}

-- Every path leads to one device.
abbrev pub one_device : Info
one_device = record { name = codes "a b"; uniq_id = []; phys = []; id = none }

abbrev pub opens : Opens counted
opens = record {
  open_path = λ p w. (some (pos w.0), (w.0 + 1, w.1));
  info = λ fd w. one_device;
  device_at = λ p w. one_device;
  opened = λ w. w.0;
  info-open = λ p w fd h. refl;
  device_at-open = λ p q w. refl;
  opened-open = λ p w fd h. refl;
}

-- The number in the one pid file, who has been killed, and whether the file is locked.
pub record Host : Type 0 where
  pub pid : Option ℕ
  pub dead : ℕ → Bool
  pub busy : Bool

-- Processes that all run one program; this one has the number 7.
abbrev pub processes : Processes
processes = record {
  W = Host;
  getpid = 7;
  basename = λ path. path;
  readlink = λ path w. some (codes "hawck-macrod");
  flock = λ file w. (true, record w { busy = true });
  unlock = λ file w. record w { busy = false };
  read_pid = λ file w. w.pid;
  write_pid = λ file pid w. record w { pid = pid };
  kill = λ n w. record w { dead = λ m. if n == m then true else w.dead m };
  locked = λ w file. w.busy;
  killed = λ w n. w.dead n;
  read-write = λ file pid w. refl;
  read-unlock = λ file w. refl;
  read-flock = λ file w. refl;
  locked-unlock = λ file w. refl;
  killed-kill = λ pid n w h. refl;
  killed-write = λ file pid n w. refl;
  killed-unlock = λ file n w. refl;
  killed-flock = λ file n w. refl;
  readlink-flock = λ file path w. refl;
}

-- The file has the number of an earlier instance.
abbrev pub host : Host
host = record { pid = some 5; dead = λ n. false; busy = false }
