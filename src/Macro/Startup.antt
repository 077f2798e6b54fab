-- ===== src/Macro/Startup.antt =====
-- src/MacroDaemon.cpp: the start of the macro daemon, its scripts and its connection.
use mathlib.Core.Path.{subst}
use mathlib.Core.List.{foldl}
use hawck.Prelude.{
  ℕ, zero, suc, ◌+◌, ◌*◌, ◌-◌, ◌<◌, ◌≤◌, ◌==◌, ◌≡◌, refl, sym, ap, ◌∙◌, Bool, true, List, [], ◌∷◌,
  Option, none, some, Str, codes, arith, if◌then◌else◌, Option-cases, Bool-cases, inl, inr,
}
use hawck.Permissions.{System}
use hawck.Remote.{Link, set_connection}
use hawck.Macro.{Scripting, MacroDaemon, notify}
use hawck.Macro.Loading.{Files, load_script, ScriptEvent, watch_scripts}
use hawck.Macro.Loading.Names.{
  Unique, HasUnique, load_script-Unique, notify-scripts, scripts-Unique,
}

module _ (K : Link) (L : Scripting) where
  -- `getConnection`, on fuel for its loop: `accepts` says in which rounds `accept` does not throw. The
  -- second value is the time in milliseconds that is slept.
  unfoldable pub get_connection :
      ℕ → (ℕ → Bool) → ℕ → MacroDaemon K L → Option (MacroDaemon K L × ℕ)
  get_connection zero accepts round m = none
  get_connection (suc fuel) accepts round m =
      let rest = get_connection fuel accepts (round + 1) m in
      if accepts round
      then some (record m { remote_udev = set_connection K m.remote_udev }, round * 100)
      else rest

  -- If `accept` gives a connection at last, `getConnection` returns with it, whatever it throws before,
  -- and has slept for at most 100 ms in each of the rounds before.
  pub get_connection_ends :
      (fuel round n : ℕ) (accepts : ℕ → Bool) (m : MacroDaemon K L)
      → n < fuel
      → accepts (round + n) ≡ true
      → (slept : ℕ) × (get_connection fuel accepts round m
          ≡ some (record m { remote_udev = set_connection K m.remote_udev }, slept))
        × (slept ≤ (round + n) * 100)
  unfolding get_connection
  get_connection_ends zero round n accepts m h at = absurd (omega arith)
  get_connection_ends (suc fuel) round n accepts m h at = elim (Bool-cases (accepts round)) [
    | inl now ↦ (round * 100, rw (now, get_connection) refl, omega arith)
    | inr later ↦ elim (Bool-cases (n == 0)) [
      | inl none_left ↦
          let here : round + n ≡ round = ground (arith, none_left) in
          absurd (cc (at, later, ap accepts here))
      | inr more ↦
          let place : round + 1 + (n - 1) ≡ round + n = ground (arith, more) in
          let (slept, found, bound) =
            get_connection_ends fuel (round + 1) (n - 1) accepts m (ground (arith, more, h))
              (ap accepts place ∙ at) in
          (slept, rw (later, get_connection) found, omega arith)
    ]
  ]

  module _ (sys : System) (files : Files K L sys) where
    -- `initScriptDir`, without the watch on the directory; `what` is the text of an exception.
    unfoldable pub init_script_dir : Str → List Str → MacroDaemon K L → MacroDaemon K L
    init_script_dir what [] m = m
    init_script_dir what (path ∷ entries) m = elim (load_script K L sys files path m) [
      | none ↦ init_script_dir what entries (notify K L (codes "Hawck Script Error") what m)
      | some m' ↦ init_script_dir what entries m'
    ]

    -- Whatever is in the directory, scripts that fail to load among it, no name has two scripts after
    -- the start if none had before.
    init_script_dir-Unique :
        (what : Str) (entries : List Str) (m : MacroDaemon K L)
        → Unique K L sys m.scripts
        → Unique K L sys (init_script_dir what entries m).scripts
    unfolding init_script_dir
    init_script_dir-Unique what [] m u = u
    init_script_dir-Unique what (path ∷ entries) m u =
        elim (Option-cases (load_script K L sys files path m)) [
          | inl thrown ↦
              let told = notify K L (codes "Hawck Script Error") what m in
              rw (thrown, init_script_dir)
                (init_script_dir-Unique what entries told (
                  subst (Unique K L sys)
                    (sym (notify-scripts K L sys files (codes "Hawck Script Error") what m)) u))
          | inr (m', loaded) ↦
              rw (loaded, init_script_dir)
                (init_script_dir-Unique what entries m' (
                  subst (HasUnique K L sys files) loaded
                    (load_script-Unique K L sys files path m u)))
        ]

    -- A macro daemon that starts without scripts, loads the directory of scripts, and then sees any
    -- events of the watcher, with failures to load among both, never has two scripts of one name.
    pub session-Unique :
        (what : Str) (entries : List Str) (evs : List ScriptEvent) (m : MacroDaemon K L)
        → m.scripts ≡ []
        → Unique K L sys
            (foldl (watch_scripts K L sys files what) (init_script_dir what entries m) evs).scripts
    unfolding Unique
    session-Unique what entries evs m empty =
        scripts-Unique K L sys files what evs (init_script_dir what entries m)
          (init_script_dir-Unique what entries m (subst (Unique K L sys) (sym empty) tt))
