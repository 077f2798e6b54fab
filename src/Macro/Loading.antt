-- ===== src/Macro/Loading.antt =====
-- src/MacroDaemon.cpp: loading and unloading scripts, and the callback of the script watcher.
pub mod Names
use hawck.Prelude.{
  ℕ, ◌-◌, Bool, true, false, not, ◌&&◌, ◌||◌, List, [], ◌∷◌, ◌++◌, Option, none, some, Str, codes,
  str_eq, length, take, drop, ltb, if◌then◌else◌,
}
use hawck.Passthrough.{has_bit, in_modify, in_create}
use hawck.Paths.{string_ends_with, string_starts_with}
use hawck.Permissions.{System, check_file}
use hawck.Remote.{Link}
use hawck.Macro.{Scripting, Script, MacroDaemon, notify}

abbrev pub in_attrib : ℕ
in_attrib = 0x4

abbrev pub in_delete : ℕ
in_delete = 0x200

-- The first test of `loadScript`, negated.
abbrev pub is_loadable : Str → Bool
is_loadable path = not (
    string_starts_with path (codes ".")
    || not (string_ends_with path (codes ".lua") || string_ends_with path (codes ".hwk")))

-- The fields of `struct FSEvent` that the callback reads; `is_dir` and `is_exec` are tests of
-- `stbuf.st_mode`.
pub record ScriptEvent : Type 0 where
  pub path : Str
  pub name : Str
  pub mask : ℕ
  pub is_dir : Bool
  pub is_exec : Bool

module _ (K : Link) (L : Scripting) (sys : System) where
  -- What the code calls: `realpath_safe`, `pathBasename`, the directory of the scripts, and the making of
  -- a Lua state from a file, which has no result if an exception is thrown.
  pub record Files : Type 0 where
    pub realpath_safe : Str → Str
    pub path_basename : Str → Str
    pub scripts_dir : Str
    pub make : Str → Option L.Lua

  abbrev pub Scripts : Type 0
  Scripts = List (Str × Script K L)

  abbrev pub has_name : Str → Scripts → Bool
  has_name name [] = false
  has_name name ((n, sc) ∷ scs) = str_eq n name || has_name name scs

  abbrev pub without : Str → Scripts → Scripts
  without name [] = []
  without name ((n, sc) ∷ scs) = if str_eq n name then scs else (n, sc) ∷ without name scs

  module _ (files : Files) where
    -- The rest of `loadScript`, once the new script stands.
    unfoldable pub install : Str → L.Lua → MacroDaemon K L → MacroDaemon K L
    install path lua m =
        let name = files.path_basename path in
        let told = notify K L name (codes "<i>Loaded</i> script") m in
        record told {
          scripts = (name, record { lua = lua; enabled = true }) ∷ without name m.scripts;
        }

    -- `loadScript` behind its first test.
    unfoldable pub load_checked : Str → MacroDaemon K L → Option (MacroDaemon K L)
    load_checked path m =
        elim (check_file sys (files.realpath_safe path) (codes "frwxr-xr-x ~:*")) [
          | none ↦ none
          | some false ↦ some m
          | some true ↦ elim (files.make path) [
            | none ↦ none
            | some lua ↦ some (install path lua m)
          ]
        ]

    -- `loadScript`: no result is an exception, before which nothing has changed.
    unfoldable pub load_script : Str → MacroDaemon K L → Option (MacroDaemon K L)
    load_script path m = if is_loadable path then load_checked path m else some m

    unfoldable pub unload_script : Str → MacroDaemon K L → MacroDaemon K L
    unload_script rel_path m =
        let name = files.path_basename rel_path in
        let told = notify K L name (codes "<i>Unloaded</i> script") m in
        if has_name name m.scripts then record told { scripts = without name m.scripts } else m

    -- What the callback does with an event, before its handler of exceptions.
    unfoldable pub script_change : ScriptEvent → MacroDaemon K L → Option (MacroDaemon K L)
    script_change ev m =
        if str_eq ev.path files.scripts_dir
        then some m
        else if has_bit ev.mask in_delete
        then some (unload_script ev.name m)
        else if has_bit ev.mask in_modify
        then (if not ev.is_dir then load_script ev.path m else some m)
        else if has_bit ev.mask in_create
        then load_script ev.path m
        else if has_bit ev.mask in_attrib
        then (if ev.is_exec then load_script ev.path m else some (unload_script ev.path m))
        else some m

    -- The callback; `what` is the text of the exception.
    unfoldable pub watch_scripts : Str → MacroDaemon K L → ScriptEvent → MacroDaemon K L
    watch_scripts what m ev = elim (script_change ev m) [
      | none ↦ notify K L (codes "Script Error") what m
      | some m' ↦ m'
    ]
