-- ===== src/Macro/Loading/Names.antt =====
-- The names under which src/MacroDaemon.cpp keeps its scripts.
use mathlib.Core.List.{foldl}
use mathlib.Core.Path.{subst}
use hawck.Prelude.{
  ◌≡◌, refl, sym, ap, ◌∙◌, Bool, true, false, List, [], ◌∷◌, Option, none, some, Str, codes, not,
  str_eq, str_eq_iff, arith, if◌then◌else◌, Bool-cases, Option-cases, inl, inr,
}
use hawck.Passthrough.{has_bit, in_modify, in_create}
use hawck.Permissions.{System, check_file}
use hawck.Remote.{Link}
use hawck.Macro.{Scripting, MacroDaemon, notify}
use hawck.Macro.Loading.{
  ScriptEvent, Files, Scripts, has_name, without, in_attrib, in_delete, is_loadable, install,
  load_checked, load_script, unload_script, script_change, watch_scripts,
}

module _ (K : Link) (L : Scripting) (sys : System) where
  -- No name has two entries.
  unfoldable pub Unique : Scripts K L sys → Type 0
  Unique [] = Unit
  Unique ((name, sc) ∷ scs) = (has_name K L sys name scs ≡ false) × Unique scs

  has_name-without :
      (name other : Str) (scs : Scripts K L sys)
      → has_name K L sys other scs ≡ false
      → has_name K L sys other (without K L sys name scs) ≡ false
  has_name-without name other [] h = refl
  has_name-without name other ((n, sc) ∷ scs) h = ground (arith, h, has_name-without name other scs)

  without-Unique :
      (name : Str) (scs : Scripts K L sys) → Unique scs → Unique (without K L sys name scs)
  unfolding Unique
  without-Unique name [] u = tt
  without-Unique name ((n, sc) ∷ scs) (new, u) = elim (Bool-cases (str_eq n name)) [
    | inl same ↦ rw same u
    | inr other ↦ rw other (has_name-without name n scs new, without-Unique name scs u)
  ]

  without_lem :
      (name : Str) (scs : Scripts K L sys)
      → Unique scs
      → has_name K L sys name (without K L sys name scs) ≡ false
  unfolding Unique
  without_lem name [] u = refl
  without_lem name ((n, sc) ∷ scs) (new, u) = elim (Bool-cases (str_eq n name)) [
    | inl same ↦ rw same (ap (λ x. has_name K L sys x scs) (sym ((str_eq_iff n name).0 same)) ∙ new)
    | inr other ↦ rw (other, other) (without_lem name scs u)
  ]

  module _ (files : Files K L sys) where
    pub notify-scripts :
        (title msg : Str) (m : MacroDaemon K L) → (notify K L title msg m).scripts ≡ m.scripts
    unfolding notify
    notify-scripts title msg m = ground arith

    abbrev pub HasUnique : Option (MacroDaemon K L) → Type 0
    HasUnique none = Unit
    HasUnique (some m) = Unique m.scripts

    if_lem :
        (b : Bool) (x y : Option (MacroDaemon K L))
        → HasUnique x
        → HasUnique y
        → HasUnique (if b then x else y)
    if_lem true x y p q = p
    if_lem false x y p q = q

    install-Unique :
        (path : Str) (lua : L.Lua) (m : MacroDaemon K L)
        → Unique m.scripts
        → Unique (install K L sys files path lua m).scripts
    unfolding install Unique
    install-Unique path lua m u =
        let name = files.path_basename path in
        (without_lem name m.scripts u, without-Unique name m.scripts u)

    checked-Unique :
        (path : Str) (m : MacroDaemon K L)
        → Unique m.scripts
        → HasUnique (load_checked K L sys files path m)
    unfolding load_checked
    checked-Unique path m u =
        elim (Option-cases (check_file sys (files.realpath_safe path) (codes "frwxr-xr-x ~:*"))) [
          | inl failed ↦ rw (failed, load_checked) tt
          | inr (true, fine) ↦ elim (Option-cases (files.make path)) [
            | inl broken ↦ rw (fine, load_checked) (rw (broken, load_checked) tt)
            | inr (lua, made) ↦
                rw (fine, load_checked) (rw (made, load_checked) (install-Unique path lua m u))
          ]
          | inr (false, refused) ↦ rw (refused, load_checked) u
        ]

    pub load_script-Unique :
        (path : Str) (m : MacroDaemon K L)
        → Unique m.scripts
        → HasUnique (load_script K L sys files path m)
    unfolding load_script
    load_script-Unique path m u = if_lem (is_loadable path) _ _ (checked-Unique path m u) u

    unload_script-Unique :
        (path : Str) (m : MacroDaemon K L)
        → Unique m.scripts
        → Unique (unload_script K L sys files path m).scripts
    unfolding unload_script
    unload_script-Unique path m u =
        elim (Bool-cases (has_name K L sys (files.path_basename path) m.scripts)) [
          | inl there ↦
              rw (there, unload_script) (without-Unique (files.path_basename path) m.scripts u)
          | inr missing ↦ rw (missing, unload_script) u
        ]

    script_change-Unique :
        (ev : ScriptEvent) (m : MacroDaemon K L)
        → Unique m.scripts
        → HasUnique (script_change K L sys files ev m)
    unfolding script_change
    script_change-Unique ev m u =
        let loaded = load_script-Unique ev.path m u in
        if_lem (str_eq ev.path files.scripts_dir) _ _ u (
          if_lem (has_bit ev.mask in_delete) _ _ (unload_script-Unique ev.name m u) (
            if_lem (has_bit ev.mask in_modify) _ _ (if_lem (not ev.is_dir) _ _ loaded u) (
              if_lem (has_bit ev.mask in_create) _ _ loaded (
                if_lem (has_bit ev.mask in_attrib) _ _
                  (if_lem ev.is_exec _ _ loaded (unload_script-Unique ev.path m u)) u))))

    watch_scripts-Unique :
        (what : Str) (m : MacroDaemon K L) (ev : ScriptEvent)
        → Unique m.scripts
        → Unique (watch_scripts K L sys files what m ev).scripts
    unfolding watch_scripts
    watch_scripts-Unique what m ev u = elim (Option-cases (script_change K L sys files ev m)) [
      | inl thrown ↦
          rw (thrown, watch_scripts)
            (subst Unique (sym (notify-scripts (codes "Script Error") what m)) u)
      | inr (m', changed) ↦
          rw (changed, watch_scripts) (subst HasUnique changed (script_change-Unique ev m u))
    ]

    -- Whatever events the watcher of the script directory reports, with failures to load among them: if no
    -- name had two scripts, none has two afterwards.
    pub scripts-Unique :
        (what : Str) (evs : List ScriptEvent) (m : MacroDaemon K L)
        → Unique m.scripts
        → Unique (foldl (watch_scripts K L sys files what) m evs).scripts
    scripts-Unique what [] m u = u
    scripts-Unique what (ev ∷ evs) m u =
        scripts-Unique what evs (watch_scripts K L sys files what m ev)
          (watch_scripts-Unique what m ev u)
