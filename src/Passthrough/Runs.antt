-- ===== src/Passthrough/Runs.antt =====
-- The passthrough keys of src/KBDDaemon.cpp along any history of file events.
use mathlib.Core.List.{foldl}
use hawck.Prelude.{
  ℕ, ◌≡◌, refl, sym, ap, ◌∙◌, ◌||◌, List, [], ◌∷◌, some, arith, Str, elem, if◌then◌else◌,
  Option-cases, inl, inr,
}
use hawck.Passthrough.{
  key_show, key_hide, find, erase, assign, Disk, Env, Daemon, FsEvent, unload_passthrough,
  load_passthrough, load_event, watch_event, init_passthrough,
}
use hawck.Passthrough.Sources.{listed, Unique, InRange, listed-assign, find-erase, erase_absent}
use hawck.Passthrough.Visible.{
  IsConsistent, valid_codes, code_cells, unload-IsConsistent, load-IsConsistent, load-sources,
}

module _ (env : Env) where
  load_event-IsConsistent :
      (disk : Disk) (ev : FsEvent) (d : Daemon env)
      → IsConsistent env d
      → IsConsistent env (load_event env disk ev d)
  unfolding load_event
  load_event-IsConsistent disk ev d v = ground (arith, load-IsConsistent env disk ev.path d v)

  watch_event-IsConsistent :
      (d : Daemon env) (ev : Disk × FsEvent)
      → IsConsistent env d
      → IsConsistent env (watch_event env d ev)
  unfolding watch_event
  watch_event-IsConsistent d (disk, ev) v =
      ground (arith, unload-IsConsistent env ev.path d v, load_event-IsConsistent disk ev d v)

  loads-IsConsistent :
      (disk : Disk) (files : List FsEvent) (d : Daemon env)
      → IsConsistent env d
      → IsConsistent env (foldl (λ e ev. load_event env disk ev e) d files)
  loads-IsConsistent disk [] d v = v
  loads-IsConsistent disk (ev ∷ files) d v =
      loads-IsConsistent disk files (load_event env disk ev d) (load_event-IsConsistent disk ev d v)

  watch-IsConsistent :
      (events : List (Disk × FsEvent)) (d : Daemon env)
      → IsConsistent env d
      → IsConsistent env (foldl (watch_event env) d events)
  watch-IsConsistent [] d v = v
  watch-IsConsistent (ev ∷ events) d v =
      watch-IsConsistent events (watch_event env d ev) (watch_event-IsConsistent d ev v)

  -- The daemon after it has read its files at the start and then handled events, each with the file
  -- system of its time.
  abbrev pub history : Disk → env.Watcher → List FsEvent → List (Disk × FsEvent) → Daemon env
  history disk fsw files events =
      foldl (watch_event env) (init_passthrough env disk fsw files) events

  history-IsConsistent :
      (disk : Disk) (fsw : env.Watcher) (files : List FsEvent) (events : List (Disk × FsEvent))
      → IsConsistent env (history disk fsw files events)
  unfolding init_passthrough
  history-IsConsistent disk fsw files events =
      watch-IsConsistent events (init_passthrough env disk fsw files) (
        loads-IsConsistent disk files
          (record { key_visibility = λ c. key_hide; key_sources = []; keys_fsw = fsw })
          (record { shown = λ c. refl; unique = tt; in_range = tt }))

  -- Whatever files are read at the start and whatever file events follow, while the files may change in
  -- any way between two of them, with reloads, deletions, failures and refused permissions among them: a
  -- key is shown to the macro daemon exactly when an
  -- entry of `key_sources` lists its code, and is hidden otherwise; no path has two entries; and every
  -- code of an entry is an index of the array `key_visibility`.
  pub shown_iff_listed :
      (disk : Disk) (fsw : env.Watcher) (files : List FsEvent) (events : List (Disk × FsEvent))
      → let d = history disk fsw files events in
        ((c : ℕ) → d.key_visibility c ≡ (if listed d.key_sources c then key_show else key_hide))
        × Unique d.key_sources
        × InRange d.key_sources
  shown_iff_listed disk fsw files events =
      let v = history-IsConsistent disk fsw files events in (v.shown, v.unique, v.in_range)

  unload-sources :
      (path : Str) (d : Daemon env)
      → (unload_passthrough env path d).key_sources ≡ erase path d.key_sources
  unfolding unload_passthrough
  unload-sources path d = elim (Option-cases (find path d.key_sources)) [
    | inl absent ↦ rw (absent, unload_passthrough) (sym (erase_absent path d.key_sources absent))
    | inr (vec, found) ↦ rw (found, unload_passthrough) refl
  ]

  -- After any history, while the files may have changed, loading a file that has the column of key codes shows exactly the codes of the
  -- column that are numbers in range, and those that the entries of other files list.
  pub load_shows :
      (disk : Disk) (fsw : env.Watcher) (files : List FsEvent) (events : List (Disk × FsEvent))
      (now : Disk) (rel_path : Str) (cells : List Str) (c : ℕ)
      → code_cells env now (now.realpath_safe rel_path) ≡ some cells
      → let d = history disk fsw files events in
        (load_passthrough env now rel_path d).key_visibility c ≡ (
          if elem c (valid_codes env cells)
            || listed (erase (now.realpath_safe rel_path) d.key_sources) c
          then key_show
          else key_hide)
  load_shows disk fsw files events now rel_path cells c found =
      let d = history disk fsw files events in
      let path = now.realpath_safe rel_path in
      let v = history-IsConsistent disk fsw files events in
      (load-IsConsistent env now rel_path d v).shown c
      ∙ ap (λ s. if listed s c then key_show else key_hide)
          (load-sources env now rel_path cells d found
            ∙ ap (assign path (valid_codes env cells)) (unload-sources path d))
      ∙ ap (λ b. if b then key_show else key_hide)
          (listed-assign path (valid_codes env cells) (erase path d.key_sources) c
            (find-erase path d.key_sources v.unique))
