-- ===== src/Passthrough.antt =====
-- src/KBDDaemon.cpp: which keys the input daemon shows to the macro daemon, from the files of
-- passthrough keys.
pub mod Sources
pub mod Visible
pub mod Runs
mod Examples
use mathlib.Core.List.{foldl}
use hawck.Prelude.{
  ℕ, ◌+◌, ◌/◌, ◌%◌, Bool, true, false, ◌&&◌, ◌||◌, List, [], ◌∷◌, ◌++◌, Option, none, some, Str,
  codes, ltb, elem, ◌==◌, str_eq, if◌then◌else◌,
}
use hawck.Prelude.Int.{ℤ, pos, negsuc}
use hawck.Input.{key_max}
use hawck.Csv.{get_lines, load_from_stream, get_named_cells}

pub data KeyVisibility : Type 0 where
  key_show key_keep key_hide : KeyVisibility

-- The array `key_visibility`, by key code, and the map `key_sources`, as its entries.
abbrev pub Visibility : Type 0
Visibility = ℕ → KeyVisibility

abbrev pub Sources : Type 0
Sources = List (Str × List ℕ)

abbrev pub find : Str → Sources → Option (List ℕ)
find path [] = none
find path ((p, v) ∷ s) = if str_eq p path then some v else find path s

abbrev pub erase : Str → Sources → Sources
erase path [] = []
erase path ((p, v) ∷ s) = if str_eq p path then s else (p, v) ∷ erase path s

-- `key_sources[path] = v`.
abbrev pub assign : Str → List ℕ → Sources → Sources
assign path v [] = (path, v) ∷ []
assign path v ((p, w) ∷ s) = if str_eq p path then (p, v) ∷ s else (p, w) ∷ assign path v s

-- `for (int code : *vec) key_visibility[code] = value`.
unfoldable pub mark : KeyVisibility → List ℕ → Visibility → Visibility
mark value [] vis = vis
mark value (code ∷ vec) vis = mark value vec (λ c. if c == code then value else vis c)

-- The loop that re-adds the keys of the sources that are left.
unfoldable pub readd : Sources → Visibility → Visibility
unfolding mark
readd [] vis = vis
readd ((p, vec) ∷ s) vis = readd s (mark key_show vec vis)

-- The file system as it is when a file is loaded.
pub record Disk : Type 0 where
  pub realpath_safe : Str → Str
  pub content : Str → Str

-- What the code calls: `std::stoi` (`none` is an exception), and the file watcher `keys_fsw`, whose `add`
-- throws `SystemError` where it has no result.
pub record Env : Type 1 where
  pub Watcher : Type 0
  pub add : Watcher → Str → Option Watcher
  pub stoi : Str → Option ℤ
  pub getuid : ℕ

-- The fields of `struct FsEvent` that the code reads.
pub record FsEvent : Type 0 where
  pub path : Str
  pub mask : ℕ
  pub st_mode : ℕ
  pub st_uid : ℕ

-- `mask & bit`, for a power of two.
abbrev pub has_bit : ℕ → ℕ → Bool
has_bit mask bit = mask / bit % 2 == 1

abbrev pub in_modify : ℕ
in_modify = 0x2

abbrev pub in_create : ℕ
in_create = 0x100

abbrev pub in_delete_self : ℕ
in_delete_self = 0x400

module _ (env : Env) where
  open env use {Watcher}

  pub record Daemon : Type 0 where
    pub key_visibility : Visibility
    pub key_sources : Sources
    pub keys_fsw : Watcher

  unfoldable pub unload_passthrough : Str → Daemon → Daemon
  unfolding readd
  unload_passthrough path d = elim (find path d.key_sources) [
    | none ↦ d
    | some vec ↦ record d {
      key_visibility = readd (erase path d.key_sources) (mark key_hide vec d.key_visibility);
      key_sources = erase path d.key_sources;
    }
  ]

  -- One round of the loop over the cells, on `key_visibility` and `cells_i`.
  unfoldable pub load_cell : Visibility × List ℕ → Str → Visibility × List ℕ
  load_cell (vis, cells_i) cell = elim (env.stoi cell) [
    | none ↦ (vis, cells_i)
    | some (pos i) ↦
        if ltb i key_max
        then ((λ c. if c == i then key_show else vis c), cells_i ++ i ∷ [])
        else (vis, cells_i)
    | some (negsuc i) ↦ (vis, cells_i)
  ]

  -- `loadPassthrough(std::string)`. Both exceptions are caught, and leave what was done before.
  unfoldable pub load_passthrough : Disk → Str → Daemon → Daemon
  unfolding unload_passthrough load_cell
  load_passthrough disk rel_path d =
      let path = disk.realpath_safe rel_path in
      let d' = unload_passthrough path d in
      let csv = load_from_stream (get_lines [] (disk.content path)) in
      elim (get_named_cells csv (codes "key_code")) [
        | none ↦ d'
        | some cells ↦
            let (vis, cells_i) = foldl load_cell (d'.key_visibility, []) cells in
            let loaded = record d' {
              key_visibility = vis;
              key_sources = assign path cells_i d'.key_sources;
            } in
            elim (env.add d'.keys_fsw path) [
              | none ↦ loaded
              | some fsw ↦ record loaded { keys_fsw = fsw }
            ]
      ]

  -- `loadPassthrough(FSEvent *)`: 0644 and the permission bits are octal in the source.
  unfoldable pub load_event : Disk → FsEvent → Daemon → Daemon
  unfolding load_passthrough
  load_event disk ev d =
      if ev.st_mode % 0o1000 == 0o644 && ev.st_uid == env.getuid
      then load_passthrough disk ev.path d
      else d

  -- The callback of `startPassthroughWatcher`, on an event and what the file system is then.
  unfoldable pub watch_event : Daemon → Disk × FsEvent → Daemon
  unfolding load_event
  watch_event d (disk, ev) =
      if has_bit ev.mask in_delete_self
      then unload_passthrough ev.path d
      else if has_bit ev.mask in_create || has_bit ev.mask in_modify
      then load_event disk ev d
      else d

  -- `initPassthrough`, on the files that `addFrom` has added to the watcher.
  unfoldable pub init_passthrough : Disk → Watcher → List FsEvent → Daemon
  unfolding load_event
  init_passthrough disk fsw files =
      foldl (λ d ev. load_event disk ev d)
        (record { key_visibility = λ c. key_hide; key_sources = []; keys_fsw = fsw }) files
