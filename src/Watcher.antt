-- ===== src/Watcher.antt =====
-- src/FSWatcher.cpp, src/FSWatcher.hpp: the file watcher, on the kernel's inotify.
pub mod Coupled
pub mod Table
pub mod Deleted
pub mod Deliver
pub mod Rounds
pub mod Threads
pub mod Stopping
pub mod Racing
mod Examples
mod ThreadExamples
use hawck.Prelude.{
  ℕ, zero, suc, ◌+◌, ◌-◌, ◌/◌, ◌%◌, ◌≡◌, ◌≢◌, Bool, true, false, not, ◌&&◌, ◌||◌, List, [], ◌∷◌,
  ◌++◌, Option, none, some, Str, codes, ◌==◌, drop, length, if◌then◌else◌,
}
use hawck.Prelude.Maps.{lookup, insert, remove, nat_key, str_key}
use hawck.Effect.{
  Result, ok, err, system_error, socket_error, keyboard_error, Action, proceed, ◌>>=◌, ◌>>◌,
}
use hawck.Passthrough.{has_bit, in_modify, in_create, in_delete_self}
use hawck.Permissions.{Stat}

abbrev pub in_attrib : ℕ
in_attrib = 0x4

abbrev pub in_delete : ℕ
in_delete = 0x200

-- What the class calls. `realpath`, `opendir` with the names that `readdir` gives, and `stat` have no
-- result where they fail. `add_watch` gives a watch descriptor, or fails; `watches` says which path the
-- kernel watches under a descriptor. A path that is not watched gets a descriptor that is not in use:
-- no two of the paths are links to one file.
pub record Inotify : Type 1 where
  pub W : Type 0
  pub realpath : Str → W → Option Str
  pub opendir : Str → W → Option (List Str)
  pub stat : Str → W → Option Stat
  pub add_watch : Str → W → Option ℕ × W
  pub rm_watch : ℕ → W → W
  pub watches : W → ℕ → Option Str
  pub add-fresh :
      (p : Str) (w : W) (n : ℕ)
      → ((m : ℕ) → watches w m ≢ some p)
      → (add_watch p w).0 ≡ some n
      → watches w n ≡ none
  pub watches-add :
      (p : Str) (w : W) (n m : ℕ)
      → (add_watch p w).0 ≡ some n
      → watches (add_watch p w).1 m ≡ (if n == m then some p else watches w m)
  pub watches-failed :
      (p : Str) (w : W) (m : ℕ)
      → (add_watch p w).0 ≡ none
      → watches (add_watch p w).1 m ≡ watches w m
  pub watches-rm :
      (n : ℕ) (w : W) (m : ℕ) → watches (rm_watch n w) m ≡ (if n == m then none else watches w m)

-- The fields of `struct inotify_event` that the code reads; the name is there if `len` is not 0.
pub record RawEvent : Type 0 where
  pub wd : ℕ
  pub mask : ℕ
  pub len : ℕ
  pub name : Str

pub record FsEvent : Type 0 where
  pub path : Str
  pub mask : ℕ
  pub name : Str
  pub stbuf : Stat
  pub added : Bool
  pub deleted : Bool

abbrev pub zero_stat : Stat
zero_stat = record { st_mode = 0; st_uid = 0; st_gid = 0 }

-- `S_ISDIR`, and `S_ISREG || S_ISLNK`.
abbrev pub is_dir : Stat → Bool
is_dir st = st.st_mode / 0o10000 % 0o20 == 4

abbrev pub is_file : Stat → Bool
is_file st = st.st_mode / 0o10000 % 0o20 == 8 || st.st_mode / 0o10000 % 0o20 == 10

-- `dir << "/" << name`.
abbrev pub in_dir : Str → Str → Str
in_dir dir name = dir ++ codes "/" ++ name

-- The bytes of an event: `header` reads the event that a buffer begins with.
pub record Format : Type 0 where
  pub header : Str → RawEvent
  pub header_bytes : RawEvent → Str
  pub name_bytes : RawEvent → Str

abbrev pub header_size : ℕ
header_size = 16

-- How the loop of `watch` over a buffer ends: at its end, stopped with what is kept for
-- the next call, or by an exception. The last has no value while fuel is left.
pub data Ending : Type 0 where
  finished : Ending
  stopped : Str → Ending
  thrown : Ending
  no_fuel : Ending

module _ (I : Inotify) where
  pub record FsWatcher : Type 0 where
    pub path_to_wd : List (Str × ℕ)
    pub wd_to_path : List (ℕ × Str)
    pub auto_add : Bool
    pub watch_dirs : Bool
    pub kernel : I.W

  -- `add`, behind `realpath`.
  unfoldable pub add_real : Str → Action FsWatcher Unit
  add_real rpath w =
      let (added, kernel) = I.add_watch rpath w.kernel in
      elim (lookup str_key rpath w.path_to_wd) [
        | some wd ↦ (ok tt, w)
        | none ↦ elim added [
          | none ↦ (err system_error, record w { kernel = kernel })
          | some wd ↦ (
            ok tt,
            record w {
              path_to_wd = insert str_key rpath wd w.path_to_wd;
              wd_to_path = insert nat_key wd rpath w.wd_to_path;
              kernel = kernel;
            },
          )
        ]
      ]

  unfoldable pub add : Str → Action FsWatcher Unit
  add path w = elim (I.realpath path w.kernel) [
    | none ↦ (err system_error, w)
    | some rpath ↦ add_real rpath w
  ]

  unfoldable pub remove_real : Str → FsWatcher → FsWatcher
  remove_real rpath w = elim (lookup str_key rpath w.path_to_wd) [
    | none ↦ w
    | some wd ↦ record w {
      path_to_wd = remove str_key rpath w.path_to_wd;
      wd_to_path = remove nat_key wd w.wd_to_path;
      kernel = I.rm_watch wd w.kernel;
    }
  ]

  -- `remove` of the class.
  unfoldable pub remove_path : Str → Action FsWatcher Unit
  remove_path path w = elim (I.realpath path w.kernel) [
    | none ↦ (err system_error, w)
    | some rpath ↦ (ok tt, remove_real rpath w)
  ]

  -- `FSEvent(string)`.
  abbrev pub added_event : Str → Stat → FsEvent
  added_event path st = record {
    path = path;
    mask = 0;
    name = [];
    stbuf = st;
    added = true;
    deleted = false;
  }

  -- The loop of `addFrom` over the entries of the directory.
  unfoldable pub add_entries : Str → List Str → List FsEvent → Action FsWatcher (List FsEvent)
  add_entries dir_path [] added w = (ok added, w)
  add_entries dir_path (name ∷ names) added w =
      let path = in_dir dir_path name in
      let (r, w') = add path w in
      elim (I.stat path w.kernel) [
        | none ↦ (err system_error, w)
        | some st ↦
            let skipped = add_entries dir_path names added w in
            let went_on = add_entries dir_path names (added ++ added_event path st ∷ []) w' in
            let failed = add_entries dir_path names added w' in
            if is_file st then elim r [ ok u ↦ went_on | err e ↦ failed ] else skipped
      ]

  unfoldable pub add_from : Str → Action FsWatcher (List FsEvent)
  add_from dir_path w = elim (I.opendir dir_path w.kernel) [
    | none ↦ (err system_error, w)
    | some names ↦ (add dir_path >>= λ _. add_entries dir_path names []) w
  ]

  -- `FSEvent(struct inotify_event *, string)`.
  abbrev pub event_at : RawEvent → Str → FsWatcher → FsEvent
  event_at ev path w = record {
    path = path;
    mask = ev.mask;
    name = if ev.len == 0 then [] else ev.name;
    stbuf = elim (I.stat path w.kernel) [ none ↦ zero_stat | some st ↦ st ];
    added = false;
    deleted = false;
  }

  -- `wd_to_path[wd]`, which enters an empty string where there is none.
  abbrev pub path_at : ℕ → FsWatcher → Str × FsWatcher
  path_at wd w = elim (lookup nat_key wd w.wd_to_path) [
    | some path ↦ (path, w)
    | none ↦ ([], record w { wd_to_path = insert nat_key wd [] w.wd_to_path })
  ]

  -- The last test of `handleEvent`.
  abbrev pub unless_dir : FsEvent → FsWatcher → Option FsEvent
  unless_dir e w = if e.deleted || (not (is_dir e.stbuf) || w.watch_dirs) then some e else none

  abbrev pub passed_on : RawEvent → Str × FsWatcher → Result (Option FsEvent) × FsWatcher
  passed_on ev at = (ok (unless_dir (event_at ev at.0 at.1) at.1), at.1)

  -- What follows `add` in the branch of IN_CREATE.
  abbrev pub created :
      RawEvent → Str → Result (Unit {0}) × FsWatcher → Result (Option FsEvent) × FsWatcher
  created ev path (ok u, w) = passed_on ev (path, w)
  created ev path (err e, w) = (ok none, w)

  -- `handleEvent`: no event is the null pointer.
  unfoldable pub handle_event : RawEvent → Action FsWatcher (Option FsEvent)
  handle_event ev w =
      let (dir_path, w') = path_at ev.wd w in
      let path = in_dir dir_path ev.name in
      if has_bit ev.mask in_create
      then created ev path (if w.auto_add then add path w' else (ok tt, w'))
      else if has_bit ev.mask in_modify
          || (has_bit ev.mask in_delete || has_bit ev.mask in_delete_self)
      then elim (lookup nat_key ev.wd w.wd_to_path) [
        | none ↦ (err system_error, w)
        | some p ↦ passed_on ev (p, w)
      ]
      else if has_bit ev.mask in_attrib
      then passed_on ev (path_at ev.wd w)
      else (ok none, w)

  -- `runs` says whether `running` is left as it is by the other threads, up to its test after the event
  -- of a number in the buffer.
  module _ (F : Format) {S : Type 0} (callback : FsEvent → S → Bool × S) (runs : ℕ → Bool) where
    -- The loop of `watch` over the events of a buffer, from the event of number `i` on; `evbuf` is the
    -- buffer from `p` on, `left` the number of bytes of it that were read.
    unfoldable pub deliver : ℕ → ℕ → Str → ℕ → FsWatcher → S → Ending × FsWatcher × S
    deliver zero i evbuf left w s = (no_fuel, w, s)
    deliver (suc fuel) i evbuf left w s =
        let ev = F.header evbuf in
        let (r, w') = handle_event ev w in
        let size = header_size + ev.len in
        let silent = deliver fuel (suc i) (drop size evbuf) (left - size) w' s in
        if left == 0 then (finished, w, s) else elim r [
          | err e ↦ (thrown, w', s)
          | ok none ↦ if runs i then silent else (stopped (drop header_size evbuf), w', s)
          | ok (some e) ↦
              let (more, s') = callback e s in
              let went_on = deliver fuel (suc i) (drop size evbuf) (left - size) w' s' in
              if more && runs i then went_on else (stopped (drop header_size evbuf), w', s')
        ]
