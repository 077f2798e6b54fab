-- ===== src/Watcher/Table.antt =====
-- The tables of src/FSWatcher.cpp are the kernel's list of watched paths.
use hawck.Prelude.{◌≡◌, false, some, Str, Option-cases, inl, inr}
use hawck.Prelude.Maps.{lookup, nat_key, str_key}
use hawck.Passthrough.{has_bit, in_delete_self}
use hawck.Watcher.{
  Inotify, FsWatcher, RawEvent, passed_on, handle_event, add_real, add, remove_path, add_from,
}
use hawck.Watcher.Coupled.{IsCoupled, entered-IsCoupled, failed-IsCoupled}

module _ (I : Inotify) where
  add_real-IsCoupled :
      (rpath : Str) (w : FsWatcher I) → IsCoupled I w → IsCoupled I (add_real I rpath w).1
  unfolding add_real
  add_real-IsCoupled rpath w v = elim (Option-cases (lookup str_key rpath w.path_to_wd)) [
    | inr (wd, old) ↦ rw (old, add_real) v
    | inl new ↦ elim (Option-cases (I.add_watch rpath w.kernel).0) [
      | inl failed ↦ rw (new, failed, add_real) (failed-IsCoupled I rpath w v failed)
      | inr (wd, got) ↦ rw (new, got, add_real) (entered-IsCoupled I rpath wd w v new got)
    ]
  ]

  pub add-IsCoupled : (path : Str) (w : FsWatcher I) → IsCoupled I w → IsCoupled I (add I path w).1
  unfolding add
  add-IsCoupled path w v = elim (Option-cases (I.realpath path w.kernel)) [
    | inl missing ↦ rw (missing, add) v
    | inr (rpath, real) ↦ rw (real, add) (add_real-IsCoupled rpath w v)
  ]

  passed_on-IsCoupled :
      (ev : RawEvent) (at : Str × FsWatcher I)
      → IsCoupled I at.1
      → IsCoupled I (passed_on I ev at).1
  passed_on-IsCoupled ev at v = v

  -- What happens to a watcher: calls of its methods, and events of descriptors that it knows, but for
  -- that of a file that is deleted itself, with which the kernel drops the watch.
  pub data Runs (w : FsWatcher I) : FsWatcher I → Type 0 where
    start : Runs w w
    by_add : {u : FsWatcher I} (path : Str) → Runs w u → Runs w (add I path u).1
    by_remove : {u : FsWatcher I} (path : Str) → Runs w u → Runs w (remove_path I path u).1
    by_add_from : {u : FsWatcher I} (dir_path : Str) → Runs w u → Runs w (add_from I dir_path u).1
    by_event :
        {u : FsWatcher I} (ev : RawEvent) (path : Str)
        → has_bit ev.mask in_delete_self ≡ false
        → lookup nat_key ev.wd u.wd_to_path ≡ some path
        → Runs w u
        → Runs w (handle_event I ev u).1
