-- ===== src/Watcher/Deleted.antt =====
-- Watches that the kernel has dropped, in src/FSWatcher.cpp.
use hawck.Prelude.{
  ℕ, ◌≡◌, ◌≢◌, refl, sym, ap, ◌∙◌, [], none, some, Str, ◌==◌, if◌then◌else◌, Bool-cases, inl, inr,
}
use hawck.Prelude.Maps.{
  lookup, insert, nat_key, str_key, lookup-remove, lookup-insert_here, same_refl,
}
use hawck.Effect.{ok}
use hawck.Watcher.{
  in_attrib, Inotify, FsWatcher, RawEvent, path_at, handle_event, add_real, add, remove_real,
  remove_path,
}
use hawck.Watcher.Coupled.{IsCoupled}

module _ (I : Inotify) where
  -- Once the kernel has dropped a watch (IN_DELETE_SELF, the file is gone), the path stands in the
  -- tables of the watcher all the same: `add` of a path that is that file again succeeds without a
  -- change, and no descriptor watches the path.
  pub add-forgotten :
      (path rpath : Str) (wd : ℕ) (w : FsWatcher I) (dropped : I.W)
      → IsCoupled I w
      → lookup str_key rpath w.path_to_wd ≡ some wd
      → ((m : ℕ) → I.watches dropped m ≡ (if wd == m then none else I.watches w.kernel m))
      → I.realpath path dropped ≡ some rpath
      → (add I path (record w { kernel = dropped }) ≡ (ok tt, record w { kernel = dropped }))
        × ((m : ℕ) → I.watches dropped m ≢ some rpath)
  unfolding add add_real
  add-forgotten path rpath wd w dropped v known gone real = (
    rw (real, known, add, add_real) refl,
    λ m h. elim (Bool-cases (wd == m)) [
      | inl e ↦ cc (gone m, ap (λ b. if b then none else I.watches w.kernel m) e, h)
      | inr e ↦
          let still =
            sym (ap (λ b. if b then none else I.watches w.kernel m) e) ∙ sym (gone m) ∙ h in
          let same = v.back rpath m (sym (v.watched m) ∙ still) in
          let one : wd ≡ m = cc (known, same) in
          absurd (cc (e, ap (λ k. wd == k) one, same_refl nat_key wd))
    ],
  )

  path_at_unknown :
      (n : ℕ) (w : FsWatcher I)
      → lookup nat_key n w.wd_to_path ≡ none
      → path_at I n w ≡ ([], record w { wd_to_path = insert nat_key n [] w.wd_to_path })
  path_at_unknown n w unknown = rw (unknown, path_at) refl

  attrib_unknown :
      (ev : RawEvent) (w : FsWatcher I)
      → lookup nat_key ev.wd w.wd_to_path ≡ none
      → ev.mask ≡ in_attrib
      → lookup nat_key ev.wd (handle_event I ev w).1.wd_to_path ≡ some []
  unfolding handle_event
  attrib_unknown ev w unknown attrib = rw (attrib) (
      ap (λ at. lookup nat_key ev.wd at.1.wd_to_path) (path_at_unknown ev.wd w unknown)
      ∙ lookup-insert_here nat_key ev.wd [] w.wd_to_path)

  -- After `remove` of a watched path, an IN_ATTRIB event of its descriptor that is still in the queue
  -- enters the descriptor again, with an empty path.
  pub handle_event-remove_path :
      (path rpath : Str) (ev : RawEvent) (w : FsWatcher I)
      → I.realpath path w.kernel ≡ some rpath
      → lookup str_key rpath w.path_to_wd ≡ some ev.wd
      → ev.mask ≡ in_attrib
      → lookup nat_key ev.wd (handle_event I ev (remove_path I path w).1).1.wd_to_path ≡ some []
  unfolding remove_path remove_real
  handle_event-remove_path path rpath ev w real known attrib =
      attrib_unknown ev (remove_path I path w).1
        (rw (real, known, remove_path, remove_real)
          (lookup-remove nat_key ev.wd ev.wd w.wd_to_path
            ∙ ap (λ b. if b then none else lookup nat_key ev.wd w.wd_to_path)
                (same_refl nat_key ev.wd)))
        attrib
