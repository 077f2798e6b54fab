-- ===== src/Watcher/Coupled.antt =====
-- The tables of src/FSWatcher.cpp, and what an entry more or less does to them.
use hawck.Prelude.{
  ℕ, ◌≡◌, sym, ap, ◌∙◌, false, none, some, Str, str_eq, str_eq_iff, ◌==◌, ==_iff, if◌then◌else◌,
  Bool-cases, inl, inr,
}
use hawck.Prelude.Maps.{
  lookup, insert, remove, nat_key, str_key, lookup-insert, lookup-remove, lookup-insert_here,
  lookup-insert_other, lookup-insert_inv, lookup-remove_inv, lookup-remove_other, lookup_apart,
}
use hawck.Watcher.{Inotify, FsWatcher}

module _ (I : Inotify) where
  -- The two maps are inverse to each other, and a descriptor has the path that the kernel watches.
  pub record IsCoupled (w : FsWatcher I) : Type 0 where
    pub there :
        (p : Str) (n : ℕ)
        → lookup str_key p w.path_to_wd ≡ some n
        → lookup nat_key n w.wd_to_path ≡ some p
    pub back :
        (p : Str) (n : ℕ)
        → lookup nat_key n w.wd_to_path ≡ some p
        → lookup str_key p w.path_to_wd ≡ some n
    pub watched : (n : ℕ) → I.watches w.kernel n ≡ lookup nat_key n w.wd_to_path

  -- The state after a path has been entered.
  abbrev entered : Str → ℕ → FsWatcher I → FsWatcher I
  entered rpath wd w = record w {
    path_to_wd = insert str_key rpath wd w.path_to_wd;
    wd_to_path = insert nat_key wd rpath w.wd_to_path;
    kernel = (I.add_watch rpath w.kernel).1;
  }

  module _ (rpath : Str) (wd : ℕ) (w : FsWatcher I) (v : IsCoupled w)
      (new : lookup str_key rpath w.path_to_wd ≡ none)
      (got : (I.add_watch rpath w.kernel).0 ≡ some wd) where
    unused : lookup nat_key wd w.wd_to_path ≡ none
    unused =
        sym (v.watched wd)
        ∙ I.add-fresh rpath w.kernel wd (λ m h. cc (v.back rpath m (sym (v.watched m) ∙ h), new))
            got

    entered-there :
        (p : Str) (n : ℕ)
        → lookup str_key p (entered rpath wd w).path_to_wd ≡ some n
        → lookup nat_key n (entered rpath wd w).wd_to_path ≡ some p
    entered-there p n h = elim (lookup-insert_inv str_key p rpath wd n w.path_to_wd h) [
      | inl (path, desc) ↦ rw (← path, ← desc) (lookup-insert_here nat_key wd rpath w.wd_to_path)
      | inr (other, old) ↦
          let known = v.there p n old in
          lookup-insert_other nat_key n wd rpath w.wd_to_path
            (lookup_apart nat_key n wd p w.wd_to_path known unused)
          ∙ known
    ]

    entered-back :
        (p : Str) (n : ℕ)
        → lookup nat_key n (entered rpath wd w).wd_to_path ≡ some p
        → lookup str_key p (entered rpath wd w).path_to_wd ≡ some n
    entered-back p n h = elim (lookup-insert_inv nat_key n wd rpath p w.wd_to_path h) [
      | inl (desc, path) ↦ rw (← path, ← desc) (lookup-insert_here str_key rpath wd w.path_to_wd)
      | inr (other, old) ↦
          let known = v.back p n old in
          lookup-insert_other str_key p rpath wd w.path_to_wd
            (lookup_apart str_key p rpath n w.path_to_wd known new)
          ∙ known
    ]

    pub entered-IsCoupled : IsCoupled (entered rpath wd w)
    entered-IsCoupled = record {
      there = entered-there;
      back = entered-back;
      watched = λ n.
          I.watches-add rpath w.kernel wd n got
          ∙ ap (λ o. if wd == n then some rpath else o) (v.watched n)
          ∙ sym (lookup-insert nat_key n wd rpath w.wd_to_path);
    }

  pub failed-IsCoupled :
      (rpath : Str) (w : FsWatcher I)
      → IsCoupled w
      → (I.add_watch rpath w.kernel).0 ≡ none
      → IsCoupled (record w { kernel = (I.add_watch rpath w.kernel).1 })
  failed-IsCoupled rpath w v failed = record {
    there = v.there;
    back = v.back;
    watched = λ n. I.watches-failed rpath w.kernel n failed ∙ v.watched n;
  }

  module _ (rpath : Str) (wd : ℕ) (w : FsWatcher I) (v : IsCoupled w)
      (old : lookup str_key rpath w.path_to_wd ≡ some wd) where
    -- Another path has another descriptor.
    descriptors_apart :
        (p : Str) (n : ℕ)
        → lookup nat_key n w.wd_to_path ≡ some p
        → str_eq rpath p ≡ false
        → (wd == n) ≡ false
    descriptors_apart p n h d = elim (Bool-cases (wd == n)) [
      | inr e ↦ e
      | inl e ↦
          let one = ap (λ m. lookup nat_key m w.wd_to_path) ((==_iff wd n).0 e) in
          let path : rpath ≡ p = cc (v.there rpath wd old, one, h) in
          absurd (cc (d, (str_eq_iff rpath p).1 path))
    ]

    paths_apart :
        (p : Str) (n : ℕ)
        → lookup str_key p w.path_to_wd ≡ some n
        → (wd == n) ≡ false
        → str_eq rpath p ≡ false
    paths_apart p n h d = elim (Bool-cases (str_eq rpath p)) [
      | inr e ↦ e
      | inl e ↦
          let one = ap (λ q. lookup str_key q w.path_to_wd) ((str_eq_iff rpath p).0 e) in
          let desc : wd ≡ n = cc (old, one, h) in absurd (cc (d, (==_iff wd n).1 desc))
    ]

    pub removed-IsCoupled : IsCoupled (record w {
      path_to_wd = remove str_key rpath w.path_to_wd;
      wd_to_path = remove nat_key wd w.wd_to_path;
      kernel = I.rm_watch wd w.kernel;
    })
    removed-IsCoupled = record {
      there = λ p n h.
          let (other, known) = lookup-remove_inv str_key p rpath n w.path_to_wd h in
          let found = v.there p n known in
          lookup-remove_other nat_key n wd w.wd_to_path (descriptors_apart p n found other) ∙ found;
      back = λ p n h.
          let (other, known) = lookup-remove_inv nat_key n wd p w.wd_to_path h in
          let found = v.back p n known in
          lookup-remove_other str_key p rpath w.path_to_wd (paths_apart p n found other) ∙ found;
      watched = λ n.
          I.watches-rm wd w.kernel n
          ∙ ap (λ o. if wd == n then none else o) (v.watched n)
          ∙ sym (lookup-remove nat_key n wd w.wd_to_path);
    }
