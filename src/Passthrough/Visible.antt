-- ===== src/Passthrough/Visible.antt =====
-- A key is shown to the macro daemon exactly when a loaded file lists it (src/KBDDaemon.cpp).
use mathlib.Core.List.{foldl, append_assoc, append-nil}
use hawck.Prelude.{
  ℕ, ◌<◌, ◌≡◌, refl, sym, ap, ◌∙◌, List, [], ◌∷◌, ◌++◌, none, some, Option, arith, Str, codes, elem,
  All, ltb, ◌==◌, if◌then◌else◌, Bool-cases, Option-cases, inl, inr, ◌⊎◌,
}
use hawck.Prelude.Int.{ℤ, pos, negsuc}
use hawck.Input.{key_max}
use hawck.Csv.{get_lines, load_from_stream, get_named_cells}
use hawck.Passthrough.{
  key_show, key_hide, Visibility, find, erase, assign, mark, Disk, Env, Daemon, unload_passthrough,
  load_cell, load_passthrough,
}
use hawck.Passthrough.Sources.{
  listed, Unique, InRange, mark-at, readd-at, find-erase, erase-Unique, erase-InRange, listed-erase,
  listed-assign, assign-InRange, assign-Unique,
}

module _ (env : Env) where
  pub record IsConsistent (d : Daemon env) : Type 0 where
    pub shown :
        (c : ℕ) → d.key_visibility c ≡ (if listed d.key_sources c then key_show else key_hide)
    pub unique : Unique d.key_sources
    pub in_range : InRange d.key_sources

  -- The codes that the loop over the cells accepts.
  unfoldable pub valid_codes : List Str → List ℕ
  valid_codes [] = []
  valid_codes (cell ∷ cells) = elim (env.stoi cell) [
    | none ↦ valid_codes cells
    | some (pos i) ↦ if ltb i key_max then i ∷ valid_codes cells else valid_codes cells
    | some (negsuc i) ↦ valid_codes cells
  ]

  valid_codes-InRange : (cells : List Str) → All (λ c. c < key_max) (valid_codes cells)
  unfolding valid_codes
  valid_codes-InRange [] = tt
  valid_codes-InRange (cell ∷ cells) = ground (arith, valid_codes-InRange cells)

  -- A cell is skipped, or its code is made visible and noted.
  load_cell_cases :
      (cell : Str) (o : Option ℤ)
      → env.stoi cell ≡ o
      → (((vis : Visibility) (acc : List ℕ) → load_cell env (vis, acc) cell ≡ (vis, acc))
          × ((cells : List Str) → valid_codes (cell ∷ cells) ≡ valid_codes cells))
        ⊎ ((i : ℕ) × ((vis : Visibility) (acc : List ℕ)
              → load_cell env (vis, acc) cell
                ≡ ((λ c. if c == i then key_show else vis c), acc ++ i ∷ []))
            × ((cells : List Str) → valid_codes (cell ∷ cells) ≡ i ∷ valid_codes cells))
  unfolding load_cell valid_codes
  load_cell_cases cell none e =
      inl ((λ vis acc. rw (e, load_cell) refl), (λ cells. rw (e, valid_codes) refl))
  load_cell_cases cell (some (negsuc i)) e =
      inl ((λ vis acc. rw (e, load_cell) refl), (λ cells. rw (e, valid_codes) refl))
  load_cell_cases cell (some (pos i)) e = elim (Bool-cases (ltb i key_max)) [
    | inl low ↦ inr (
      i,
      (λ vis acc. rw (e, load_cell) (rw low refl)),
      (λ cells. rw (e, valid_codes) (rw low refl)),
    )
    | inr high ↦ inl (
      (λ vis acc. rw (e, load_cell) (rw high refl)),
      (λ cells. rw (e, valid_codes) (rw high refl)),
    )
  ]

  load_cells-codes :
      (cells : List Str) (vis : Visibility) (acc : List ℕ)
      → (foldl (load_cell env) (vis, acc) cells).1 ≡ acc ++ valid_codes cells
  load_cells-codes [] vis acc = unfold valid_codes in sym (append-nil acc)
  load_cells-codes (cell ∷ cells) vis acc = elim (load_cell_cases cell (env.stoi cell) refl) [
    | inl (same, skip) ↦
        ap (λ s. (foldl (load_cell env) s cells).1) (same vis acc)
        ∙ load_cells-codes cells vis acc
        ∙ ap (◌++◌ acc) (sym (skip cells))
    | inr (i, next, keep) ↦
        ap (λ s. (foldl (load_cell env) s cells).1) (next vis acc)
        ∙ load_cells-codes cells (λ c. if c == i then key_show else vis c) (acc ++ i ∷ [])
        ∙ append_assoc acc (i ∷ []) (valid_codes cells)
        ∙ ap (◌++◌ acc) (sym (keep cells))
  ]

  load_cells-visible :
      (cells : List Str) (vis : Visibility) (acc : List ℕ) (c : ℕ)
      → (foldl (load_cell env) (vis, acc) cells).0 c
        ≡ (if elem c (valid_codes cells) then key_show else vis c)
  load_cells-visible [] vis acc c = unfold valid_codes in refl
  load_cells-visible (cell ∷ cells) vis acc c = elim (load_cell_cases cell (env.stoi cell) refl) [
    | inl (same, skip) ↦
        ap (λ s. (foldl (load_cell env) s cells).0 c) (same vis acc)
        ∙ load_cells-visible cells vis acc c
        ∙ rw (skip cells)
    | inr (i, next, keep) ↦
        ap (λ s. (foldl (load_cell env) s cells).0 c) (next vis acc)
        ∙ load_cells-visible cells (λ k. if k == i then key_show else vis k) (acc ++ i ∷ []) c
        ∙ rw (keep cells) (ground arith)
  ]

  pub unload-IsConsistent :
      (path : Str) (d : Daemon env) → IsConsistent d → IsConsistent (unload_passthrough env path d)
  unfolding unload_passthrough
  unload-IsConsistent path d v = elim (Option-cases (find path d.key_sources)) [
    | inl absent ↦ rw (absent, unload_passthrough) v
    | inr (vec, found) ↦
        rw (found, unload_passthrough)
          (record {
            shown = λ c. ground (
              arith,
              readd-at (erase path d.key_sources) (mark key_hide vec d.key_visibility) c,
              mark-at key_hide vec d.key_visibility c,
              v.shown c,
              listed-erase path d.key_sources vec c found,
            );
            unique = erase-Unique path d.key_sources v.unique;
            in_range = erase-InRange path d.key_sources v.in_range;
          })
  ]

  unload-find :
      (path : Str) (d : Daemon env)
      → IsConsistent d
      → find path (unload_passthrough env path d).key_sources ≡ none
  unfolding unload_passthrough
  unload-find path d v = ground (arith, find-erase path d.key_sources v.unique)

  any_watcher :
      (d : Daemon env) (w : env.Watcher) → IsConsistent d → IsConsistent (record d { keys_fsw = w })
  any_watcher d w v = record { shown = v.shown; unique = v.unique; in_range = v.in_range }

  -- The column of key codes of the file at a path; `none` is the exception `CSVError`.
  abbrev pub code_cells : Disk → Str → Option (List Str)
  code_cells disk path =
      get_named_cells (load_from_stream (get_lines [] (disk.content path))) (codes "key_code")

  -- What `load_passthrough` leaves when the file has the column, but for the watcher.
  abbrev fill : Str → List Str → Daemon env → Daemon env
  fill path cells d = record d {
    key_visibility = (foldl (load_cell env) (d.key_visibility, []) cells).0;
    key_sources = assign path (foldl (load_cell env) (d.key_visibility, []) cells).1 d.key_sources;
  }

  fill-IsConsistent :
      (path : Str) (cells : List Str) (d : Daemon env)
      → IsConsistent d
      → find path d.key_sources ≡ none
      → IsConsistent (fill path cells d)
  fill-IsConsistent path cells d v absent =
      rw (load_cells-codes cells d.key_visibility []) (record {
        shown = λ c. ground (
          arith,
          load_cells-visible cells d.key_visibility [] c,
          v.shown c,
          listed-assign path (valid_codes cells) d.key_sources c absent,
        );
        unique = assign-Unique path (valid_codes cells) d.key_sources absent v.unique;
        in_range =
            assign-InRange path (valid_codes cells) d.key_sources (valid_codes-InRange cells)
              v.in_range;
      })

  pub load-IsConsistent :
      (disk : Disk) (path : Str) (d : Daemon env)
      → IsConsistent d
      → IsConsistent (load_passthrough env disk path d)
  unfolding load_passthrough
  load-IsConsistent disk rel_path d v =
      let path = disk.realpath_safe rel_path in
      let e = unload_passthrough env path d in
      let emptied : IsConsistent e = unload-IsConsistent path d v in
      let filled =
        λ (cells : List Str). fill-IsConsistent path cells e emptied (unload-find path d v) in
      elim (Option-cases (code_cells disk path)) [
        | inl error ↦ rw (error, load_passthrough) emptied
        | inr (cells, found) ↦ elim (Option-cases (env.add e.keys_fsw path)) [
          | inl failed ↦ rw (found, load_passthrough) (rw failed (filled cells))
          | inr (w, added) ↦
              rw (found, load_passthrough)
                (rw added (any_watcher (fill path cells e) w (filled cells)))
        ]
      ]

  -- After a file with the column of key codes is loaded, its entry holds the codes of the column that
  -- are numbers in range, in order, and the other entries are those that were there before.
  pub load-sources :
      (disk : Disk) (rel_path : Str) (cells : List Str) (d : Daemon env)
      → code_cells disk (disk.realpath_safe rel_path) ≡ some cells
      → (load_passthrough env disk rel_path d).key_sources
        ≡ assign
            (disk.realpath_safe rel_path)
            (valid_codes cells)
            (unload_passthrough env (disk.realpath_safe rel_path) d).key_sources
  unfolding load_passthrough
  load-sources disk rel_path cells d found =
      let path = disk.realpath_safe rel_path in
      let e = unload_passthrough env path d in
      let codes_read =
        ap (λ v. assign path v e.key_sources) (load_cells-codes cells e.key_visibility []) in
      elim (Option-cases (env.add e.keys_fsw path)) [
        | inl failed ↦ rw (found, load_passthrough) (rw failed codes_read)
        | inr (w, added) ↦ rw (found, load_passthrough) (rw added codes_read)
      ]
