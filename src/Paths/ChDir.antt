-- ===== src/Paths/ChDir.antt =====
-- `ChDir` of src/utils.hpp: a change of the working directory that is undone.
use hawck.Prelude.{
  ℕ, zero, suc, ◌≡◌, refl, ◌⊎◌, sym, ap, ◌∙◌, Bool, true, false, Option, none, some, Str,
  if◌then◌else◌, Option-cases, Bool-cases, inl, inr,
}
use hawck.Effect.{ok, err, system_error, Action}

-- What `fchdir` does: it fails with EIO or EINTR, or with another error.
pub data Fchdir : Type 0 where
  changed : Fchdir
  try_again : Fchdir
  refused : Fchdir

-- The calls that have to do with the working directory. `cwd` is that directory, and `dir_of` the
-- directory that a descriptor is open on.
pub record Cwd : Type 1 where
  pub W : Type 0
  pub realpath_dot : W → Option Str
  pub open_dot : W → Option ℕ × W
  pub chdir : Str → W → Bool × W
  pub fchdir : ℕ → W → Fchdir × W
  pub close : ℕ → W → W
  pub cwd : W → Str
  pub dir_of : W → ℕ → Option Str
  pub dir_of-open :
      (w : W) (fd : ℕ) → (open_dot w).0 ≡ some fd → dir_of (open_dot w).1 fd ≡ some (cwd w)
  pub dir_of-chdir : (path : Str) (w : W) (fd : ℕ) → dir_of (chdir path w).1 fd ≡ dir_of w fd
  pub dir_of-fchdir : (fd n : ℕ) (w : W) → dir_of (fchdir fd w).1 n ≡ dir_of w n
  pub cwd-fchdir :
      (fd : ℕ) (w : W) (dir : Str)
      → (fchdir fd w).0 ≡ changed
      → dir_of w fd ≡ some dir
      → cwd (fchdir fd w).1 ≡ dir
  pub cwd-close : (fd : ℕ) (w : W) → cwd (close fd w) ≡ cwd w

pub record ChDir : Type 0 where
  pub olddir : Str
  pub fd : ℕ
  pub done : Bool

-- The number of times that `popd` tries.
abbrev pub max_tries : ℕ
max_tries = 1000

module _ (C : Cwd) where
  open C use {W}

  -- The constructor.
  unfoldable pub enter : Str → Action W ChDir
  enter path w =
      let (fd, w') = C.open_dot w in
      elim (C.realpath_dot w) [
        | none ↦ (err system_error, w)
        | some olddir ↦ elim fd [
          | none ↦ (err system_error, w')
          | some fd ↦
              let (moved, w'') = C.chdir path w' in
              if moved
              then (ok (record { olddir = olddir; fd = fd; done = false }), w'')
              else (err system_error, C.close fd w'')
        ]
      ]

  -- The loop of `popd`, on the tries that are left.
  unfoldable pub try_back : ℕ → ℕ → Action W Unit
  try_back zero fd w = (err system_error, w)
  try_back (suc tries) fd w =
      let (r, w') = C.fchdir fd w in
      let rest = try_back tries fd w' in
      elim r [
        | changed ↦ (ok tt, C.close fd w')
        | try_again ↦ rest
        | refused ↦ (err system_error, w')
      ]

  unfoldable pub popd : Action (ChDir × W) Unit
  popd (c, w) =
      let (r, w') = try_back max_tries c.fd w in
      if c.done then (ok tt, (c, w)) else (r, (record c { done = true }, w'))

  Fchdir-cases : (r : Fchdir) → (r ≡ changed) ⊎ ((r ≡ try_again) ⊎ (r ≡ refused))
  Fchdir-cases changed = inl refl
  Fchdir-cases try_again = inr (inl refl)
  Fchdir-cases refused = inr (inr refl)

  try_back_moves :
      (tries fd : ℕ) (w : W) (dir : Str)
      → (try_back tries fd w).0 ≡ ok tt
      → C.dir_of w fd ≡ some dir
      → C.cwd (try_back tries fd w).1 ≡ dir
  unfolding try_back
  try_back_moves zero fd w dir h at = absurd (cc h)
  try_back_moves (suc tries) fd w dir h at =
      let w' = (C.fchdir fd w).1 in
      elim (Fchdir-cases (C.fchdir fd w).0) [
        | inl moved ↦ rw (moved, try_back) (C.cwd-close fd w' ∙ C.cwd-fchdir fd w dir moved at)
        | inr (inl again) ↦
            let next : try_back (suc tries) fd w ≡ try_back tries fd w' =
              rw (again, try_back) refl in
            rw (next) (
              try_back_moves tries fd w' dir (sym (ap (λ r. r.0) next) ∙ h)
                (C.dir_of-fchdir fd fd w ∙ at))
        | inr (inr failed) ↦
            let stops : (try_back (suc tries) fd w).0 ≡ err system_error =
              rw (failed, try_back) refl in
            absurd (cc (stops, h))
      ]

  enter_inv :
      (path : Str) (w : W) (c : ChDir)
      → (enter path w).0 ≡ ok c
      → (c.done ≡ false) × (C.dir_of (enter path w).1 c.fd ≡ some (C.cwd w))
  unfolding enter
  enter_inv path w c h = elim (Option-cases (C.realpath_dot w)) [
    | inl nowhere ↦
        let stops : (enter path w).0 ≡ err system_error = rw (nowhere, enter) refl in
        absurd (cc (stops, h))
    | inr (olddir, here) ↦ elim (Option-cases (C.open_dot w).0) [
      | inl failed ↦
          let stops : (enter path w).0 ≡ err system_error = rw (here, failed, enter) refl in
          absurd (cc (stops, h))
      | inr (fd, opened) ↦
          let w' = (C.open_dot w).1 in
          elim (Bool-cases (C.chdir path w').0) [
            | inr denied ↦
                let stops : (enter path w).0 ≡ err system_error =
                  rw (here, opened, denied, enter) refl in
                absurd (cc (stops, h))
            | inl moved ↦
                let result : enter path w ≡ (
                  ok (record { olddir = olddir; fd = fd; done = false }),
                  (C.chdir path w').1,
                ) =
                  rw (here, opened, moved, enter) refl in
                let same : ok (record { olddir = olddir; fd = fd; done = false }) ≡ ok c =
                  sym (ap (λ r. r.0) result) ∙ h in
                let fields : (record { olddir = olddir; fd = fd; done = false }) ≡ c = cc same in
                (
                  sym (ap (λ (x : ChDir). x.done) fields),
                  ap (λ r. C.dir_of r.1 c.fd) result
                      ∙ ap (λ (x : ChDir). C.dir_of (C.chdir path w').1 x.fd) (sym fields)
                      ∙ C.dir_of-chdir path w' fd
                      ∙ C.dir_of-open w fd opened,
                )
          ]
    ]
  ]

  -- Whatever happens after a `ChDir` was made, if its descriptor is still open on the directory of
  -- before, and `popd` returns, then that is the working directory again; a second `popd` changes
  -- nothing.
  pub popd-enter :
      (path : Str) (w u : W) (c : ChDir)
      → (enter path w).0 ≡ ok c
      → C.dir_of u c.fd ≡ C.dir_of (enter path w).1 c.fd
      → (popd (c, u)).0 ≡ ok tt
      → (C.cwd (popd (c, u)).1.1 ≡ C.cwd w) × (popd (popd (c, u)).1 ≡ (ok tt, (popd (c, u)).1))
  unfolding popd
  popd-enter path w u c made kept back =
      let (fresh, at) = enter_inv path w c made in
      let first : popd (c, u) ≡ (
        (try_back max_tries c.fd u).0,
        (record c { done = true }, (try_back max_tries c.fd u).1),
      ) =
        rw (fresh, popd) refl in
      rw (first) (
        try_back_moves max_tries c.fd u (C.cwd w) (sym (ap (λ r. r.0) first) ∙ back) (kept ∙ at),
        refl,
      )
