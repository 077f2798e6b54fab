-- ===== src/Paths/Examples.antt =====
-- Tests of paths and of the working directory.
use hawck.Prelude.{◌≡◌, refl, true, false, [], ◌∷◌, some, Str, codes}
use hawck.Paths.{join, path_join}
use hawck.Paths.ChDir.{Cwd, ChDir, changed, enter, try_back}
use hawck.Effect.{ok}

-- The working directory, and the directory that the one descriptor is open on.
abbrev calls : Cwd
calls = record {
  W = Str × Str;
  realpath_dot = λ w. some w.0;
  open_dot = λ w. (some 3, (w.0, w.0));
  chdir = λ path w. (true, (path, w.1));
  fchdir = λ fd w. (changed, (w.1, w.1));
  close = λ fd w. w;
  cwd = λ w. w.0;
  dir_of = λ w fd. some w.1;
  dir_of-open = λ w fd h. refl;
  dir_of-chdir = λ path w fd. refl;
  dir_of-fchdir = λ fd n w. refl;
  cwd-fchdir = λ fd w dir h g. cc g;
  cwd-close = λ fd w. refl;
}

abbrev home : ChDir
home = record { olddir = codes "/h"; fd = 3; done = false }

joined : path_join (codes "a") (codes "b" ∷ codes "c" ∷ []) ≡ codes "a/b/c"
unfolding path_join join
joined = refl

entered : enter calls (codes "/b") (codes "/h", codes "/") ≡ (ok home, (codes "/b", codes "/h"))
unfolding enter
entered = refl

returned : try_back calls 1 3 (codes "/b", codes "/h") ≡ (ok tt, (codes "/h", codes "/h"))
unfolding try_back
returned = refl
