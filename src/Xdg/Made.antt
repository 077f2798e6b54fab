-- ===== src/Xdg/Made.antt =====
-- What the constructor of src/XDG.cpp leaves.
use mathlib.Core.Path.{subst}
use hawck.Prelude.{
  ℕ, ◌≡◌, refl, sym, ap, ◌∙◌, true, [], ◌++◌, Option, none, some, Str, codes, str_eq, arith,
  Bool-cases, inl, inr,
}
use hawck.Effect.{Result, ok, err, Action, proceed, ◌>>◌, Result-cases}
use hawck.Paths.{join, path_join}
use hawck.Xdg.{
  Dirs, is_dir_at, mk_path_if_not_exists, Xdg, path, constructed, thrown, make_own, make_bases,
  from_env, env_string, ended, own_made, xdg,
}
use hawck.Xdg.Walk.{has_name, has_name-append, mk_path_keeps, mk_path_makes}

module _ (F : Dirs) where
  open F use {W}

  then_inv :
      (first rest : Action W ℕ) (w : W) (n : ℕ)
      → ((first >> rest) w).0 ≡ ok n
      → (a : ℕ) × ((first w).0 ≡ ok a) × ((first >> rest) w ≡ rest (first w).1)
  then_inv first rest w n h = elim (Result-cases (first w).0) [
    | inl (a, fine) ↦ (a, fine, rw (fine, proceed) refl)
    | inr (e, failed) ↦
        let stops : ((first >> rest) w).0 ≡ err e = rw (failed, proceed) refl in
        absurd (cc (stops, h))
  ]

  made_by :
      (p : Str) (um n : ℕ) (w : W)
      → has_name p ≡ true
      → (mk_path_if_not_exists F p um w).0 ≡ ok n
      → is_dir_at F p (mk_path_if_not_exists F p um w).1 ≡ true
  made_by p um n w named h = (mk_path_makes F p p um n w named h).0

  kept_by :
      (q p : Str) (um : ℕ) (w : W)
      → is_dir_at F q w ≡ true
      → is_dir_at F q (mk_path_if_not_exists F p um w).1 ≡ true
  unfolding is_dir_at
  kept_by q p um w h = mk_path_keeps F p um w q h

  path_named :
      (dir : Str) (x : Xdg F) → has_name x.appname ≡ true → has_name (path F dir x []) ≡ true
  unfolding path_join join
  path_named dir x named = ground (arith, has_name-append (dir ++ codes "/") x.appname, named)

  env_unset : (name : Str) → F.getenv name ≡ none → env_string F name [] ≡ []
  env_unset name unset = rw (unset, env_string) refl

  -- The four directories of the program.
  abbrev pub AllMade : Xdg F → W → Type 0
  AllMade x w =
      (is_dir_at F (path F x.config_home x []) w ≡ true)
      × (is_dir_at F (path F x.data_home x []) w ≡ true)
      × (is_dir_at F (path F x.cache_home x []) w ≡ true)
      × (is_dir_at F (path F x.runtime_dir x []) w ≡ true)

  make_own_makes :
      (x : Xdg F) (w : W) (n : ℕ)
      → has_name x.appname ≡ true
      → (make_own F x w).0 ≡ ok n
      → AllMade x (make_own F x w).1
  make_own_makes x w n named h =
      let config = path F x.config_home x [] in
      let data_dir = path F x.data_home x [] in
      let cache = path F x.cache_home x [] in
      let runtime = path F x.runtime_dir x [] in
      let first = mk_path_if_not_exists F config 0o700 in
      let second = mk_path_if_not_exists F data_dir 0o700 in
      let third = mk_path_if_not_exists F cache 0o775 in
      let fourth = mk_path_if_not_exists F runtime 0o700 in
      let (c, three, last) = then_inv (first >> second >> third) fourth w n h in
      let (b, two, more) = then_inv (first >> second) third w c three in
      let (a, one, next) = then_inv first second w b two in
      let w1 = (first w).1 in
      let w2 = (second w1).1 in
      let w3 = (third w2).1 in
      let third_step = more ∙ ap (λ r. third r.1) next in
      let fourth_step = last ∙ ap (λ r. fourth r.1) third_step in
      let at_first = made_by config 0o700 a w (path_named x.config_home x named) one in
      let at_second =
        made_by data_dir 0o700 b w1 (path_named x.data_home x named)
          (sym (ap (λ r. r.0) next) ∙ two) in
      let at_third =
        made_by cache 0o775 c w2 (path_named x.cache_home x named)
          (sym (ap (λ r. r.0) third_step) ∙ three) in
      let at_fourth =
        made_by runtime 0o700 n w3 (path_named x.runtime_dir x named)
          (sym (ap (λ r. r.0) fourth_step) ∙ h) in
      subst (λ r. AllMade x r.1) (sym fourth_step)
        (
          kept_by config runtime 0o700 w3
              (kept_by config cache 0o775 w2 (kept_by config data_dir 0o700 w1 at_first)),
          kept_by data_dir runtime 0o700 w3 (kept_by data_dir cache 0o775 w2 at_second),
          kept_by cache runtime 0o700 w3 at_third,
          at_fourth,
        )

  -- What the result of the parts of the constructor says of them.
  ended_inv :
      (x y : Xdg F) (r : Result ℕ × W)
      → (ended F x r).0 ≡ constructed y
      → (n : ℕ) × (r.0 ≡ ok n) × (y ≡ x) × ((ended F x r).1 ≡ r.1)
  ended_inv x y (ok n, w) h = (n, refl, cc h, refl)
  ended_inv x y (err e, w) h = absurd (cc h)

  own_made_inv :
      (x y : Xdg F) (r : Result (Unit {0}) × W)
      → (own_made F x r).0 ≡ constructed y
      → has_name x.appname ≡ true
      → (y ≡ x) × AllMade x (own_made F x r).1
  own_made_inv x y (err e, w) h named = absurd (cc h)
  own_made_inv x y (ok u, w) h named =
      let (n, fine, same, world) = ended_inv x y (make_own F x w) h in
      (same, subst (AllMade x) (sym world) (make_own_makes x w n named fine))

  xdg_inv :
      (appname : Str) (w : W) (x : Xdg F)
      → has_name appname ≡ true
      → (xdg F appname w).0 ≡ constructed x
      → (x ≡ from_env F appname (env_string F (codes "HOME") [])) × AllMade x (xdg F appname w).1
  unfolding xdg
  xdg_inv appname w x named h =
      let home = env_string F (codes "HOME") [] in
      let y = from_env F appname home in
      let r = make_bases F y (home ++ codes "/.xdg-runtime-dir-fallback") w in
      elim (Bool-cases (F.getuser w)) [
        | inr nobody ↦
            let stops : (xdg F appname w).0 ≡ thrown = rw (nobody, xdg) refl in
            absurd (cc (stops, h))
        | inl user ↦ elim (Bool-cases (str_eq home [])) [
          | inl unset ↦
              let stops : (xdg F appname w).0 ≡ thrown = rw (user, unset, xdg) refl in
              absurd (cc (stops, h))
          | inr set ↦ elim (Bool-cases (is_dir_at F home w)) [
            | inr missing ↦
                let stops : (xdg F appname w).0 ≡ thrown = rw (user, set, missing, xdg) refl in
                absurd (cc (stops, h))
            | inl there ↦
                let goes : xdg F appname w ≡ own_made F y r = rw (user, set, there, xdg) refl in
                let (same, made) = own_made_inv y x r (sym (ap (λ o. o.0) goes) ∙ h) named in
                (
                  same,
                  subst (λ o. AllMade x o.1) (sym goes)
                      (subst (λ z. AllMade z (own_made F y r).1) (sym same) made),
                )
          ]
        ]
      ]

  -- A variable, or what stands for it where it is not set.
  abbrev pub or_else : Option Str → Str → Str
  or_else o fallback = elim o [ none ↦ fallback | some value ↦ value ]

  -- A directory of the class, and that of the program in it.
  abbrev pub IsMade : Str → Str → Str → W → Type 0
  IsMade dir expected appname w =
      (dir ≡ expected) × (is_dir_at F (expected ++ codes "/" ++ appname) w ≡ true)

  -- If the constructor returns, for a program that has a name, then `dirs` has the values of
  -- $XDG_CONFIG_HOME, $XDG_DATA_HOME and $XDG_CACHE_HOME, or of .config, .local/share and .cache in $HOME
  -- where these are not set, and that of $XDG_RUNTIME_DIR, or the empty string where it is not set; and
  -- in each there is a directory of the program's name.
  pub xdg_makes :
      (appname : Str) (w : W) (x : Xdg F)
      → has_name appname ≡ true
      → (xdg F appname w).0 ≡ constructed x
      → let home = or_else (F.getenv (codes "HOME")) [] in
        let w' = (xdg F appname w).1 in
        IsMade x.config_home
          (or_else (F.getenv (codes "XDG_CONFIG_HOME")) (home ++ codes "/.config"))
          appname
          w'
        × IsMade x.data_home
            (or_else (F.getenv (codes "XDG_DATA_HOME")) (home ++ codes "/.local/share"))
            appname
            w'
        × IsMade x.cache_home
            (or_else (F.getenv (codes "XDG_CACHE_HOME")) (home ++ codes "/.cache"))
            appname
            w'
        × IsMade x.runtime_dir (or_else (F.getenv (codes "XDG_RUNTIME_DIR")) []) appname w'
  unfolding path_join join
  xdg_makes appname w x named h =
      let (env, made) = xdg_inv appname w x named h in
      let w' = (xdg F appname w).1 in
      let (config, data_dir, cache, runtime) = subst (λ y. AllMade y w') env made in
      (
        (ap (λ y. y.config_home) env, config),
        (ap (λ y. y.data_home) env, data_dir),
        (ap (λ y. y.cache_home) env, cache),
        (ap (λ y. y.runtime_dir) env, runtime),
      )

  -- If $XDG_RUNTIME_DIR is not set, the constructor returns only where the runtime directory of the
  -- program is a directory in the root of the file system, and not one in the fallback.
  pub xdg_root :
      (appname : Str) (w : W) (x : Xdg F)
      → has_name appname ≡ true
      → F.getenv (codes "XDG_RUNTIME_DIR") ≡ none
      → (xdg F appname w).0 ≡ constructed x
      → (path F x.runtime_dir x [] ≡ codes "/" ++ appname)
        × (is_dir_at F (codes "/" ++ appname) (xdg F appname w).1 ≡ true)
  unfolding path_join join
  xdg_root appname w x named unset h =
      let (env, (config, data_dir, cache, runtime)) = xdg_inv appname w x named h in
      let root : path F x.runtime_dir x [] ≡ codes "/" ++ appname =
        ap (λ y. path F y.runtime_dir y []) env
        ∙ ap (λ d. d ++ codes "/" ++ appname) (env_unset (codes "XDG_RUNTIME_DIR") unset) in
      (root, subst (λ p. is_dir_at F p (xdg F appname w).1 ≡ true) root runtime)
