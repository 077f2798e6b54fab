-- ===== src/Xdg.antt =====
-- src/XDG.cpp, src/XDG.hpp: the directories of the program, which are made if they are not there.
pub mod Walk
pub mod Made
mod Examples
use hawck.Prelude.{
  ℕ, ◌+◌, ◌≡◌, Bool, true, false, not, ◌&&◌, List, [], ◌∷◌, ◌++◌, Option, none, some, Str, codes,
  str_eq, ◌==◌, if◌then◌else◌,
}
use hawck.Effect.{Result, ok, err, system_error, Action, proceed, ◌>>=◌, ◌>>◌}
use hawck.Permissions.{Stat}
use hawck.Watcher.{is_dir}
use hawck.Paths.{path_join}

-- What `stat` says of a path: its file, ENOENT, or another error.
pub data Found : Type 0 where
  found : Stat → Found
  no_entry : Found
  stat_failed : Found

abbrev pub is_found_dir : Found → Bool
is_found_dir (found st) = is_dir st
is_found_dir no_entry = false
is_found_dir stat_failed = false

abbrev pub slash : ℕ
slash = 47

-- What `getline(ss, tok, '/')` reads, one after the other; `tok` is what it has of the first.
unfoldable pub tokens : Str → Str → List Str
tokens tok [] = if str_eq tok [] then [] else tok ∷ []
tokens tok (c ∷ path) =
    let next = tokens [] path in
    let same = tokens (tok ++ c ∷ []) path in if c == slash then tok ∷ next else same

-- `out` after a token.
abbrev pub extend : Bool → Str → Str → Str
extend rel out tok =
    if rel && str_eq out []
    then tok
    else if not (str_eq tok [])
    then out ++ codes "/" ++ tok
    else out

abbrev pub is_relative : Str → Bool
is_relative [] = true
is_relative (c ∷ path) = not (c == slash)

-- `out` at the end: the path without empty parts.
unfoldable pub cleaned_from : Bool → Str → List Str → Str
cleaned_from rel out [] = out
cleaned_from rel out (tok ∷ toks) = cleaned_from rel (extend rel out tok) toks

abbrev pub cleaned : Str → Str
cleaned path = cleaned_from (is_relative path) [] (tokens [] path)

-- What is called: the environment and the user of the process, and the file system. No call takes a
-- directory away, and empty parts of a path do not count.
pub record Dirs : Type 1 where
  pub W : Type 0
  pub getenv : Str → Option Str
  pub getuser : W → Bool
  pub stat : Str → W → Found
  pub mkdir : Str → ℕ → W → Bool × W
  pub chmod : Str → ℕ → W → Bool × W
  pub stat-mkdir :
      (p : Str) (um : ℕ) (w : W)
      → (mkdir p um w).0 ≡ true
      → is_found_dir (stat p (mkdir p um w).1) ≡ true
  pub mkdir-keeps :
      (p q : Str) (um : ℕ) (w : W)
      → is_found_dir (stat q w) ≡ true
      → is_found_dir (stat q (mkdir p um w).1) ≡ true
  pub chmod-keeps :
      (p q : Str) (um : ℕ) (w : W)
      → is_found_dir (stat q w) ≡ true
      → is_found_dir (stat q (chmod p um w).1) ≡ true
  pub stat-cleaned :
      (p : Str) (w : W)
      → str_eq (cleaned p) [] ≡ false
      → is_found_dir (stat p w) ≡ is_found_dir (stat (cleaned p) w)

module _ (F : Dirs) where
  open F use {W}

  -- `isDir`.
  unfoldable pub is_dir_at : Str → W → Bool
  is_dir_at path w = is_found_dir (F.stat path w)

  -- `envString` with a fallback.
  abbrev pub env_string : Str → Str → Str
  env_string name fallback = elim (F.getenv name) [ none ↦ fallback | some s ↦ s ]

  unfoldable pub mkdir_if_not_exists : Str → ℕ → Action W Bool
  mkdir_if_not_exists dir um w =
      let (done, w') = F.mkdir dir um w in
      elim (F.stat dir w) [
        | stat_failed ↦ (err system_error, w)
        | no_entry ↦ if done then (ok true, w') else (err system_error, w')
        | found st ↦ if not (is_dir st) then (err system_error, w) else (ok false, w)
      ]

  -- The loop of `mkPathIfNotExists`.
  unfoldable pub make_parts : ℕ → Bool → List Str → Str → ℕ → Action W ℕ
  make_parts um rel [] out created w = (ok created, w)
  make_parts um rel (tok ∷ toks) out created w =
      let out' = extend rel out tok in
      let made =
        λ (b : Bool) (u : W). make_parts um rel toks out' (created + (if b then 1 else 0)) u in
      let passed = make_parts um rel toks out' created w in
      if str_eq out' [] then passed else (mkdir_if_not_exists out' um >>= made) w

  unfoldable pub mk_path_if_not_exists : Str → ℕ → Action W ℕ
  mk_path_if_not_exists path um w =
      if str_eq path [] then (ok 0, w) else make_parts um (is_relative path) (tokens [] path) [] 0 w

  -- The fields of the class, `dirs` by its indices.
  pub record Xdg : Type 0 where
    pub appname : Str
    pub config_home : Str
    pub data_home : Str
    pub cache_home : Str
    pub runtime_dir : Str

  -- `path`, of one of the directories.
  abbrev pub path : Str → Xdg → List Str → Str
  path dir x rest = path_join dir (x.appname ∷ rest)

  -- How the constructor ends: `mkpath` is `noexcept`, so an exception in it ends the program.
  pub data Constructed : Type 0 where
    constructed : Xdg → Constructed
    thrown : Constructed
    terminated : Constructed

  -- The calls of `mkpath` at the end of the constructor.
  abbrev pub make_own : Xdg → Action W ℕ
  make_own x =
      mk_path_if_not_exists (path x.config_home x []) 0o700
      >> mk_path_if_not_exists (path x.data_home x []) 0o700
      >> mk_path_if_not_exists (path x.cache_home x []) 0o775
      >> mk_path_if_not_exists (path x.runtime_dir x []) 0o700

  -- The fallback for the runtime directory, where the variable is empty.
  abbrev pub make_fallback : Str → Str → Action W Unit
  make_fallback runtime fallback w =
      let chmodded = λ (_ : ℕ) (u : W).
        let (done, u') = F.chmod fallback 0o700 u in
        if done then (ok tt, u') else (err system_error, u') in
      if str_eq runtime []
      then (mk_path_if_not_exists fallback 0o700 >>= chmodded) w
      else (ok tt, w)

  -- The directories that the constructor makes first.
  abbrev pub make_bases : Xdg → Str → Action W Unit
  make_bases x fallback =
      mk_path_if_not_exists x.data_home 0o700
      >> mk_path_if_not_exists x.cache_home 0o775
      >> mk_path_if_not_exists x.config_home 0o700
      >> make_fallback x.runtime_dir fallback

  -- What the constructor reads from the environment.
  abbrev pub from_env : Str → Str → Xdg
  from_env appname home = record {
    appname = appname;
    config_home = env_string (codes "XDG_CONFIG_HOME") (home ++ codes "/.config");
    data_home = env_string (codes "XDG_DATA_HOME") (home ++ codes "/.local/share");
    cache_home = env_string (codes "XDG_CACHE_HOME") (home ++ codes "/.cache");
    runtime_dir = env_string (codes "XDG_RUNTIME_DIR") [];
  }

  abbrev pub ended : Xdg → Result ℕ × W → Constructed × W
  ended x (ok n, w) = (constructed x, w)
  ended x (err e, w) = (terminated, w)

  abbrev pub own_made : Xdg → Result (Unit {0}) × W → Constructed × W
  own_made x (ok u, w) = ended x (make_own x w)
  own_made x (err e, w) = (thrown, w)

  unfoldable pub xdg : Str → W → Constructed × W
  xdg appname w =
      let home = env_string (codes "HOME") [] in
      let x = from_env appname home in
      let rest = own_made x (make_bases x (home ++ codes "/.xdg-runtime-dir-fallback") w) in
      if not (F.getuser w)
      then (thrown, w)
      else if str_eq home []
      then (thrown, w)
      else if not (is_dir_at home w)
      then (thrown, w)
      else rest
