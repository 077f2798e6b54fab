-- ===== src/Xdg/Examples.antt =====
-- Tests of the directories.
use hawck.Prelude.{ℕ, ◌+◌, [], refl, true, none, some, codes, str_eq, if◌then◌else◌}
use hawck.Paths.{join, path_join}
use hawck.Xdg.{
  found, Dirs, tokens, is_dir_at, mkdir_if_not_exists, make_parts, mk_path_if_not_exists, from_env,
  xdg,
}
use hawck.Xdg.Made.{IsMade, xdg_makes}

-- A file system in which everything is a directory that is not the empty path, of a user whose home is
-- /h; the state counts the calls of `mkdir`.
abbrev all_dirs : Dirs
all_dirs = record {
  W = ℕ;
  getenv = λ name. if str_eq name (codes "HOME") then some (codes "/h") else none;
  getuser = λ w. true;
  stat = λ p w. found (record { st_mode = 0o40755; st_uid = 0; st_gid = 0 });
  mkdir = λ p um w. (true, w + 1);
  chmod = λ p um w. (true, w);
  stat-mkdir = λ p um w h. refl;
  mkdir-keeps = λ p q um w h. h;
  chmod-keeps = λ p q um w h. h;
  stat-cleaned = λ p w h. refl;
}

xdg_makes_example :
    let w' = (xdg all_dirs (codes "hawck") 0).1 in
    IsMade all_dirs (codes "/h/.config") (codes "/h/.config") (codes "hawck") w'
    × IsMade all_dirs (codes "/h/.local/share") (codes "/h/.local/share") (codes "hawck") w'
    × IsMade all_dirs (codes "/h/.cache") (codes "/h/.cache") (codes "hawck") w'
    × IsMade all_dirs [] [] (codes "hawck") w'
unfolding xdg is_dir_at mk_path_if_not_exists make_parts mkdir_if_not_exists tokens path_join join
xdg_makes_example =
    xdg_makes all_dirs (codes "hawck") 0 (from_env all_dirs (codes "hawck") (codes "/h")) refl refl
