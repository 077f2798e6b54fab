-- ===== src/Passthrough/Examples.antt =====
-- Two files of passthrough keys that share a key, and their removal.
use hawck.Prelude.{
  ℕ, String, ◌+◌, ◌*◌, ◌-◌, ◌≡◌, refl, ◌&&◌, List, [], ◌∷◌, Option, none, some, Str, codes, leb,
  str_eq, if◌then◌else◌,
}
use hawck.Prelude.Int.{ℤ, pos}
use hawck.Csv.{scan_char, row_cells, load_from_stream, get_lines, get_named_cells}
use hawck.Passthrough.{
  key_show, key_hide, Disk, Env, FsEvent, unload_passthrough, load_passthrough, load_event,
  watch_event, init_passthrough, in_delete_self, in_modify,
}
use hawck.Passthrough.Sources.{listed, Unique, InRange}
use hawck.Passthrough.Visible.{valid_codes}
use hawck.Passthrough.Runs.{history, shown_iff_listed, load_shows}

-- A reader of decimal numbers.
digits : ℕ → Str → Option ℤ
digits n [] = some (pos n)
digits n (c ∷ cs) =
    let rest = digits (n * 10 + (c - 48)) cs in if leb 48 c && leb c 57 then rest else none

abbrev files : Str → Str
files path =
    if str_eq path (codes "/keys/a")
    then codes "name,key_code\nA,30\nB,48\nbad,x\nfar,9999\n"
    else codes "key_code\n48\n"

abbrev env : Env
env = record { Watcher = List Str; add = λ w p. some (p ∷ w); stoi = digits 0; getuid = 7 }

abbrev disk : Disk
disk = record { realpath_safe = λ p. p; content = files }

-- The file has lost the key 30.
abbrev later : Disk
later = record { realpath_safe = λ p. p; content = λ p. codes "key_code\n48\n" }

abbrev file_event : String → ℕ → FsEvent
file_event path mask = record { path = codes path; mask = mask; st_mode = 0o100644; st_uid = 7 }

abbrev start : List FsEvent
start = file_event "/keys/a" 0 ∷ file_event "/keys/b" 0 ∷ []

-- The key 48 stays visible when one of the two files that list it is deleted.
shared_key :
    (history env disk [] start ((later, file_event "/keys/b" in_delete_self) ∷ [])).key_visibility
      48
    ≡ key_show
unfolding watch_event init_passthrough load_passthrough load_event unload_passthrough get_lines
    get_named_cells load_from_stream row_cells scan_char digits
shared_key = refl

shown_iff_listed_example :
    let d = history env disk [] start ((later, file_event "/keys/a" in_modify) ∷ []) in
    ((c : ℕ) → d.key_visibility c ≡ (if listed d.key_sources c then key_show else key_hide))
    × Unique d.key_sources
    × InRange d.key_sources
shown_iff_listed_example =
    shown_iff_listed env disk [] start ((later, file_event "/keys/a" in_modify) ∷ [])

-- A key that a reloaded file does not list any more is hidden.
lost_key :
    (history env disk [] start ((later, file_event "/keys/a" in_modify) ∷ [])).key_visibility 30
    ≡ key_hide
unfolding watch_event init_passthrough load_passthrough load_event unload_passthrough get_lines
    get_named_cells load_from_stream row_cells scan_char digits
lost_key = refl

load_shows_example :
    (load_passthrough env disk (codes "/keys/a") (history env disk [] start [])).key_visibility 30
    ≡ key_show
unfolding get_lines get_named_cells load_from_stream row_cells scan_char digits valid_codes
load_shows_example =
    load_shows env disk [] start [] disk (codes "/keys/a")
      (codes "30" ∷ codes "48" ∷ codes "x" ∷ codes "9999" ∷ []) 30 refl
