-- ===== src/Kbdb/Examples.antt =====
-- Tests of the database of keyboards.
use hawck.Prelude.{◌≡◌, refl, true, [], ◌∷◌, some, codes}
use hawck.Prelude.Maps.{lookup, insert}
use hawck.Prelude.Int.{pos}
use hawck.Paths.{string_starts_with}
use hawck.Keyboard.{open_state}
use hawck.Keyboard.Opening
use hawck.Keyboard.Opening.{decimal, underscored}
use hawck.Kbdb.{Sysfs, read_cid, init_from, scan, kbd_info, info_id, get_id}
use hawck.Kbdb.Names.{get_id_agrees}
use hawck.Samples.{keyboard}

-- One device, the keyboard of the other tests.
abbrev sysfs : Sysfs
sysfs = record {
  entries = codes "event3" ∷ codes "input3" ∷ [];
  is_directory = λ path. true;
  basename = λ path. path;
  realpath_safe = λ path. path;
  first_line = λ path. some (codes "a b");
  hex = λ path. some 0;
}

get_id_agrees_example : codes "0:0:a_b" ≡ Opening.get_id (keyboard (pos 3) open_state)
unfolding get_id kbd_info scan info_id decimal underscored lookup insert read_cid init_from
    string_starts_with
get_id_agrees_example =
    get_id_agrees sysfs [] (keyboard (pos 3) open_state) (codes "0:0:a_b") refl (refl, (refl, tt))
      refl refl
