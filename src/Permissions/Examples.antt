-- ===== src/Permissions/Examples.antt =====
-- The checks that src/MacroDaemon.cpp and src/KBDDaemon.cpp make of their files.
use hawck.Prelude.{◌≡◌, refl, true, codes, some}
use hawck.Permissions.{
  mode_masks, all_modes, fmt_permissions, parse_bits, collection_eq, bit_and, check_file,
  parse_permissions, describe, file_type_of,
}
use hawck.Samples.{system}
use hawck.Permissions.Modes.{parse_bits-fmt_permissions}

executable_text : fmt_permissions 0o755 ≡ codes "rwxr-xr-x"
unfolding fmt_permissions
executable_text = refl

parse_bits-fmt_permissions_example :
    parse_bits mode_masks (fmt_permissions 0o100644) (0, 0) ≡ (0o644, all_modes)
parse_bits-fmt_permissions_example = parse_bits-fmt_permissions 0o100644

script_passes : check_file system (codes "a.lua") (codes "frwxr-xr-x ~:*") ≡ some true
unfolding check_file parse_permissions parse_bits describe file_type_of collection_eq bit_and
script_passes = refl
