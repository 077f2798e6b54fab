-- ===== src/KbdManager/HotplugExamples.antt =====
-- A device that is plugged in, for the manager of src/KBDManager.cpp.
use hawck.Prelude.{ℕ, ◌≡◌, ◌↔◌, Bool, refl, true, false, Option, some, codes, ◌==◌, if◌then◌else◌}
use hawck.Permissions.{Stat}
use hawck.KbdManager.Hotplug.{wait_for_device, by_id_is_keyboard}
use hawck.KbdManager.Ready.{PassesAt, wait_for_device_ends, wait_for_device_ready}

-- The device has the group 0 in its first round, and the group 7 from then on.
abbrev seen : ℕ → Option Stat
seen round = some (record { st_mode = 0o20000; st_uid = 0; st_gid = if round == 0 then 0 else 7 })

wait_for_device_ends_example : (ready : Bool) × (wait_for_device seen 7 ≡ some ready)
wait_for_device_ends_example = wait_for_device_ends seen 7

wait_for_device_ready_example :
    (wait_for_device seen 7 ≡ some true) ↔ ((i : ℕ) × PassesAt seen 7 0 i)
wait_for_device_ready_example = wait_for_device_ready seen 7

-- The second interface of a keyboard is none.
second_interface : by_id_is_keyboard (codes "usb-a-if01-event-kbd") ≡ false
unfolding by_id_is_keyboard
second_interface = refl
