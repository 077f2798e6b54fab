-- ===== src/KbdManager/Examples.antt =====
-- The manager of src/KBDManager.cpp with two keyboards, the second of which is disabled.
use hawck.Prelude.{◌≡◌, refl, true, List, [], ◌∷◌}
use hawck.Prelude.Int.{pos, negsuc}
use hawck.Keyboard.{Keyboard, locked, open_state, get, settle}
use hawck.KbdManager.{KbdManager, multiplex, get_from, get_event, unlock_all}
use hawck.KbdManager.Events.{FromLocked, get_event-FromLocked}
use hawck.KbdManager.Unlock.{freed_at, unlock_all-frees}
use hawck.Samples.{devices, keyboard, poll_all, asked}

abbrev kbds : List Keyboard
kbds = keyboard (pos 3) locked ∷ keyboard (negsuc 0) open_state ∷ []

abbrev manager : KbdManager devices poll_all
manager = record { kbds = kbds; available_kbds = 0 ∷ []; pulled_kbds = 1 ∷ []; devices = true }

get_event-FromLocked_example :
    FromLocked devices poll_all asked manager (get_event devices poll_all manager).1
unfolding get_event multiplex get_from get settle
get_event-FromLocked_example = get_event-FromLocked devices poll_all asked manager refl

unlock_all-frees_example : freed_at (unlock_all devices poll_all manager).kbds 0 ≡ true
unlock_all-frees_example = unlock_all-frees devices poll_all 0 manager refl
