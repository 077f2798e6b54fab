-- ===== src/Udev/Examples.antt =====
-- The virtual keyboard of src/UDevice.cpp, run on sample devices.
use hawck.Prelude.{◌≡◌, refl, [], ◌∷◌}
use hawck.Udev.{UDevice, flush}
use hawck.Udev.Down.{down_keys}
use hawck.Samples.{picky_device, key_event}

abbrev picky : UDevice picky_device
picky = record { events = key_event 30 1 ∷ key_event 5 1 ∷ key_event 31 1 ∷ []; dev = [] }

-- The keys 1 and 10 are down.
two_down : down_keys (2 ∷ 4 ∷ []) 0 ≡ 1 ∷ 10 ∷ []
unfolding down_keys
two_down = refl

-- The first event is written, and the buffer keeps all three.
first_written : (flush picky_device picky).1.dev ≡ key_event 30 1 ∷ []
unfolding flush
first_written = refl
