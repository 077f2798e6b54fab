-- ===== src/Inputd/Examples.antt =====
-- Tests of the start and the end of the input daemon.
use hawck.Prelude.{◌≡◌, refl, [], ◌∷◌, some, codes}
use hawck.Prelude.Int.{pos}
use hawck.Inputd.{long_option, kbd_device, settings, parse, defaults}

-- The options -k /dev/a --udev-event-delay 5, where each number is read as 5.
two_options :
    parse
      (λ s. some (pos 5))
      (kbd_device (codes "/dev/a") ∷ long_option (codes "udev-event-delay") (codes "5") ∷ [])
      defaults
    ≡ settings (record {
      udev_event_delay = pos 5;
      socket_timeout = pos 1024;
      kbd_devices = codes "/dev/a" ∷ [];
    })
unfolding parse
two_options = refl
