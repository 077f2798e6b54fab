-- ===== src/Keyboard/Examples.antt =====
-- A keyboard of src/Keyboard.cpp on sample devices.
use hawck.Prelude.{◌≡◌, refl, true, false, some, elem, arith}
use hawck.Prelude.Int.{pos}
use hawck.Effect.{ok}
use hawck.Keyboard.{Held, open_state, locked, num_down, get, settle, lock}
use hawck.Keyboard.Opening.{get_id, lock_sync}
use hawck.Keyboard.Identity.{get_id-no_space}
use hawck.Keyboard.Sync.{Quiets, quiet, busy, lock_sync_locks}
use hawck.Samples.{counted, keyboard, devices}
use hawck.Keyboard.Locking.{IsSynced, opened, by_lock, by_get, Reached-IsSynced}

abbrev fresh : Held devices
fresh = (keyboard (pos 3) open_state, false)

Reached-IsSynced_example : IsSynced devices (get devices (lock devices fresh).1).1
Reached-IsSynced_example =
    Reached-IsSynced devices (get devices (lock devices fresh).1).1
      (by_get (lock devices fresh).1 (by_lock fresh (opened fresh refl refl) refl))

get_id-no_space_example : elem 32 (get_id (keyboard (pos 3) open_state)) ≡ false
get_id-no_space_example = get_id-no_space (keyboard (pos 3) open_state)

-- One key is down until the second read.
two_reads : Quiets counted 2 (keyboard (pos 3) open_state, (1, (2, false)))
unfolding get settle num_down
two_reads = busy refl refl refl (busy refl refl refl (quiet refl refl))

lock_sync_locks_example :
    (h : Held counted) × (lock_sync counted 3 (keyboard (pos 3) open_state, (1, (2, false)))
      ≡ some (ok tt, h))
    × (h.0.state ≡ locked)
    × (h.1.1.1 ≡ true)
lock_sync_locks_example =
    lock_sync_locks counted 3 2 (keyboard (pos 3) open_state, (1, (2, false))) (omega arith)
      two_reads
