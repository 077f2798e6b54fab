-- ===== src/KbdManager/Replug.antt =====
-- A keyboard that is plugged back in, in src/KBDManager.cpp.
use hawck.Prelude.{
  ℕ, ◌+◌, ◌≡◌, refl, ap, ◌∙◌, Bool, true, false, List, [], ◌∷◌, ◌++◌, Option, some, Str, str_eq,
  length, length-append, get_elem?, Option-cases, inl, inr,
}
use hawck.Prelude.Int.{ℤ}
use hawck.Effect.{Result, ok, err, proceed, ◌>>◌, Result-cases}
use hawck.Keyboard.{Devices, Keyboard, lock}
use hawck.Keyboard.Opening.{Opens, open_keyboard, reset}
use hawck.KbdManager.{KbdManager, erase_first, on_kbd, update_available}
use hawck.KbdManager.Hotplug.{
  find_me, reconnect, replug, add_device, lock_last, plug_in, hotplug, by_id_dir, by_id_is_keyboard,
}
use hawck.KbdManager.Indices.{length-replace_at}

module _ (D : Devices) (O : Opens D) (poll : List ℤ → D.W → Result (Option (List Bool)) × D.W) where
  abbrev Manager : Type 0
  Manager = KbdManager D poll

  lock_last_keeps :
      (id : ℕ) (m : Manager)
      → (length (lock_last D O poll id m).1.kbds ≡ length m.kbds)
        × ((lock_last D O poll id m).1.pulled_kbds ≡ m.pulled_kbds)
  lock_last_keeps id m = elim (Option-cases (get_elem? m.kbds id)) [
    | inl missing ↦ rw (missing, lock_last) (refl, refl)
    | inr (k, found) ↦
        rw (found, lock_last) (length-replace_at m.kbds id (lock D (k, m.devices)).1.0, refl)
  ]

  plug_in_grows :
      (path : Str) (m : Manager) (k : Keyboard)
      → (open_keyboard D O path m.devices).0 ≡ ok k
      → (length (plug_in D O poll path m).1.kbds ≡ length m.kbds + 1)
        × ((plug_in D O poll path m).1.pulled_kbds ≡ m.pulled_kbds)
  unfolding plug_in add_device update_available
  plug_in_grows path m k opened =
      let n : Manager = record m {
        kbds = m.kbds ++ k ∷ [];
        devices = (open_keyboard D O path m.devices).1;
      } in
      let added : add_device D O poll path m ≡ (ok tt, n) = rw (opened, add_device) refl in
      let (size, pulled) = lock_last_keeps (length m.kbds) n in
      let grown : length (lock_last D O poll (length m.kbds) n).1.kbds ≡ length m.kbds + 1 =
        size ∙ length-append m.kbds (k ∷ []) in
      elim (Result-cases (lock_last D O poll (length m.kbds) n).0) [
        | inl (u, fine) ↦ rw (added, proceed, fine) (grown, pulled)
        | inr (e, failed) ↦ rw (added, proceed, failed) (grown, pulled)
      ]

  -- What `replug` leaves of the lists when it finds the keyboard, and nothing is thrown.
  replug_reconnects :
      (path : Str) (m : Manager) (id : ℕ) (k : Keyboard)
      → (find_me D O poll path m.kbds m.pulled_kbds m.devices).0 ≡ ok (some id)
      → get_elem? m.kbds id ≡ some k
      → (replug D O poll path m).0 ≡ ok tt
      → (length (replug D O poll path m).1.kbds ≡ length m.kbds)
        × ((replug D O poll path m).1.pulled_kbds ≡ erase_first id m.pulled_kbds)
  unfolding replug reconnect
  replug_reconnects path m id k found at done =
      let m' : Manager = record m {
        devices = (find_me D O poll path m.kbds m.pulled_kbds m.devices).1;
      } in
      let act = reset D O path >> lock D in
      let opens : replug D O poll path m ≡ reconnect D O poll path id k m' =
        rw (found, at, replug) refl in
      let size = length-replace_at m.kbds id (on_kbd D poll id k act m').1 in
      elim (Result-cases (on_kbd D poll id k act m').0) [
        | inl (u, fine) ↦ rw (opens, fine, reconnect, proceed) (size, refl)
        | inr (e, failed) ↦
            let thrown : (reconnect D O poll path id k m').0 ≡ err e =
              rw (failed, reconnect, proceed) refl in
            absurd (cc (thrown, opens, done))
      ]

  -- When a keyboard of `pulled_kbds` is plugged back in, nothing is thrown on the way to its lock, and
  -- new keyboards are allowed, then the callback takes it out of `pulled_kbds` and adds a second
  -- keyboard for the same device to `kbds`.
  pub hotplug_doubles :
      (real : Str → Str) (ready : Str → Bool) (path : Str) (m : Manager) (id : ℕ) (k new : Keyboard)
      → str_eq path by_id_dir ≡ false
      → ready (real path) ≡ true
      → by_id_is_keyboard path ≡ true
      → (find_me D O poll path m.kbds m.pulled_kbds m.devices).0 ≡ ok (some id)
      → get_elem? m.kbds id ≡ some k
      → (replug D O poll path m).0 ≡ ok tt
      → (open_keyboard D O (real path) (replug D O poll path m).1.devices).0 ≡ ok new
      → (length (hotplug D O poll real ready true path m).1.kbds ≡ length m.kbds + 1)
        × ((hotplug D O poll real ready true path m).1.pulled_kbds ≡ erase_first id m.pulled_kbds)
  unfolding hotplug
  hotplug_doubles real ready path m id k new other is_ready keyboard found at done opened =
      let (size, pulled) = replug_reconnects path m id k found at done in
      let (grown, kept) = plug_in_grows (real path) (replug D O poll path m).1 new opened in
      rw (other, is_ready, done, keyboard, hotplug, proceed)
        (grown ∙ ap (λ n. n + 1) size, kept ∙ pulled)
