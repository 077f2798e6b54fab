-- ===== src/Keyboard/Sync.antt =====
-- `Keyboard::lockSync` of src/Keyboard.cpp gets its lock.
use hawck.Prelude.{
  ℕ, zero, suc, ◌<◌, ◌≡◌, refl, ap, ◌∙◌, true, false, some, ◌==◌, arith, if◌then◌else◌,
}
use hawck.Input.{KbdAction}
use hawck.Effect.{ok}
use hawck.Keyboard.{Devices, locked, Held, num_down, get, grab_device}
use hawck.Keyboard.Opening.{lock_sync}

module _ (D : Devices) where
  -- After so many reads no key is down, and the device can be grabbed.
  pub data Quiets : ℕ → Held D → Type 0 where
    quiet : {h : Held D} → (num_down D h).0 ≡ ok 0 → (D.grab h.0.fd h.1).0 ≡ true → Quiets 0 h
    busy :
        {n down : ℕ} {h : Held D} {action : KbdAction}
        → (num_down D h).0 ≡ ok down
        → (down == 0) ≡ false
        → (get D h).0 ≡ ok action
        → Quiets n (get D h).1
        → Quiets (suc n) h

  -- If after n reads no key is down, and the device can be grabbed then, `lockSync` returns with
  -- the device grabbed and the keyboard locked: n + 1 rounds are enough.
  pub lock_sync_locks :
      (fuel n : ℕ) (h : Held D)
      → n < fuel
      → Quiets n h
      → (h' : Held D) × (lock_sync D fuel h ≡ some (ok tt, h'))
        × (h'.0.state ≡ locked)
        × (D.grabbed h'.1 h'.0.fd ≡ true)
  unfolding lock_sync grab_device
  lock_sync_locks zero n h less q = absurd (omega arith)
  lock_sync_locks (suc fuel) _ h less (quiet none_down free) = (
    (record h.0 { state = locked }, (D.grab h.0.fd h.1).1),
    rw (none_down, free, lock_sync, grab_device) refl,
    refl,
    D.grabbed-grab h.0.fd h.1 ∙ ap (λ b. if b then true else D.grabbed h.1 h.0.fd) free,
  )
  lock_sync_locks (suc fuel) _ h less (busy {n} down_keys some_down got q) =
      let (h', returns, state, grabbed) = lock_sync_locks fuel n (get D h).1 (omega arith) q in
      (h', rw (down_keys, some_down, got, lock_sync) returns, state, grabbed)
