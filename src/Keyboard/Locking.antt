-- ===== src/Keyboard/Locking.antt =====
-- When a keyboard of src/Keyboard.cpp is locked.
use hawck.Prelude.{
  ℕ, ◌+◌, ◌≡◌, refl, sym, ap, ◌∙◌, true, false, List, [], ◌∷◌, some, ◌==◌, arith, length,
  Bool-cases, Option-cases, inl, inr, length-append, ==_iff,
}
use hawck.Udev.{masks}
use hawck.Udev.Down.{down_bits, down_keys}
use hawck.Keyboard.{
  Devices, is_locked, count_bits, count_bytes, Held, num_down, grab_device, lock, unlock, settle,
  get,
}

empty_list : (xs : List ℕ) → length xs ≡ 0 → xs ≡ []
empty_list [] h = refl
empty_list (x ∷ xs) h = absurd (omega arith)

count_bits-down_bits :
    (ms : List ℕ) (byte key : ℕ) → count_bits ms byte ≡ length (down_bits ms byte key)
unfolding count_bits down_bits
count_bits-down_bits [] byte key = refl
count_bits-down_bits (bs ∷ rest) byte key = ground (arith, count_bits-down_bits rest byte (key + 1))

-- `numDown` counts the keys that `upAll` of src/UDevice.cpp would release: one for each bit that is
-- set.
pub count_bytes-down_keys :
    (bytes : List ℕ) (key : ℕ) → count_bytes bytes ≡ length (down_keys bytes key)
unfolding count_bytes down_keys
count_bytes-down_keys [] key = refl
count_bytes-down_keys (byte ∷ bytes) key = omega (
  arith,
  count_bits-down_bits masks byte key,
  count_bytes-down_keys bytes (key + 8),
  length-append (down_bits masks byte key) (down_keys bytes (key + 8)),
)

none_down : (bytes : List ℕ) → (count_bytes bytes == 0) ≡ true → down_keys bytes 0 ≡ []
none_down bytes h =
    empty_list (down_keys bytes 0)
      (sym (count_bytes-down_keys bytes 0) ∙ (==_iff (count_bytes bytes) 0).0 h)

module _ (D : Devices) where
  -- The device is grabbed exactly if the keyboard's state says so.
  abbrev pub IsSynced : Held D → Type 0
  IsSynced (k, w) = D.grabbed w k.fd ≡ is_locked k.state

  -- The states of the keys can be read, and no key of the keyboard is down.
  unfoldable pub IsIdle : Held D → Type 0
  IsIdle (k, w) = (bytes : List ℕ) × (D.key_states k.fd w ≡ some bytes) × (down_keys bytes 0 ≡ [])

  grab_device-IsSynced : (h : Held D) → IsSynced h → IsSynced (grab_device D h).1
  unfolding grab_device
  grab_device-IsSynced h s = ground (arith, D.grabbed-grab h.0.fd h.1)

  lock-IsSynced : (h : Held D) → is_locked h.0.state ≡ false → IsSynced h → IsSynced (lock D h).1
  unfolding lock num_down grab_device
  lock-IsSynced h o s = ground (arith, D.grabbed-grab h.0.fd h.1)

  unlock-IsSynced : (h : Held D) → IsSynced h → IsSynced (unlock D h).1
  unfolding unlock
  unlock-IsSynced h s = ground (arith, D.grabbed-release h.0.fd h.1)

  settle-IsSynced : (h : Held D) → IsSynced h → IsSynced (settle D h).1
  unfolding settle num_down grab_device
  settle-IsSynced h s = ground (arith, D.grabbed-grab h.0.fd h.1)

  get-IsSynced : (h : Held D) → IsSynced h → IsSynced (get D h).1
  unfolding get
  get-IsSynced h s =
      let settled = settle-IsSynced h s in
      let after = (settle D h).1 in ground (arith, settled, D.grabbed-read after.0.fd after.1)

  -- The states of a keyboard from its opening on, when `lock` is called only on a keyboard that is not
  -- locked.
  pub data Reached : Held D → Type 0 where
    opened : (h : Held D) → is_locked h.0.state ≡ false → D.grabbed h.1 h.0.fd ≡ false → Reached h
    by_lock : (h : Held D) → Reached h → is_locked h.0.state ≡ false → Reached (lock D h).1
    by_unlock : (h : Held D) → Reached h → Reached (unlock D h).1
    by_get : (h : Held D) → Reached h → Reached (get D h).1

  -- In every state that is reached from a keyboard that was opened and is not grabbed, by locking it
  -- while it is not locked, unlocking it and getting events from it, the calls that fail among them,
  -- the device is grabbed exactly if the state of the keyboard is LOCKED.
  pub Reached-IsSynced : (h : Held D) → Reached h → IsSynced h
  Reached-IsSynced _ (opened h o g) = g ∙ sym o
  Reached-IsSynced _ (by_lock h' r o) = lock-IsSynced h' o (Reached-IsSynced h' r)
  Reached-IsSynced _ (by_unlock h' r) = unlock-IsSynced h' (Reached-IsSynced h' r)
  Reached-IsSynced _ (by_get h' r) = get-IsSynced h' (Reached-IsSynced h' r)

  grabs-IsIdle :
      (h : Held D)
      → is_locked h.0.state ≡ false
      → (is_locked (lock D h).1.0.state ≡ true → IsIdle h)
        × (is_locked (settle D h).1.0.state ≡ true → IsIdle h)
  unfolding lock settle num_down grab_device IsIdle
  grabs-IsIdle h o = elim (Option-cases (D.key_states h.0.fd h.1)) [
    | inl failed ↦
        (λ l. absurd (ground (arith, failed, o)), λ l. absurd (ground (arith, failed, o)))
    | inr (bytes, read) ↦ elim (Bool-cases (count_bytes bytes == 0)) [
      | inl idle ↦
          (λ l. (bytes, read, none_down bytes idle), λ l. (bytes, read, none_down bytes idle))
      | inr some_down ↦
          (λ l. absurd (ground (arith, read, o)), λ l. absurd (ground (arith, read, o)))
    ]
  ]

  get-state : (h : Held D) → (get D h).1.0.state ≡ (settle D h).1.0.state
  unfolding get
  get-state h = ground arith

  -- `lock` makes the state of a keyboard LOCKED only when the states of its keys can be read and no key
  -- is down.
  pub lock-IsIdle :
      (h : Held D) → is_locked h.0.state ≡ false → is_locked (lock D h).1.0.state ≡ true → IsIdle h
  lock-IsIdle h o l = (grabs-IsIdle h o).0 l

  -- `get` makes the state of a keyboard LOCKED only when the states of its keys can be read and no key
  -- is down: a key that is held while the lock is awaited is not cut off from its release.
  pub get-IsIdle :
      (h : Held D) → is_locked h.0.state ≡ false → is_locked (get D h).1.0.state ≡ true → IsIdle h
  get-IsIdle h o l = (grabs-IsIdle h o).1 (ap is_locked (sym (get-state h)) ∙ l)
