-- ===== src/Keyboard.antt =====
-- src/Keyboard.cpp, src/Keyboard.hpp: one keyboard, and how it is locked for exclusive use.
pub mod Locking
pub mod Opening
pub mod Identity
pub mod Sync
mod Examples
use hawck.Prelude.{
  ℕ, ◌+◌, ◌≡◌, Bool, true, false, not, ◌&&◌, List, [], ◌∷◌, Option, none, some, Str, ◌==◌,
  if◌then◌else◌,
}
use hawck.Prelude.Int.{ℤ, negsuc, is_neg}
use hawck.Input.{InputId, InputEvent, KbdAction}
use hawck.Effect.{Result, ok, err, system_error, keyboard_error, Action, proceed, ◌>>=◌, ◌>>◌}
use hawck.Udev.{bit_set, masks}

-- The kernel's devices, by file descriptor. `key_states` is what EVIOCGKEY stores; `grab` and
-- `release` are EVIOCGRAB, and say whether the call succeeds; `read` has no event if it does not
-- return a whole one. `grabbed` says of which descriptors the device is grabbed.
pub record Devices : Type 1 where
  pub W : Type 0
  pub key_states : ℤ → W → Option (List ℕ)
  pub grab : ℤ → W → Bool × W
  pub release : ℤ → W → Bool × W
  pub read : ℤ → W → Option InputEvent × W
  pub close : ℤ → W → W
  pub grabbed : W → ℤ → Bool
  pub grabbed-grab :
      (fd : ℤ) (w : W) → grabbed (grab fd w).1 fd ≡ (if (grab fd w).0 then true else grabbed w fd)
  pub grabbed-release :
      (fd : ℤ) (w : W)
      → grabbed (release fd w).1 fd ≡ (if (release fd w).0 then false else grabbed w fd)
  pub grabbed-read : (fd : ℤ) (w : W) → grabbed (read fd w).1 fd ≡ grabbed w fd

pub data KbdState : Type 0 where
  locked locking open_state : KbdState

abbrev pub is_locked : KbdState → Bool
is_locked locked = true
is_locked locking = false
is_locked open_state = false

abbrev pub is_locking : KbdState → Bool
is_locking locked = false
is_locking locking = true
is_locking open_state = false

-- The fields of the class `Keyboard` that its methods change, and those that identify the device.
pub record Keyboard : Type 0 where
  pub name : Str
  pub uniq_id : Str
  pub phys : Str
  pub dev_id : InputId
  pub fd : ℤ
  pub state : KbdState

abbrev pub is_disabled : Keyboard → Bool
is_disabled k = is_neg k.fd

-- The loops of `numDown`, on one byte and on all.
unfoldable pub count_bits : List ℕ → ℕ → ℕ
count_bits [] byte = 0
count_bits (bs ∷ rest) byte = (if bit_set bs byte then 1 else 0) + count_bits rest byte

unfoldable pub count_bytes : List ℕ → ℕ
unfolding count_bits
count_bytes [] = 0
count_bytes (byte ∷ bytes) = count_bits masks byte + count_bytes bytes

module _ (D : Devices) where
  open D use {W}

  -- A keyboard, and the devices.
  abbrev pub Held : Type 0
  Held = Keyboard × W

  unfoldable pub num_down : Action Held ℕ
  unfolding count_bytes
  num_down (k, w) = elim (D.key_states k.fd w) [
    | none ↦ (err system_error, (k, w))
    | some bytes ↦ (ok (count_bytes bytes), (k, w))
  ]

  -- `ioctl(fd, EVIOCGRAB, &grab)`, then `state = KBDState::LOCKED`.
  unfoldable pub grab_device : Action Held Unit
  grab_device (k, w) =
      let (done, w') = D.grab k.fd w in
      if done then (ok tt, (record k { state = locked }, w')) else (err system_error, (k, w'))

  unfoldable pub lock : Action Held Unit
  lock = num_down >>= λ n h.
      if n == 0 then grab_device h else (ok tt, (record h.0 { state = locking }, h.1))

  unfoldable pub unlock : Action Held Unit
  unlock (k, w) =
      let (done, w') = D.release k.fd w in
      if is_locked k.state
      then (if done
          then (ok tt, (record k { state = open_state }, w'))
          else (err keyboard_error, (k, w')))
      else (ok tt, (record k { state = open_state }, w))

  -- The first lines of `get`: a keyboard that is being locked is locked once no key is down.
  unfoldable pub settle : Action Held Unit
  settle h =
      let settled = (num_down >>= λ n h'. if n == 0 then grab_device h' else (ok tt, h')) h in
      if is_locking h.0.state then settled else (ok tt, h)

  -- `get`; the value is the action that it fills in.
  unfoldable pub get : Action Held KbdAction
  get = settle >>= λ _ h.
      let (ev, w) = D.read h.0.fd h.1 in
      elim ev [
        | none ↦ (err keyboard_error, (h.0, w))
        | some e ↦ (ok (record { done = false; dev_id = h.0.dev_id; ev = e }), (h.0, w))
      ]

  unfoldable pub disable : Held → Held
  disable h = let (k, w) = (unlock h).1 in (record k { fd = negsuc 0 }, D.close k.fd w)
