-- ===== src/Udev.antt =====
-- src/UDevice.cpp: the virtual keyboard, a buffer of events before a device of the kernel.
pub mod Down
pub mod Flush
pub mod Create
pub mod Release
mod Examples
use hawck.Prelude.{
  ℕ, zero, suc, ◌+◌, ◌*◌, ◌/◌, ◌%◌, ◌^◌, ◌≡◌, Bool, true, false, List, [], ◌∷◌, ◌++◌, Option, none,
  some, ◌==◌, if◌then◌else◌,
}
use hawck.Input.{InputEvent, zero_event, ev_key, ev_syn}
use hawck.Effect.{Result, ok, err, system_error, Action}

-- The kernel's uinput device. `write` says whether the whole event was written; `key_states` is what
-- EVIOCGKEY stores, `none` if the call fails; `log` is the sequence of events that was written, and a
-- write that fails writes nothing.
pub record Uinput : Type 1 where
  pub W : Type 0
  pub write : InputEvent → W → Bool × W
  pub key_states : W → Option (List ℕ)
  pub log : W → List InputEvent
  pub log-write :
      (ev : InputEvent) (w : W)
      → log (write ev w).1 ≡ (if (write ev w).0 then log w ++ ev ∷ [] else log w)

-- `bs & key_states[i]`, for a power of two.
abbrev pub bit_set : ℕ → ℕ → Bool
bit_set bs byte = byte / bs % 2 == 1

-- The values of `bs` in `for (unsigned int bs = 1; bs <= 128; bs <<= 1)`.
abbrev pub masks : List ℕ
masks = 1 ∷ 2 ∷ 4 ∷ 8 ∷ 16 ∷ 32 ∷ 64 ∷ 128 ∷ []

-- `emit(int type, int code, int val)`: the event with these fields, as the kernel's words.
abbrev pub event_of : ℕ → ℕ → ℕ → InputEvent
event_of type code val = record zero_event {
  type = type % 2 ^ 16;
  code = code % 2 ^ 16;
  value = val % 2 ^ 32;
}

module _ (U : Uinput) where
  pub record UDevice : Type 0 where
    pub events : List InputEvent
    pub dev : U.W

  abbrev pub emit : InputEvent → UDevice → UDevice
  emit ev d = record d { events = d.events ++ ev ∷ [] }

  abbrev pub emit_val : ℕ → ℕ → ℕ → UDevice → UDevice
  emit_val type code val d = emit (event_of type code val) d

  -- The loop of `flush`.
  unfoldable pub write_all : List InputEvent → Action U.W Unit
  write_all [] w = (ok tt, w)
  write_all (ev ∷ evs) w =
      let (written, w') = U.write ev w in
      let rest = write_all evs w' in if written then rest else (err system_error, w')

  -- `events.clear()` is not reached when a write fails.
  abbrev pub cleared : Result (Unit {0}) → List InputEvent → List InputEvent
  cleared (ok u) evs = []
  cleared (err e) evs = evs

  unfoldable pub flush : Action UDevice Unit
  unfolding write_all
  flush d =
      let (r, w) = write_all d.events d.dev in (r, record { events = cleared r d.events; dev = w })

  -- The inner loop of `upAll`, on one byte; `key` is the code of its next bit.
  unfoldable pub up_bits : List ℕ → ℕ → ℕ → UDevice → UDevice
  up_bits [] byte key d = d
  up_bits (bs ∷ rest) byte key d =
      up_bits rest byte (key + 1)
        (if bit_set bs byte then emit_val ev_syn 0 0 (emit_val ev_key key 0 d) else d)

  -- The outer loop of `upAll`.
  unfoldable pub up_bytes : List ℕ → ℕ → UDevice → UDevice
  unfolding up_bits
  up_bytes [] key d = d
  up_bytes (byte ∷ bytes) key d = up_bytes bytes (key + 8) (up_bits masks byte key d)

  unfoldable pub up_all : Action UDevice Unit
  unfolding up_bytes flush
  up_all d = elim (U.key_states d.dev) [
    | none ↦ (err system_error, d)
    | some bytes ↦ flush (up_bytes bytes 0 d)
  ]
