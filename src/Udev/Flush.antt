-- ===== src/Udev/Flush.antt =====
-- What reaches the kernel's device when the buffer of src/UDevice.cpp is flushed.
use mathlib.Core.List.{append-nil, append_assoc}
use hawck.Prelude.{
  ℕ, suc, take, ◌≡◌, refl, sym, ap, true, List, [], ◌∷◌, ◌++◌, arith, some, Bool-cases, inl, inr,
}
use hawck.Input.{InputEvent}
use hawck.Effect.{ok, err, Error, system_error}
use hawck.Udev.{Uinput, UDevice, write_all, cleared, flush, up_all}
use hawck.Udev.Down.{down_keys, releases, up_bytes-releases}

module _ (U : Uinput) where
  write_all-log :
      (evs : List InputEvent) (w : U.W)
      → (write_all U evs w).0 ≡ ok tt
      → U.log (write_all U evs w).1 ≡ U.log w ++ evs
  unfolding write_all
  write_all-log [] w h = sym (append-nil (U.log w))
  write_all-log (ev ∷ evs) w h = ground (
    arith,
    U.log-write ev w,
    write_all-log evs (U.write ev w).1,
    append_assoc (U.log w) (ev ∷ []) evs,
  )

  -- The device accepts every write.
  abbrev pub Accepts : Type 0
  Accepts = (ev : InputEvent) (w : U.W) → (U.write ev w).0 ≡ true

  write_all_done : Accepts → (evs : List InputEvent) (w : U.W) → (write_all U evs w).0 ≡ ok tt
  unfolding write_all
  write_all_done a [] w = refl
  write_all_done a (ev ∷ evs) w = rw (a ev w) (write_all_done a evs (U.write ev w).1)

  -- On a device that accepts every write, `flush` succeeds: it writes the buffered events in their
  -- order, behind what was written before, and leaves the buffer empty.
  pub flush_writes :
      (d : UDevice U)
      → Accepts
      → ((flush U d).0 ≡ ok tt)
        × ((flush U d).1.events ≡ [])
        × (U.log (flush U d).1.dev ≡ U.log d.dev ++ d.events)
  unfolding flush
  flush_writes d a =
      let done = write_all_done a d.events d.dev in
      (done, ap (λ r. cleared U r d.events) done, write_all-log d.events d.dev done)

  -- What a flush that fails has written: the first events of the buffer.
  write_all_part :
      (evs : List InputEvent) (w : U.W)
      → (n : ℕ) × (U.log (write_all U evs w).1 ≡ U.log w ++ take n evs)
  unfolding write_all
  write_all_part [] w = (0, sym (append-nil (U.log w)))
  write_all_part (ev ∷ evs) w =
      let (n, e) = write_all_part evs (U.write ev w).1 in
      elim (Bool-cases (U.write ev w).0) [
        | inl good ↦ (
          suc n,
          ground (arith, e, U.log-write ev w, append_assoc (U.log w) (ev ∷ []) (take n evs)),
        )
        | inr bad ↦ (0, ground (arith, U.log-write ev w, append-nil (U.log w)))
      ]

  write_all_error :
      (evs : List InputEvent) (w : U.W) (e : Error)
      → (write_all U evs w).0 ≡ err e
      → e ≡ system_error
  unfolding write_all
  write_all_error [] w e h = ground arith
  write_all_error (ev ∷ evs) w e h = ground (arith, write_all_error evs (U.write ev w).1 e)

  -- A flush that fails throws `SystemError`, has written the first events of the buffer and no others,
  -- and leaves the whole buffer in place: a further flush writes these events again.
  pub flush_fails :
      (d : UDevice U) (e : Error)
      → (flush U d).0 ≡ err e
      → (e ≡ system_error)
        × ((flush U d).1.events ≡ d.events)
        × ((n : ℕ) × (U.log (flush U d).1.dev ≡ U.log d.dev ++ take n d.events))
  unfolding flush
  flush_fails d e h = (
    write_all_error d.events d.dev e h,
    ap (λ r. cleared U r d.events) h,
    write_all_part d.events d.dev,
  )

  -- On a device that accepts every write and whose key states can be read, `upAll` writes what was
  -- buffered, then a release and a report for each key whose bit is set, in ascending order.
  pub up_all_writes :
      (d : UDevice U) (bytes : List ℕ)
      → Accepts
      → U.key_states d.dev ≡ some bytes
      → ((up_all U d).0 ≡ ok tt)
        × ((up_all U d).1.events ≡ [])
        × (U.log (up_all U d).1.dev ≡ U.log d.dev ++ (d.events ++ releases (down_keys bytes 0)))
  unfolding up_all
  up_all_writes d bytes a e = rw (e, up_all) (rw (up_bytes-releases U bytes 0 d) (flush_writes _ a))
