-- ===== src/InputLoop/Rounds.antt =====
-- The rounds of the loop of src/KBDDaemon.cpp that do not ask the macro daemon, and the reception of
-- its answers.
use mathlib.Core.List.{append-nil, append_assoc}
use hawck.Prelude.{
  ℕ, zero, suc, ◌<◌, ◌≡◌, refl, sym, ap, ◌∙◌, Bool, true, false, not, ◌&&◌, List, [], ◌∷◌, ◌++◌,
  map, some, ◌==◌, arith, if◌then◌else◌, Bool-cases, inl, inr, length, All,
}
use hawck.Input.{InputEvent, KbdAction, ev_key}
use hawck.Effect.{ok, err, socket_error}
use hawck.Udev.{Uinput, UDevice, emit}
use hawck.Udev.Flush.{Accepts, flush_writes}
use hawck.InputLoop.{
  Outside, InputDaemon, receive, key_vis, combo_checked, is_shown, handle, write_event,
}

module _ (U : Uinput) (O : Outside) where
  -- Whether the macro daemon is asked about the action.
  unfoldable pub asks : KbdAction → InputDaemon U O → Bool
  asks action d =
      action.ev.type == ev_key
      && (not (combo_checked U O action d).ks_combo.active && is_shown (key_vis U O action d))

  write_event_lem :
      (ev : InputEvent) (d : InputDaemon U O)
      → Accepts U
      → (d' : InputDaemon U O) × (write_event U O ev d ≡ (ok tt, d'))
        × (d'.world ≡ d.world)
        × (d'.udev.events ≡ [])
        × (U.log d'.udev.dev ≡ U.log d.udev.dev ++ (d.udev.events ++ ev ∷ []))
  write_event_lem ev d a =
      let (fine, empty, log) = flush_writes U (emit U ev d.udev) a in
      ((write_event U O ev d).1, ap (λ r. (r, (write_event U O ev d).1)) fine, refl, empty, log)

  pub combo_checked_lem :
      (action : KbdAction) (d : InputDaemon U O)
      → ((combo_checked U O action d).world ≡ d.world)
        × ((combo_checked U O action d).udev ≡ d.udev)
  combo_checked_lem action d = ground arith

  checked_lem :
      (action : KbdAction) (d : InputDaemon U O)
      → let checked = if action.ev.type == ev_key then combo_checked U O action d else d in
        (checked.world ≡ d.world) × (checked.udev ≡ d.udev)
  checked_lem action d = elim (Bool-cases (action.ev.type == ev_key)) [
    | inl key ↦ rw key (combo_checked_lem action d)
    | inr other ↦ rw other (refl, refl)
  ]

  handle_unasked :
      (fuel : ℕ) (action : KbdAction) (d : InputDaemon U O)
      → asks action d ≡ false
      → handle U O fuel action d
        ≡ some (
            write_event U O action.ev
              (if action.ev.type == ev_key then combo_checked U O action d else d))
  unfolding handle asks
  handle_unasked fuel action d h = ground (arith, h)

  -- On a device that accepts every write, an action about which the macro daemon is not asked is
  -- written to the device unchanged, behind what was buffered; the macro daemon is sent nothing.
  pub handle_passes :
      (fuel : ℕ) (action : KbdAction) (d : InputDaemon U O)
      → Accepts U
      → asks action d ≡ false
      → (d' : InputDaemon U O) × (handle U O fuel action d ≡ some (ok tt, d'))
        × (d'.world ≡ d.world)
        × (d'.udev.events ≡ [])
        × (U.log d'.udev.dev ≡ U.log d.udev.dev ++ (d.udev.events ++ action.ev ∷ []))
  handle_passes fuel action d a h =
      let checked = if action.ev.type == ev_key then combo_checked U O action d else d in
      let (d', e, w, empty, log) = write_event_lem action.ev checked a in
      let (same_world, same_udev) = checked_lem action d in
      (
        d',
        handle_unasked fuel action d h ∙ ap some e,
        w ∙ same_world,
        empty,
        log ∙ ap (λ u. U.log u.dev ++ (u.events ++ action.ev ∷ [])) same_udev,
      )

  -- The packets come in from one state to the other.
  unfoldable pub Hears : List KbdAction → O.World → O.World → Type 0
  Hears [] w w' = w ≡ w'
  Hears (p ∷ ps) w w' = ((O.recv w).0 ≡ ok p) × Hears ps (O.recv w).1 w'

  abbrev pub IsReply : KbdAction → Type 0
  IsReply p = p.done ≡ false

  abbrev pub with_events : List KbdAction → UDevice U → UDevice U
  with_events ps u = record u { events = u.events ++ map (λ p. p.ev) ps }

  pub receive_done :
      (ps : List KbdAction) (p : KbdAction) (fuel : ℕ) (u : UDevice U) (w w' : O.World)
      → All IsReply ps
      → Hears ps w w'
      → (O.recv w').0 ≡ ok p
      → p.done ≡ true
      → length ps < fuel
      → receive U O fuel u w ≡ some (ok tt, with_events ps u, (O.recv w').1)
  unfolding Hears receive
  receive_done ps p zero u w w' r h e d l = absurd (omega arith)
  receive_done [] p (suc fuel) u w w' r h e d l = rw h (
      rw (e, receive)
        (rw d (
          ap (λ evs. some (ok tt, record u { events = evs }, (O.recv w').1))
            (sym (append-nil u.events)))))
  receive_done (q ∷ ps) p (suc fuel) u w w' (now, r) (here, h) e d l =
      let rest = receive_done ps p fuel (emit U q.ev u) (O.recv w).1 w' r h e d (omega arith) in
      rw (here, receive)
        (rw now (
          rest
          ∙ ap (λ evs. some (ok tt, record u { events = evs }, (O.recv w').1))
              (append_assoc u.events (q.ev ∷ []) (map (λ p. p.ev) ps))))

  pub receive_lost :
      (ps : List KbdAction) (fuel : ℕ) (u : UDevice U) (w w' : O.World)
      → All IsReply ps
      → Hears ps w w'
      → (O.recv w').0 ≡ err socket_error
      → length ps < fuel
      → receive U O fuel u w ≡ some (err socket_error, with_events ps u, (O.recv w').1)
  unfolding Hears receive
  receive_lost ps zero u w w' r h e l = absurd (omega arith)
  receive_lost [] (suc fuel) u w w' r h e l = rw h (
      rw (e, receive)
        (ap (λ evs. some (err socket_error, record u { events = evs }, (O.recv w').1))
          (sym (append-nil u.events))))
  receive_lost (q ∷ ps) (suc fuel) u w w' (now, r) (here, h) e l =
      let rest = receive_lost ps fuel (emit U q.ev u) (O.recv w).1 w' r h e (omega arith) in
      rw (here, receive)
        (rw now (
          rest
          ∙ ap (λ evs. some (err socket_error, record u { events = evs }, (O.recv w').1))
              (append_assoc u.events (q.ev ∷ []) (map (λ p. p.ev) ps))))
