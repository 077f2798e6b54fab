-- ===== src/InputLoop/Answers.antt =====
-- The rounds of the loop of src/KBDDaemon.cpp that ask the macro daemon: its answer reaches the
-- device, and so does the key when there is no answer.
use mathlib.Core.List.{append-nil, append_assoc}
use hawck.Prelude.{
  ℕ, ◌<◌, ◌≡◌, refl, sym, ap, ◌∙◌, true, List, [], ◌∷◌, ◌++◌, map, some, arith, length, All,
}
use hawck.Input.{InputEvent, KbdAction}
use hawck.Effect.{ok, err, socket_error}
use hawck.Udev.{Uinput, UDevice, emit, flush, up_all}
use hawck.Udev.Down.{down_keys, releases}
use hawck.Udev.Flush.{Accepts, flush_writes, up_all_writes}
use hawck.InputLoop.{Outside, InputDaemon, give_up, ask, combo_checked, handle}
use hawck.InputLoop.Rounds.{
  asks, combo_checked_lem, Hears, IsReply, with_events, receive_done, receive_lost,
}

module _ (U : Uinput) (O : Outside) where
  handle_asked :
      (fuel : ℕ) (action : KbdAction) (d : InputDaemon U O)
      → asks U O action d ≡ true
      → handle U O fuel action d ≡ ask U O fuel action (combo_checked U O action d)
  unfolding handle asks
  handle_asked fuel action d h = ground (arith, h)

  -- What the device has got, and what is buffered behind it.
  abbrev pub due : UDevice U → List InputEvent
  due u = U.log u.dev ++ u.events

  ask_answered :
      (ps : List KbdAction) (p : KbdAction) (fuel : ℕ) (action : KbdAction) (d : InputDaemon U O)
      (w : O.World)
      → Accepts U
      → (O.send action d.world).0 ≡ true
      → All (IsReply U O) ps
      → Hears U O ps (O.send action d.world).1 w
      → (O.recv w).0 ≡ ok p
      → p.done ≡ true
      → length ps < fuel
      → (d' : InputDaemon U O) × (ask U O fuel action d ≡ some (ok tt, d'))
        × (d'.world ≡ (O.recv w).1)
        × (d'.udev.events ≡ [])
        × (U.log d'.udev.dev ≡ due d.udev ++ map (λ p. p.ev) ps)
  unfolding ask
  ask_answered ps p fuel action d w a s r h e f l =
      let got = receive_done U O ps p fuel d.udev (O.send action d.world).1 w r h e f l in
      let (fine, empty, log) = flush_writes U (with_events U O ps d.udev) a in
      let d' = record d { udev = (flush U (with_events U O ps d.udev)).1; world = (O.recv w).1 } in
      (
        d',
        rw s (rw (got, ask) (ap (λ r. some (r, d')) fine)),
        refl,
        empty,
        log ∙ sym (append_assoc (U.log d.udev.dev) d.udev.events _),
      )

  give_up_lem :
      (ev : InputEvent) (bytes : List ℕ) (d : InputDaemon U O)
      → Accepts U
      → U.key_states d.udev.dev ≡ some bytes
      → (O.recon (O.unlock_all d.world)).0 ≡ ok tt
      → (O.lock_all (O.recon (O.unlock_all d.world)).1).0 ≡ true
      → (d' : InputDaemon U O) × (give_up U O ev d ≡ (ok tt, d'))
        × (d'.world ≡ (O.lock_all (O.recon (O.unlock_all d.world)).1).1)
        × (d'.udev.events ≡ [])
        × (U.log d'.udev.dev ≡ due d.udev ++ ev ∷ releases (down_keys bytes 0))
  unfolding give_up
  give_up_lem ev bytes d a k c relocked =
      let (fine, empty, log) = up_all_writes U (emit U ev d.udev) bytes a k in
      let u = (up_all U (emit U ev d.udev)).1 in
      let (fine', empty', log') = flush_writes U u a in
      let d' = record d {
        udev = (flush U u).1;
        world = (O.lock_all (O.recon (O.unlock_all d.world)).1).1;
      } in
      (
        d',
        rw (fine, give_up) (rw (fine', give_up) (rw (c, relocked) refl)),
        refl,
        empty',
        log'
            ∙ ap (λ es. U.log u.dev ++ es) empty
            ∙ append-nil (U.log u.dev)
            ∙ log
            ∙ simp append_assoc,
      )

  -- When the macro daemon is asked about a key, the packet is sent, and its answer comes in, then on a
  -- device that accepts every write the events of the answer are written, in their order and without
  -- the key's own event, behind what was buffered; any fuel above the answer's length is enough.
  pub handle_answered :
      (ps : List KbdAction) (p : KbdAction) (fuel : ℕ) (action : KbdAction) (d : InputDaemon U O)
      (w : O.World)
      → Accepts U
      → asks U O action d ≡ true
      → (O.send action d.world).0 ≡ true
      → All (IsReply U O) ps
      → Hears U O ps (O.send action d.world).1 w
      → (O.recv w).0 ≡ ok p
      → p.done ≡ true
      → length ps < fuel
      → (d' : InputDaemon U O) × (handle U O fuel action d ≡ some (ok tt, d'))
        × (d'.world ≡ (O.recv w).1)
        × (d'.udev.events ≡ [])
        × (U.log d'.udev.dev ≡ due d.udev ++ map (λ p. p.ev) ps)
  handle_answered ps p fuel action d w a q s r h e f l =
      let checked = combo_checked U O action d in
      let (same_world, same_udev) = combo_checked_lem U O action d in
      let (d', run, world, empty, log) =
        ask_answered ps p fuel action checked w a (rw same_world s) r (rw same_world h) e f l in
      (
        d',
        handle_asked fuel action d q ∙ run,
        world,
        empty,
        log ∙ ap (λ u. due u ++ map (λ p. p.ev) ps) same_udev,
      )

  ask_lost :
      (ps : List KbdAction) (bytes : List ℕ) (fuel : ℕ) (action : KbdAction) (d : InputDaemon U O)
      (w : O.World)
      → Accepts U
      → (O.send action d.world).0 ≡ true
      → All (IsReply U O) ps
      → Hears U O ps (O.send action d.world).1 w
      → (O.recv w).0 ≡ err socket_error
      → length ps < fuel
      → U.key_states d.udev.dev ≡ some bytes
      → (O.recon (O.unlock_all (O.recv w).1)).0 ≡ ok tt
      → (O.lock_all (O.recon (O.unlock_all (O.recv w).1)).1).0 ≡ true
      → (d' : InputDaemon U O) × (ask U O fuel action d ≡ some (ok tt, d'))
        × (d'.world ≡ (O.lock_all (O.recon (O.unlock_all (O.recv w).1)).1).1)
        × (d'.udev.events ≡ [])
        × (U.log d'.udev.dev
            ≡ due d.udev ++ (map (λ p. p.ev) ps ++ action.ev ∷ releases (down_keys bytes 0)))
  unfolding ask
  ask_lost ps bytes fuel action d w a s r h e l k c relocked =
      let got = receive_lost U O ps fuel d.udev (O.send action d.world).1 w r h e l in
      let lost = record d { udev = with_events U O ps d.udev; world = (O.recv w).1 } in
      let (d', run, world, empty, log) = give_up_lem action.ev bytes lost a k c relocked in
      (d', rw s (rw (got, ask) (ap some run)), world, empty, log ∙ simp append_assoc)

  -- When the macro daemon is asked about a key, the packet is sent, and a `SocketError` ends the answer
  -- behind the packets `ps`, then on a device that accepts every write and whose key states can be read,
  -- and with a reconnection that succeeds, and if the destructor of `KBDUnlock` then throws nothing: the
  -- events of `ps` are written behind what was buffered, then the key's own event, then a release and a
  -- report for every key that was down before, in ascending order; the keyboards are unlocked, the
  -- connection is made anew, and they are locked again. Any fuel above
  -- the number of these packets is enough.
  pub handle_lost :
      (ps : List KbdAction) (bytes : List ℕ) (fuel : ℕ) (action : KbdAction) (d : InputDaemon U O)
      (w : O.World)
      → Accepts U
      → asks U O action d ≡ true
      → (O.send action d.world).0 ≡ true
      → All (IsReply U O) ps
      → Hears U O ps (O.send action d.world).1 w
      → (O.recv w).0 ≡ err socket_error
      → length ps < fuel
      → U.key_states d.udev.dev ≡ some bytes
      → (O.recon (O.unlock_all (O.recv w).1)).0 ≡ ok tt
      → (O.lock_all (O.recon (O.unlock_all (O.recv w).1)).1).0 ≡ true
      → (d' : InputDaemon U O) × (handle U O fuel action d ≡ some (ok tt, d'))
        × (d'.world ≡ (O.lock_all (O.recon (O.unlock_all (O.recv w).1)).1).1)
        × (d'.udev.events ≡ [])
        × (U.log d'.udev.dev
            ≡ due d.udev ++ (map (λ p. p.ev) ps ++ action.ev ∷ releases (down_keys bytes 0)))
  handle_lost ps bytes fuel action d w a q s r h e l k c relocked =
      let checked = combo_checked U O action d in
      let (same_world, same_udev) = combo_checked_lem U O action d in
      let (d', run, world, empty, log) =
        ask_lost ps bytes fuel action checked w a (rw same_world s) r (rw same_world h) e l
          (rw same_udev k) c relocked in
      (
        d',
        handle_asked fuel action d q ∙ run,
        world,
        empty,
        log
            ∙ ap (λ u. due u ++ (map (λ p. p.ev) ps ++ action.ev ∷ releases (down_keys bytes 0)))
                same_udev,
      )
