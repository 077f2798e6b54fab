-- ===== src/InputLoop.antt =====
-- src/KBDDaemon.cpp: the main loop of the input daemon.
pub mod Rounds
pub mod Answers
pub mod Session
mod Examples
use hawck.Prelude.{
  ℕ, zero, suc, Bool, true, false, not, ◌&&◌, List, [], ◌∷◌, ◌++◌, Option, none, some, ltb, ◌==◌,
  if◌then◌else◌,
}
use hawck.Input.{InputEvent, KbdAction, ev_key, key_max}
use hawck.Effect.{
  Result, ok, err, system_error, socket_error, keyboard_error, process_ended, Action, proceed,
  ◌>>=◌, ◌>>◌,
}
use hawck.Combo.{KeyComboToggle, toggle_check}
use hawck.Passthrough.{KeyVisibility, key_show, key_keep, key_hide, Visibility}
use hawck.Udev.{Uinput, UDevice, emit, flush, up_all}

-- What the loop calls, on a state of its own: the keyboards, and the socket of the macro daemon.
-- `get_event` has no action where `getEvent` returns false; `lock_all` is the destructor of what
-- `unlockAll` returns, and says whether no exception left it: one that does ends the process. `send` throws `SocketError` where it does not succeed; `recv` does so too, and when the
-- time is over, and throws `SystemError` when poll() fails.
pub record Outside : Type 1 where
  pub World : Type 0
  pub get_event : Action World (Option KbdAction)
  pub unlock_all : World → World
  pub lock_all : World → Bool × World
  pub send : KbdAction → World → Bool × World
  pub recv : Action World KbdAction
  pub recon : Action World Unit

-- `key_vis == KEY_SHOW`.
abbrev pub is_shown : KeyVisibility → Bool
is_shown key_show = true
is_shown key_keep = false
is_shown key_hide = false

module _ (U : Uinput) (O : Outside) where
  open O use {World}

  pub record InputDaemon : Type 0 where
    pub key_visibility : Visibility
    pub ks_combo : KeyComboToggle
    pub udev : UDevice U
    pub world : World

  abbrev pub on_udev : Action (UDevice U) Unit → Action InputDaemon Unit
  on_udev act d = let (r, udev) = act d.udev in (r, record d { udev = udev })

  -- `udev.emit(&ev); udev.flush();`
  abbrev pub write_event : InputEvent → Action InputDaemon Unit
  write_event ev = on_udev (λ u. flush U (emit U ev u))

  -- The loop that receives the answer, for at most `fuel` packets: `none` if it is still running.
  unfoldable pub receive : ℕ → UDevice U → World → Option (Result (Unit {0}) × UDevice U × World)
  receive zero udev w = none
  receive (suc fuel) udev w =
      let (packet, w') = O.recv w in
      elim packet [
        | err e ↦ some (err e, udev, w')
        | ok action ↦
            let rest = receive fuel (emit U action.ev udev) w' in
            if action.done then some (ok tt, udev, w') else rest
      ]

  -- The handler of `SocketError`.
  unfoldable pub give_up : InputEvent → Action InputDaemon Unit
  give_up orig_ev = on_udev (λ u. up_all U (emit U orig_ev u)) >> on_udev (flush U) >> λ d.
      let (r, w) = O.recon (O.unlock_all d.world) in
      let (locked, w') = O.lock_all w in
      (if locked then r else err process_ended, record d { world = w' })

  -- What follows the loop: `receive` has returned, or has thrown.
  abbrev pub conclude : InputEvent → Result (Unit {0}) → Action InputDaemon Unit
  conclude orig_ev (ok u) = on_udev (flush U)
  conclude orig_ev (err socket_error) = give_up orig_ev
  conclude orig_ev (err system_error) = λ d. (err system_error, d)
  conclude orig_ev (err keyboard_error) = λ d. (err keyboard_error, d)
  conclude orig_ev (err process_ended) = λ d. (err process_ended, d)

  -- The `try` block with its handler.
  unfoldable pub ask : ℕ → KbdAction → InputDaemon → Option (Result (Unit {0}) × InputDaemon)
  ask fuel action d =
      let (sent, w) = O.send action d.world in
      let refused = give_up action.ev (record d { world = w }) in
      let asked = receive fuel d.udev w in
      if sent
      then elim asked [
        | none ↦ none
        | some (r, udev, w') ↦ some (conclude action.ev r (record d { udev = udev; world = w' }))
      ]
      else some refused

  -- The key's visibility, and the state of the combination that switches the scripts off.
  abbrev pub key_vis : KbdAction → InputDaemon → KeyVisibility
  key_vis action d =
      if ltb action.ev.code key_max then d.key_visibility action.ev.code else key_hide

  abbrev pub combo_checked : KbdAction → InputDaemon → InputDaemon
  combo_checked action d =
      if ltb action.ev.code key_max
      then record d { ks_combo = toggle_check d.ks_combo action }
      else d

  -- One round from a received action on.
  unfoldable pub handle : ℕ → KbdAction → InputDaemon → Option (Result (Unit {0}) × InputDaemon)
  handle fuel action d =
      let d' = combo_checked action d in
      let answered = ask fuel action d' in
      if action.ev.type == ev_key
      then (if not d'.ks_combo.active && is_shown (key_vis action d)
          then answered
          else some (write_event action.ev d'))
      else some (write_event action.ev d)

  -- One round of the loop.
  unfoldable pub round : ℕ → InputDaemon → Option (Result (Unit {0}) × InputDaemon)
  round fuel d =
      let (r, w) = O.get_event d.world in
      let d' = record d { world = w } in
      elim r [
        | err e ↦ some (err e, d')
        | ok none ↦ some (ok tt, d')
        | ok (some action) ↦ handle fuel (record action { done = false }) d'
      ]
