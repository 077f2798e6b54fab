-- ===== src/Macro/Replies.antt =====
-- What the macro daemon of src/MacroDaemon.cpp answers to one key event.
use mathlib.Core.List.{append-nil, append_assoc}
use hawck.Prelude.{
  ◌≡◌, refl, sym, ap, ap₂, ◌∙◌, Bool, true, false, not, List, [], ◌∷◌, ◌++◌, arith, some, Str,
  if◌then◌else◌, Bool-cases, inl, inr,
}
use hawck.Input.{InputEvent, KbdAction}
use hawck.Effect.{ok}
use hawck.Remote.{
  Link, RemoteUDevice, flush, done, event_packet, val_packet, done_packet, emit, emit_val,
}
use hawck.Remote.Sent.{outgoing, Sends, flush_sends, done_sends}
use hawck.Macro.{
  UdevCall, emit_call, flush_call, MatchResult, matched, lua_error, Scripting, Script, MacroDaemon,
  is_evaluated, notify, report_error, perform, end_script, run_script, run_scripts, match_event,
  handle_action,
}

-- The packets of the calls of a script.
unfoldable pub script_packets : List UdevCall → List KbdAction
script_packets [] = []
script_packets (emit_call type code val ∷ calls) = val_packet type code val ∷ script_packets calls
script_packets (flush_call ∷ calls) = script_packets calls

-- Whether the event is still to be repeated after a script.
abbrev pub repeats : MatchResult → Bool
repeats (matched succ) = not succ
repeats (lua_error report) = true

-- The event itself, if it is sent on.
abbrev pub sent_on : Bool → InputEvent → List KbdAction
sent_on repeat ev = if repeat then event_packet ev ∷ [] else []

module _ (K : Link) (L : Scripting) where
  -- The packets of the enabled scripts up to the first that matches, and whether none matched.
  unfoldable pub script_output : List (Str × Script K L) → InputEvent → Str → List KbdAction × Bool
  script_output [] ev kbd_hid = ([], true)
  script_output ((name, sc) ∷ rest) ev kbd_hid =
      let (calls, res, lua) = L.call_match sc.lua ev kbd_hid in
      let (packets, repeat) = script_output rest ev kbd_hid in
      if sc.enabled
      then (if repeats res
          then (script_packets calls ++ packets, repeat)
          else (script_packets calls, false))
      else (packets, repeat)

  perform_sends :
      (calls : List UdevCall) (r : RemoteUDevice K)
      → Sends K
      → r.conn ≡ true
      → ((perform K L calls r).0 ≡ ok tt)
        × ((perform K L calls r).1.conn ≡ true)
        × (outgoing K (perform K L calls r).1 ≡ outgoing K r ++ script_packets calls)
  unfolding perform script_packets
  perform_sends [] r a c = (refl, c, sym (append-nil (outgoing K r)))
  perform_sends (emit_call type code val ∷ calls) r a c =
      let (done, conn, out) = perform_sends calls (emit_val K type code val r) a c in
      (done, conn, out ∙ simp append_assoc)
  perform_sends (flush_call ∷ calls) r a c =
      let (done, empty, conn, out) = flush_sends K r a c in
      let (done', conn', out') = perform_sends calls (flush K r).1 a conn in
      rw done (
        done',
        conn',
        out'
            ∙ ap (λ ps. ps ++ script_packets calls)
                (ap₂ (λ xs ys. xs ++ ys) out empty ∙ append-nil (outgoing K r)),
      )

  end_script_sends :
      (res : MatchResult) (sc : Script K L) (m : MacroDaemon K L)
      → ((end_script K L res sc m).0 ≡ repeats res)
        × ((end_script K L res sc m).1.remote_udev ≡ m.remote_udev)
        × ((end_script K L res sc m).1.options ≡ m.options)
  unfolding end_script report_error notify
  end_script_sends (matched succ) sc m = (refl, refl, refl)
  end_script_sends (lua_error report) sc m = ground arith

  run_script_sends :
      (sc : Script K L) (ev : InputEvent) (kbd_hid : Str) (m : MacroDaemon K L)
      → Sends K
      → m.remote_udev.conn ≡ true
      → let (calls, res, lua) = L.call_match sc.lua ev kbd_hid in
        let out = run_script K L sc ev kbd_hid m in
        (out.0 ≡ ok (repeats res))
        × (out.1.remote_udev.conn ≡ true)
        × (outgoing K out.1.remote_udev ≡ outgoing K m.remote_udev ++ script_packets calls)
  unfolding run_script
  run_script_sends sc ev kbd_hid m a c =
      let (calls, res, lua) = L.call_match sc.lua ev kbd_hid in
      let (done, conn, out) = perform_sends calls m.remote_udev a c in
      let m' = record m { remote_udev = (perform K L calls m.remote_udev).1 } in
      let (rep, dev, opts) = end_script_sends res (record sc { lua = lua }) m' in
      rw (done, run_script) (ap ok rep, rw dev conn, rw dev out)

  run_scripts_sends :
      (scs : List (Str × Script K L)) (ev : InputEvent) (kbd_hid : Str) (m : MacroDaemon K L)
      → Sends K
      → m.remote_udev.conn ≡ true
      → let out = run_scripts K L scs ev kbd_hid m in
        let spec = script_output scs ev kbd_hid in
        (out.0 ≡ ok spec.1)
        × (out.1.remote_udev.conn ≡ true)
        × (outgoing K out.1.remote_udev ≡ outgoing K m.remote_udev ++ spec.0)
  unfolding run_scripts script_output run_script script_packets
  run_scripts_sends [] ev kbd_hid m a c = (refl, c, sym (append-nil (outgoing K m.remote_udev)))
  run_scripts_sends ((name, sc) ∷ rest) ev kbd_hid m a c =
      let (calls, res, lua) = L.call_match sc.lua ev kbd_hid in
      let (done, conn, out) = run_script_sends sc ev kbd_hid m a c in
      let m' = (run_script K L sc ev kbd_hid m).1 in
      let (done', conn', out') = run_scripts_sends rest ev kbd_hid m' a conn in
      elim (Bool-cases sc.enabled) [
        | inr off ↦ rw off (run_scripts_sends rest ev kbd_hid m a c)
        | inl on ↦ rw on (elim (Bool-cases (repeats res)) [
          | inl again ↦
              rw (done, again)
                (
                  done',
                  conn',
                  out'
                      ∙ ap (λ ps. ps ++ (script_output rest ev kbd_hid).0) out
                      ∙ append_assoc (outgoing K m.remote_udev) (script_packets calls) _,
                )
          | inr stop ↦ rw (done, stop) (refl, conn, out)
        ])
      ]

  -- The packets of the scripts for an event, and whether it is sent on: when the options have the
  -- scripts evaluated for it, those of `script_output`, otherwise none and it is.
  unfoldable pub match_output : MacroDaemon K L → InputEvent → Str → List KbdAction × Bool
  match_output m ev kbd_hid =
      let out = script_output m.scripts ev kbd_hid in
      if is_evaluated K L m.options ev then out else ([], true)

  match_event_sends :
      (ev : InputEvent) (kbd_hid : Str) (m : MacroDaemon K L)
      → Sends K
      → m.remote_udev.conn ≡ true
      → let out = match_event K L ev kbd_hid m in
        let spec = match_output m ev kbd_hid in
        (out.0 ≡ ok spec.1)
        × (out.1.remote_udev.conn ≡ true)
        × (outgoing K out.1.remote_udev ≡ outgoing K m.remote_udev ++ spec.0)
  unfolding match_event match_output
  match_event_sends ev kbd_hid m a c =
      let (done, conn, out) = run_scripts_sends m.scripts ev kbd_hid m a c in
      elim (Bool-cases (is_evaluated K L m.options ev)) [
        | inl on ↦ ground (arith, on, done, conn, out)
        | inr off ↦ ground (arith, off, c, append-nil (outgoing K m.remote_udev))
      ]

  split_buffer :
      (r : RemoteUDevice K) (ev : InputEvent)
      → outgoing K (emit K ev r) ++ done_packet ∷ []
        ≡ outgoing K r ++ event_packet ev ∷ done_packet ∷ []
  split_buffer r ev = simp append_assoc

  -- When the device is connected to a socket that takes every packet, and the database knows the
  -- keyboard, one action is answered without an exception: behind what had arrived and what was buffered
  -- arrive the packets of the enabled scripts up to the first that matches (none if the options switch
  -- the scripts off for the event), then the event itself unless a script matched, then the packet that
  -- ends the answer; nothing stays in the buffer.
  pub handle_action_replies :
      (action : KbdAction) (kbd_hid : Str) (m : MacroDaemon K L)
      → Sends K
      → m.remote_udev.conn ≡ true
      → L.get_id action.dev_id ≡ some kbd_hid
      → let out = handle_action K L action m in
        let (packets, repeat) = match_output m action.ev kbd_hid in
        (out.0 ≡ ok tt)
        × (out.1.remote_udev.evbuf ≡ [])
        × (K.sent out.1.remote_udev.net
            ≡ outgoing K m.remote_udev
              ++ (packets ++ (sent_on repeat action.ev ++ done_packet ∷ [])))
  unfolding handle_action
  handle_action_replies action kbd_hid m a c known =
      let (fine, conn, out) = match_event_sends action.ev kbd_hid m a c in
      let m' = (match_event K L action.ev kbd_hid m).1 in
      let (packets, repeat) = match_output m action.ev kbd_hid in
      let (answered, empty, arrived) = done_sends K (emit K action.ev m'.remote_udev) a conn in
      let (answered', empty', arrived') = done_sends K m'.remote_udev a conn in
      let then_ends = append_assoc (outgoing K m.remote_udev) packets in
      rw (known, handle_action)
        (rw (fine, handle_action)
          (elim (Bool-cases repeat) [
            | inl again ↦ rw again (
              answered,
              empty,
              arrived
                  ∙ split_buffer m'.remote_udev action.ev
                  ∙ ap (λ ps. ps ++ event_packet action.ev ∷ done_packet ∷ []) out
                  ∙ then_ends _,
            )
            | inr stop ↦
                rw stop (
                  answered',
                  empty',
                  arrived' ∙ ap (λ ps. ps ++ done_packet ∷ []) out ∙ then_ends _,
                )
          ]))
