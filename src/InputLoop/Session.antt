-- ===== src/InputLoop/Session.antt =====
-- The two daemons together: src/KBDDaemon.cpp asks, src/MacroDaemon.cpp answers.
use mathlib.Core.List.{append-nil, append_assoc}
use hawck.Prelude.{
  ℕ, ◌<◌, ◌≤◌, ◌≡◌, refl, sym, ap, ◌∙◌, Bool, true, false, List, [], ◌∷◌, ◌++◌, map, some, Str,
  arith, length, All, if◌then◌else◌, Bool-cases, inl, inr, length-append,
}
use hawck.Input.{InputEvent, KbdAction}
use hawck.Effect.{ok}
use hawck.Udev.{Uinput}
use hawck.Udev.Flush.{Accepts}
use hawck.Remote.{Link, done_packet}
use hawck.Remote.Sent.{Sends}
use hawck.Macro.{
  Scripting, MacroDaemon, Script, UdevCall, emit_call, flush_call, handle_action, is_evaluated,
}
use hawck.Macro.Replies.{
  script_packets, script_output, match_output, sent_on, repeats, handle_action_replies,
}
use hawck.InputLoop.{Outside, InputDaemon, handle}
use hawck.InputLoop.Rounds.{asks, Hears, IsReply}
use hawck.InputLoop.Answers.{due, handle_answered}

cancel_prefix : (xs ys zs : List KbdAction) → xs ++ ys ≡ xs ++ zs → ys ≡ zs
cancel_prefix [] ys zs e = e
cancel_prefix (x ∷ xs) ys zs e = cancel_prefix xs ys zs (ground (arith, e))

-- The event itself, if the scripts have it sent on.
abbrev pub event_on : Bool → InputEvent → List InputEvent
event_on repeat ev = if repeat then ev ∷ [] else []

module _ (U : Uinput) (O : Outside) where
  Hears-append :
      (ps : List KbdAction) (p : KbdAction) (w w' : O.World)
      → Hears U O (ps ++ p ∷ []) w w'
      → (v : O.World) × Hears U O ps w v × ((O.recv v).0 ≡ ok p) × ((O.recv v).1 ≡ w')
  unfolding Hears
  Hears-append [] p w w' (now, end) = (w, refl, now, end)
  Hears-append (q ∷ ps) p w w' (now, h) =
      let (v, before, at, end) = Hears-append ps p (O.recv w).1 w' h in (v, (now, before), at, end)

  script_packets-IsReply : (calls : List UdevCall) → All (IsReply U O) (script_packets calls)
  unfolding script_packets
  script_packets-IsReply [] = tt
  script_packets-IsReply (emit_call type code val ∷ calls) = (refl, script_packets-IsReply calls)
  script_packets-IsReply (flush_call ∷ calls) = script_packets-IsReply calls

  append-IsReply :
      (ps qs : List KbdAction)
      → All (IsReply U O) ps
      → All (IsReply U O) qs
      → All (IsReply U O) (ps ++ qs)
  append-IsReply [] qs a b = b
  append-IsReply (p ∷ ps) qs (now, a) b = (now, append-IsReply ps qs a b)

  module _ (K : Link) (L : Scripting) where
    script_output-IsReply :
        (scs : List (Str × Script K L)) (ev : InputEvent) (kbd_hid : Str)
        → All (IsReply U O) (script_output K L scs ev kbd_hid).0
    unfolding script_output
    script_output-IsReply [] ev kbd_hid = tt
    script_output-IsReply ((name, sc) ∷ rest) ev kbd_hid =
        let (calls, res, lua) = L.call_match sc.lua ev kbd_hid in
        let others = script_output-IsReply rest ev kbd_hid in
        let own = script_packets-IsReply calls in
        elim (Bool-cases sc.enabled) [
          | inr off ↦ rw off others
          | inl on ↦ rw on (elim (Bool-cases (repeats res)) [
            | inl again ↦ rw again (append-IsReply _ _ own others)
            | inr stop ↦ rw stop own
          ])
        ]

    match_output-IsReply :
        (m : MacroDaemon K L) (ev : InputEvent) (kbd_hid : Str)
        → All (IsReply U O) (match_output K L m ev kbd_hid).0
    unfolding match_output
    match_output-IsReply m ev kbd_hid = elim (Bool-cases (is_evaluated K L m.options ev)) [
      | inl on ↦ rw on (script_output-IsReply m.scripts ev kbd_hid)
      | inr off ↦ rw off tt
    ]

    sent_on_lem :
        (repeat : Bool) (ev : InputEvent)
        → All (IsReply U O) (sent_on repeat ev)
          × (map (λ p. p.ev) (sent_on repeat ev) ≡ event_on repeat ev)
    sent_on_lem true ev = ((refl, tt), refl)
    sent_on_lem false ev = (tt, refl)

    map-append :
        (ps qs : List KbdAction)
        → map (λ p. p.ev) (ps ++ qs) ≡ map (λ p. p.ev) ps ++ map (λ p. p.ev) qs
    map-append [] qs = refl
    map-append (p ∷ ps) qs = ap (λ es. p.ev ∷ es) (map-append ps qs)

    -- When the input daemon asks about a key and its packet is sent, the macro daemon, connected, with
    -- an empty buffer, a socket that takes every packet and a keyboard that its database knows, handles
    -- it, and all that it thereby sends comes in at the input daemon, then on a device that accepts
    -- every write the input daemon writes, behind what was buffered, the events of the scripts for that
    -- key, and behind them the key's own event exactly if the scripts have it repeated. Fuel for each
    -- packet of the answer is enough.
    pub asked_key_scripted :
        (reply : List KbdAction) (fuel : ℕ) (kbd_hid : Str) (action : KbdAction)
        (d : InputDaemon U O) (m : MacroDaemon K L) (w : O.World)
        → Accepts U
        → Sends K
        → m.remote_udev.conn ≡ true
        → m.remote_udev.evbuf ≡ []
        → L.get_id action.dev_id ≡ some kbd_hid
        → asks U O action d ≡ true
        → (O.send action d.world).0 ≡ true
        → K.sent (handle_action K L action m).1.remote_udev.net ≡ K.sent m.remote_udev.net ++ reply
        → Hears U O reply (O.send action d.world).1 w
        → length reply ≤ fuel
        → let (packets, repeat) = match_output K L m action.ev kbd_hid in
          (d' : InputDaemon U O) × (handle U O fuel action d ≡ some (ok tt, d'))
          × (d'.world ≡ w)
          × (d'.udev.events ≡ [])
          × (U.log d'.udev.dev
              ≡ due U O d.udev ++ (map (λ p. p.ev) packets ++ event_on repeat action.ev))
    asked_key_scripted reply fuel kbd_hid action d m w acc sends conn empty known q s sent h l =
        let (packets, repeat) = match_output K L m action.ev kbd_hid in
        let (fine, emptied, arrived) =
          handle_action_replies K L action kbd_hid m sends conn known in
        let (own, own_events) = sent_on_lem repeat action.ev in
        let before = K.sent m.remote_udev.net in
        let answer = packets ++ sent_on repeat action.ev in
        let replies = append-IsReply packets _ (match_output-IsReply m action.ev kbd_hid) own in
        let buffered = ap (λ evs. before ++ evs) empty ∙ append-nil before in
        let whole : answer ++ done_packet ∷ [] ≡ reply =
          append_assoc packets _ _
          ∙ cancel_prefix before _ reply (
              sym (
                ap (λ ps. ps ++ (packets ++ (sent_on repeat action.ev ++ done_packet ∷ [])))
                  buffered)
              ∙ sym arrived
              ∙ sent) in
        let enough : length answer < fuel =
          omega (arith, l, ap length whole, length-append answer (done_packet ∷ [])) in
        let (v, heard, at, end) =
          Hears-append answer done_packet (O.send action d.world).1 w (rw whole h) in
        let (d', run, world, emptied', log) =
          handle_answered U O answer done_packet fuel action d v acc q s replies heard at refl
            enough in
        (
          d',
          run,
          world ∙ end,
          emptied',
          log
              ∙ ap (λ es. due U O d.udev ++ es)
                  (map-append packets _ ∙ ap (λ es. map (λ p. p.ev) packets ++ es) own_events),
        )
