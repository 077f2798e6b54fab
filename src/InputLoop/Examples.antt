-- ===== src/InputLoop/Examples.antt =====
-- Rounds of the loop of src/KBDDaemon.cpp, on a sample device and with sample answers.
use hawck.Prelude.{◌≡◌, refl, Bool, true, false, List, [], ◌∷◌, ◌++◌, some, arith, codes, map}
use hawck.Prelude.Int.{pos}
use hawck.Input.{KbdAction, ev_key}
use hawck.Effect.{ok}
use hawck.Passthrough.{key_show}
use hawck.Udev.Down.{down_keys, releases}
use hawck.Remote.{done_packet, val_packet, flush, done}
use hawck.Macro.{
  MacroDaemon, handle_action, match_event, run_scripts, run_script, perform, end_script,
}
use hawck.Combo.{check, toggle_check}
use hawck.Macro.Replies.{script_packets, script_output, match_output}
use hawck.InputLoop.{InputDaemon, handle}
use hawck.InputLoop.Rounds.{asks, Hears, handle_passes}
use hawck.InputLoop.Answers.{handle_answered, handle_lost}
use hawck.InputLoop.Session.{asked_key_scripted}
use hawck.Samples.{device, outside, link, scripting, key_event, asked}

-- The keys up to 30 are shown; the answer is the key 48.
abbrev shown_to_30 : List KbdAction → Bool → InputDaemon device outside
shown_to_30 replies active = record {
  key_visibility = λ c. key_show;
  ks_combo = record {
    combo = record { key_seq = 1 ∷ []; activator = 57; num_seq = pos 0 };
    active = active;
  };
  udev = record { events = []; dev = key_event 20 0 ∷ [] };
  world = replies;
}

abbrev answer : List KbdAction
answer = val_packet ev_key 48 1 ∷ val_packet 0 0 0 ∷ []

handle_passes_example :
    (d' : InputDaemon device outside) × (handle device outside 5 asked (shown_to_30 [] true)
      ≡ some (ok tt, d'))
    × (d'.world ≡ [])
    × (d'.udev.events ≡ [])
    × (d'.udev.dev ≡ key_event 20 0 ∷ key_event 30 1 ∷ [])
unfolding asks toggle_check check
handle_passes_example =
    handle_passes device outside 5 asked (shown_to_30 [] true) (λ ev w. refl) refl

handle_answered_example :
    (d' : InputDaemon device outside) × (handle device outside 3 asked
        (shown_to_30 (answer ++ done_packet ∷ []) false)
      ≡ some (ok tt, d'))
    × (d'.world ≡ [])
    × (d'.udev.events ≡ [])
    × (d'.udev.dev ≡ key_event 20 0 ∷ map (λ p. p.ev) answer)
unfolding asks Hears toggle_check check
handle_answered_example =
    handle_answered device outside answer done_packet 3 asked
      (shown_to_30 (answer ++ done_packet ∷ []) false) (done_packet ∷ []) (λ ev w. refl) refl refl
      (refl, (refl, tt)) (refl, (refl, refl)) refl refl (omega arith)

handle_lost_example :
    (d' : InputDaemon device outside) × (handle device outside 3 asked (shown_to_30 answer false)
      ≡ some (ok tt, d'))
    × (d'.world ≡ [])
    × (d'.udev.events ≡ [])
    × (d'.udev.dev
        ≡ key_event 20 0
          ∷ (map (λ p. p.ev) answer ++ asked.ev ∷ releases (down_keys (2 ∷ 4 ∷ []) 0)))
unfolding asks Hears toggle_check check
handle_lost_example =
    handle_lost device outside answer (2 ∷ 4 ∷ []) 3 asked (shown_to_30 answer false) []
      (λ ev w. refl) refl refl (refl, (refl, tt)) (refl, (refl, refl)) refl (omega arith) refl refl
      refl

abbrev macro_daemon : MacroDaemon link scripting
macro_daemon = record {
  options = record {
    notify_on_err = true;
    stop_on_err = false;
    eval_keydown = true;
    eval_keyup = true;
    eval_repeat = true;
    disabled = false;
  };
  scripts = (codes "on", record { lua = 0; enabled = true }) ∷ [];
  remote_udev = record { conn = true; evbuf = []; net = [] };
  last_notification = ([], []);
  shown = [];
}

abbrev reply : List KbdAction
reply = val_packet ev_key 48 1 ∷ done_packet ∷ []

asked_key_scripted_example :
    (d' : InputDaemon device outside) × (handle device outside 2 asked (shown_to_30 reply false)
      ≡ some (ok tt, d'))
    × (d'.world ≡ [])
    × (d'.udev.events ≡ [])
    × (d'.udev.dev ≡ key_event 20 0 ∷ (val_packet ev_key 48 1).ev ∷ [])
unfolding asks Hears toggle_check check match_output script_output script_packets handle_action
    match_event run_scripts run_script perform end_script flush done
asked_key_scripted_example =
    asked_key_scripted device outside link scripting reply 2 (codes "keyboard") asked
      (shown_to_30 reply false) macro_daemon [] (λ ev w. refl) (λ ps n. refl) refl refl refl refl
      refl refl (refl, (refl, refl)) (omega arith)
