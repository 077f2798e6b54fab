-- ===== src/Macro/Examples.antt =====
-- The macro daemon of src/MacroDaemon.cpp, with sample scripts.
use hawck.Prelude.{◌≡◌, refl, true, false, [], ◌∷◌, codes}
use hawck.Input.{ev_key}
use hawck.Effect.{ok}
use hawck.Remote.{done_packet, val_packet, event_packet}
use hawck.Macro.{MacroDaemon, handle_action}
use hawck.Macro.Replies.{script_packets, script_output, match_output, handle_action_replies}
use hawck.Samples.{link, scripting, asked, other}

-- The first script is disabled, so that only the second is asked.
abbrev daemon : MacroDaemon link scripting
daemon = record {
  options = record {
    notify_on_err = true;
    stop_on_err = false;
    eval_keydown = true;
    eval_keyup = true;
    eval_repeat = true;
    disabled = false;
  };
  scripts =
      (codes "off", record { lua = 0; enabled = false })
      ∷ (codes "on", record { lua = 0; enabled = true })
      ∷ [];
  remote_udev = record { conn = true; evbuf = []; net = [] };
  last_notification = ([], []);
  shown = [];
}

replaced :
    match_output link scripting daemon asked.ev (codes "keyboard")
    ≡ (val_packet ev_key 48 1 ∷ [], false)
unfolding match_output script_output script_packets
replaced = refl

left_alone : match_output link scripting daemon other.ev (codes "keyboard") ≡ ([], true)
unfolding match_output script_output script_packets
left_alone = refl

handle_action_replies_example :
    let out = handle_action link scripting other daemon in
    (out.0 ≡ ok tt)
    × (out.1.remote_udev.evbuf ≡ [])
    × (out.1.remote_udev.net ≡ event_packet other.ev ∷ done_packet ∷ [])
unfolding match_output script_output script_packets
handle_action_replies_example =
    handle_action_replies link scripting other (codes "keyboard") daemon (λ ps n. refl) refl refl
