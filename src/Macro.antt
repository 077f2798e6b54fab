-- ===== src/Macro.antt =====
-- src/MacroDaemon.cpp: the main loop of the macro daemon, which runs the scripts on each key event.
pub mod Replies
pub mod Loading
pub mod Startup
mod Examples
use hawck.Prelude.{
  ℕ, Bool, true, false, not, ◌&&◌, ◌||◌, List, [], ◌∷◌, ◌++◌, Option, none, some, Str, codes,
  str_eq, ◌==◌, if◌then◌else◌,
}
use hawck.Input.{InputId, InputEvent, KbdAction, key_val_up, key_val_down}
use hawck.Effect.{
  Result, ok, err, system_error, socket_error, keyboard_error, process_ended, Action, proceed,
  ◌>>=◌, ◌>>◌,
}
use hawck.Remote.{Link, RemoteUDevice, flush, done, emit, emit_val, set_connection}

-- A call that a script makes on `udev`.
pub data UdevCall : Type 0 where
  emit_call : ℕ → ℕ → ℕ → UdevCall
  flush_call : UdevCall

-- How the Lua function `__match` ends: with the Boolean that it returns, or with an error report.
pub data MatchResult : Type 0 where
  matched : Bool → MatchResult
  lua_error : Str → MatchResult

-- What the daemon does not implement: the Lua states, whose `__match` gives its calls on `udev`, its
-- end and the new state; and the keyboard database, whose `getID` has no result where it throws
-- `SystemError`.
pub record Scripting : Type 1 where
  pub Lua : Type 0
  pub call_match : Lua → InputEvent → Str → List UdevCall × MatchResult × Lua
  pub get_id : InputId → Option Str

pub record Options : Type 0 where
  pub notify_on_err : Bool
  pub stop_on_err : Bool
  pub eval_keydown : Bool
  pub eval_keyup : Bool
  pub eval_repeat : Bool
  pub disabled : Bool

module _ (K : Link) (L : Scripting) where
  pub record Script : Type 0 where
    pub lua : L.Lua
    pub enabled : Bool

  -- `scripts` is the map from names to scripts, in the order in which it is iterated; `shown` is the
  -- sequence of desktop notifications.
  pub record MacroDaemon : Type 0 where
    pub options : Options
    pub scripts : List (Str × Script)
    pub remote_udev : RemoteUDevice K
    pub last_notification : Str × Str
    pub shown : List (Str × Str)

  unfoldable pub notify : Str → Str → MacroDaemon → MacroDaemon
  notify title msg m =
      if str_eq title m.last_notification.0 && str_eq msg m.last_notification.1
      then m
      else record m { last_notification = (title, msg); shown = m.shown ++ (title, msg) ∷ [] }

  abbrev pub on_udev : Action (RemoteUDevice K) Unit → Action MacroDaemon Unit
  on_udev act m = let (r, udev) = act m.remote_udev in (r, record m { remote_udev = udev })

  -- The calls of a script, until one throws.
  unfoldable pub perform : List UdevCall → Action (RemoteUDevice K) Unit
  perform [] r = (ok tt, r)
  perform (emit_call type code val ∷ calls) r = perform calls (emit_val K type code val r)
  perform (flush_call ∷ calls) r =
      let (res, s) = flush K r in proceed res s (λ _ u. perform calls u)

  -- The handler of `LuaError` in `runScript`.
  unfoldable pub report_error : Str → Script → MacroDaemon → MacroDaemon × Script
  unfolding notify
  report_error report sc m = (
    (if m.options.notify_on_err then notify (codes "Lua error") report m else m),
    record sc { enabled = if m.options.stop_on_err then false else sc.enabled },
  )

  -- What follows the call of `__match` in `runScript`; the Boolean is `repeat`.
  unfoldable pub end_script : MatchResult → Script → MacroDaemon → Bool × MacroDaemon × Script
  unfolding report_error
  end_script (matched succ) sc m = (not succ, m, sc)
  end_script (lua_error report) sc m = let (m', sc') = report_error report sc m in (true, m', sc')

  unfoldable pub run_script :
      Script → InputEvent → Str → MacroDaemon → Result Bool × MacroDaemon × Script
  unfolding perform end_script
  run_script sc ev kbd_hid m =
      let (calls, res, lua) = L.call_match sc.lua ev kbd_hid in
      let sc' = record sc { lua = lua } in
      let (r, m') = on_udev (perform calls) m in
      elim r [
        | err e ↦ (err e, m', sc')
        | ok _ ↦ let (repeat, m'', sc'') = end_script res sc' m' in (ok repeat, m'', sc'')
      ]

  -- The loop over the scripts: it stops at the first that matches, or when an exception is thrown. The
  -- scripts come back as they are after it.
  unfoldable pub run_scripts :
      List (Str × Script)
      → InputEvent
      → Str
      → MacroDaemon
      → Result Bool × MacroDaemon × List (Str × Script)
  run_scripts [] ev kbd_hid m = (ok true, m, [])
  run_scripts ((name, sc) ∷ rest) ev kbd_hid m =
      let (r, m', sc') = run_script sc ev kbd_hid m in
      let went_on = run_scripts rest ev kbd_hid m' in
      let passed_over = run_scripts rest ev kbd_hid m in
      if sc.enabled
      then elim r [
        | ok true ↦ (went_on.0, went_on.1, (name, sc') ∷ went_on.2)
        | ok false ↦ (ok false, m', (name, sc') ∷ rest)
        | err e ↦ (err e, m', (name, sc') ∷ rest)
      ]
      else (passed_over.0, passed_over.1, (name, sc) ∷ passed_over.2)

  -- The guard of the loop over the scripts.
  abbrev pub is_evaluated : Options → InputEvent → Bool
  is_evaluated o ev =
      not (
        not o.eval_keydown && ev.value == key_val_down
        || not o.eval_keyup && ev.value == key_val_up)
      && not o.disabled

  unfoldable pub match_event : InputEvent → Str → Action MacroDaemon Bool
  match_event ev kbd_hid m =
      let (r, m', scripts) = run_scripts m.scripts ev kbd_hid m in
      if is_evaluated m.options ev then (r, record m' { scripts = scripts }) else (ok true, m)

  -- The body of the `try` block, behind `kbd_com->recv(&action)`.
  unfoldable pub handle_action : KbdAction → Action MacroDaemon Unit
  handle_action action = elim (L.get_id action.dev_id) [
    | none ↦ λ m. (err system_error, m)
    | some kbd_hid ↦ match_event action.ev kbd_hid >>= λ repeat m.
        on_udev (done K)
          (if repeat then record m { remote_udev = emit K action.ev m.remote_udev } else m)
  ]

  -- One round of the main loop. A `SocketError` is caught: the user is told, and a new connection is
  -- awaited and handed to `remote_udev`. Any other exception leaves `run()`.
  unfoldable pub main_round : KbdAction → Action MacroDaemon Unit
  main_round action m =
      let (r, m') = handle_action action m in
      elim r [
        | ok _ ↦ (ok tt, m')
        | err socket_error ↦
            let told =
              notify (codes "Socket error")
                (codes "Connection to InputD timed out, reconnecting ...") m' in
            (ok tt, record told { remote_udev = set_connection K told.remote_udev })
        | err system_error ↦ (err system_error, m')
        | err keyboard_error ↦ (err keyboard_error, m')
        | err process_ended ↦ (err process_ended, m')
      ]
