-- ===== src/Combo/Examples.antt =====
-- The killswitch combo of src/KBDDaemon.hpp, run on short streams of key events.
use hawck.Prelude.{ℕ, ◌≡◌, refl, inl, inr, true, false, List, [], ◌∷◌, All}
use hawck.Prelude.Int.{pos}
use hawck.Input.{KbdAction, zero_action, ev_key}
use hawck.Combo.{KeyCombo, check, toggle_check}
use hawck.Combo.Held.{all_up, held_after, combo_after}
use hawck.Combo.Fires.{fires_only_held}

abbrev key_event : ℕ → ℕ → KbdAction
key_event code value = record zero_action {
  ev = record { time = 0; type = ev_key; code = code; value = value };
}

-- KEY_ESC is 1 and KEY_SPACE is 57.
abbrev killswitch : KeyCombo
killswitch = record { key_seq = 1 ∷ []; activator = 57; num_seq = pos 0 }

abbrev esc_down : List KbdAction
esc_down = key_event 1 1 ∷ key_event 1 2 ∷ []

toggles :
    (toggle_check
      (record { combo = combo_after killswitch esc_down; active = false })
      (key_event 57 1)).active
    ≡ true
unfolding toggle_check check combo_after
toggles = refl

-- After the combo has fired, pressing the activator again with the keys still held does not fire.
fires_once :
    (check
      (combo_after killswitch (key_event 1 1 ∷ key_event 57 1 ∷ key_event 57 0 ∷ []))
      (key_event 57 1)).0
    ≡ false
unfolding check combo_after
fires_once = refl

fires_only_held_example :
    (◌≡◌ {A = ℕ} 57 57)
    × (◌≡◌ {A = ℕ} 1 1)
    × All (λ k. held_after all_up esc_down k ≡ true) (1 ∷ [])
unfolding check combo_after held_after
fires_only_held_example =
    fires_only_held killswitch esc_down (key_event 57 1) (refl, tt) refl
      (inl (refl, refl), (inr (inr refl), tt)) (inl (refl, refl)) refl
