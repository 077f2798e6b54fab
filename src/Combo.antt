-- ===== src/Combo.antt =====
-- src/KeyCombo.hpp: a sequence of keys to hold and the key that activates it.
pub mod Held
pub mod Fires
pub mod Start
mod Examples
use hawck.Prelude.{
  ℕ, Bool, true, false, not, ◌&&◌, List, [], ◌∷◌, Option, none, some, length, ◌==◌, if◌then◌else◌,
}
use hawck.Prelude.Int.{ℤ, pos, negsuc, incr, decr, is_neg}
use hawck.Input.{KbdAction, key_val_down, key_val_repeat}

pub record KeyCombo : Type 0 where
  pub key_seq : List ℕ
  pub activator : ℕ
  pub num_seq : ℤ

-- The last key of the sequence, and the keys before it.
abbrev pub split_last : ℕ → List ℕ → List ℕ × ℕ
split_last k [] = ([], k)
split_last k (l ∷ ls) = let (init, last) = split_last l ls in (k ∷ init, last)

-- The constructor does not assign `num_seq`: it holds the indeterminate value `left_over`. An empty
-- sequence is indexed out of range, and has no combo.
unfoldable pub key_combo : List ℕ → ℤ → Option KeyCombo
key_combo [] left_over = none
key_combo (k ∷ ks) left_over =
    let (init, last) = split_last k ks in
    some (record { key_seq = init; activator = last; num_seq = left_over })

-- `num_seq == (int) key_seq.size()`.
abbrev pub is_size : ℤ → ℕ → Bool
is_size (pos n) size = n == size
is_size (negsuc n) size = false

-- The loop over `key_seq` with its `break`.
unfoldable pub count_key : List ℕ → ℕ → ℕ → ℤ → ℤ
count_key [] code value n = n
count_key (k ∷ ks) code value n =
    if k == code
    then (if value == key_val_down then incr n else decr n)
    else count_key ks code value n

abbrev pub clamp : ℤ → ℤ
clamp n = if is_neg n then pos 0 else n

unfoldable pub check : KeyCombo → KbdAction → Bool × KeyCombo
unfolding count_key
check c action =
    if action.ev.value == key_val_repeat
    then (false, c)
    else if is_size c.num_seq (length c.key_seq)
        && action.ev.code == c.activator
        && action.ev.value == key_val_down
    then (true, record c { num_seq = pos 0 })
    else (
      false,
      record c { num_seq = clamp (count_key c.key_seq action.ev.code action.ev.value c.num_seq) },
    )

pub record KeyComboToggle : Type 0 where
  pub combo : KeyCombo
  pub active : Bool

-- `KeyComboToggle::check`; the Boolean that it returns is the new `active`.
unfoldable pub toggle_check : KeyComboToggle → KbdAction → KeyComboToggle
toggle_check t action =
    let (fired, c) = check t.combo action in
    record { combo = c; active = if fired then not t.active else t.active }
