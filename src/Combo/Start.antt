-- ===== src/Combo/Start.antt =====
-- The combo before its first event: the constructor of src/KeyCombo.hpp leaves `num_seq` unassigned.
use hawck.Prelude.{ℕ, ◌≡◌, refl, ◌↔◌, true, List, [], ◌∷◌, some, arith, length, ap, ◌++◌}
use hawck.Prelude.Int.{ℤ, pos, negsuc}
use hawck.Input.{KbdAction, key_val_down}
use hawck.Combo.{KeyCombo, key_combo, check, split_last}

-- When the activator is the first key to be pressed, the combo fires exactly when the indeterminate
-- value that the constructor leaves in `num_seq` is the number of the other keys of the sequence.
pub check-key_combo :
    (seq : List ℕ) (left_over : ℤ) (c : KeyCombo) (a : KbdAction)
    → key_combo seq left_over ≡ some c
    → a.ev.code ≡ c.activator
    → a.ev.value ≡ key_val_down
    → ((check c a).0 ≡ true) ↔ (left_over ≡ pos (length c.key_seq))
unfolding key_combo check
check-key_combo [] left_over c a e u v = ground arith
check-key_combo (k ∷ ks) (pos n) c a e u v = ground arith
check-key_combo (k ∷ ks) (negsuc n) c a e u v = ground arith

split_last-append : (k : ℕ) (ks : List ℕ) → (split_last k ks).0 ++ (split_last k ks).1 ∷ [] ≡ k ∷ ks
split_last-append k [] = refl
split_last-append k (l ∷ ls) = ap (λ xs. k ∷ xs) (split_last-append l ls)

-- The combo of a sequence has its last key as activator and the keys before it, in order, as
-- `key_seq`.
pub key_combo-append :
    (seq : List ℕ) (left_over : ℤ) (c : KeyCombo)
    → key_combo seq left_over ≡ some c
    → c.key_seq ++ c.activator ∷ [] ≡ seq
unfolding key_combo
key_combo-append [] left_over c e = ground arith
key_combo-append (k ∷ ks) left_over c e = ground (arith, split_last-append k ks)
