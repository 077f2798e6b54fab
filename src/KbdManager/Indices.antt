-- ===== src/KbdManager/Indices.antt =====
-- The keyboards of src/KBDManager.cpp keep their indices.
use hawck.Prelude.{ℕ, zero, suc, ◌≡◌, refl, ap, List, [], ◌∷◌, length}
use hawck.Keyboard.{Keyboard}
use hawck.KbdManager.{replace_at}

pub length-replace_at :
    (kbds : List Keyboard) (id : ℕ) (k : Keyboard) → length (replace_at kbds id k) ≡ length kbds
length-replace_at [] id k = refl
length-replace_at (x ∷ kbds) zero k = refl
length-replace_at (x ∷ kbds) (suc id) k = ap suc (length-replace_at kbds id k)
