-- ===== src/Udev/Create/Found.antt =====
-- The descriptors that `getDevice` of src/UDevice.cpp leaves open.
use mathlib.Core.Path.{subst}
use hawck.Prelude.{
  ℕ, ◌≡◌, refl, sym, ap, ◌∙◌, inl, inr, Bool, true, List, [], ◌∷◌, Option, none, some, Str, str_eq,
  ◌==◌, ==_iff, if◌then◌else◌, Bool-cases, Option-cases,
}
use hawck.Udev.Create.{Creation, get_device}

module _ (C : Creation) where
  open C use {W}

  -- The descriptor `n` after a descriptor, or none, was opened.
  abbrev pub with_fd : Option ℕ → ℕ → Bool → Bool
  with_fd none n before = before
  with_fd (some fd) n before = if fd == n then true else before

  closed_again :
      (entry : Str) (w : W) (fd n : ℕ)
      → (C.open_device entry w).0 ≡ some fd
      → C.is_open (C.close fd (C.open_device entry w).1) n ≡ C.is_open w n
  closed_again entry w fd n opened =
      let w' = (C.open_device entry w).1 in
      let fresh = C.open-fresh entry w fd opened in
      C.open-close fd n w' ∙ elim (Bool-cases (fd == n)) [
        | inl e ↦ rw e (sym (sym (ap (C.is_open w) ((==_iff fd n).0 e)) ∙ fresh))
        | inr e ↦ rw e (C.open-device entry w fd n opened ∙ rw e refl)
      ]

  -- `getDevice` leaves open, of the descriptors that it opens, the one that it returns and no other.
  pub get_device-open :
      (by_name : Str) (entries : List Str) (w : W) (n : ℕ)
      → C.is_open (get_device C by_name entries w).1 n
        ≡ with_fd (get_device C by_name entries w).0 n (C.is_open w n)
  unfolding get_device
  get_device-open by_name [] w n = refl
  get_device-open by_name (entry ∷ entries) w n =
      let w' = (C.open_device entry w).1 in
      let Left : (Option ℕ × W → Type 0) = λ r. C.is_open r.1 n ≡ with_fd r.0 n (C.is_open w n) in
      elim (Option-cases (C.open_device entry w).0) [
        | inl failed ↦
            let next : get_device C by_name (entry ∷ entries) w ≡ get_device C by_name entries w' =
              rw (failed, get_device) refl in
            let same = C.open-device_failed entry w n failed in
            subst Left (sym next) (
              get_device-open by_name entries w' n
              ∙ ap (with_fd (get_device C by_name entries w').0 n) same)
        | inr (fd, opened) ↦ elim (Bool-cases (str_eq (C.device_name fd w') by_name)) [
          | inl named ↦
              let next : get_device C by_name (entry ∷ entries) w ≡ (some fd, w') =
                rw (opened, named, get_device) refl in
              subst Left (sym next) (C.open-device entry w fd n opened)
          | inr other ↦
              let next : get_device C by_name (entry ∷ entries) w
                  ≡ get_device C by_name entries (C.close fd w') =
                rw (opened, other, get_device) refl in
              subst Left (sym next) (
                get_device-open by_name entries (C.close fd w') n
                ∙ ap (with_fd (get_device C by_name entries (C.close fd w')).0 n)
                    (closed_again entry w fd n opened))
        ]
      ]
