-- ===== src/Keyboard/Identity.antt =====
-- How src/Keyboard.cpp names and recognises a device.
use mathlib.Core.Path.{subst}
use hawck.Prelude.{
  ℕ, zero, suc, ◌+◌, ◌/◌, ◌%◌, ◌≡◌, refl, sym, ap, ◌∙◌, true, false, ◌||◌, [], ◌∷◌, ◌++◌, some, Str,
  codes, str_eq_refl, elem, arith, Option-cases, inl, inr,
}
use hawck.Prelude.Int.{ℤ}
use hawck.Input.{InputId}
use hawck.Effect.{ok, err, keyboard_error}
use hawck.Keyboard.{Devices, Keyboard}
use hawck.Keyboard.Opening.{
  Opens, Info, read_id, same_id, decimal, underscored, get_id, made, is_device, open_keyboard,
  is_me,
}

elem-append : (x : ℕ) (xs ys : Str) → elem x (xs ++ ys) ≡ (elem x xs || elem x ys)
elem-append x [] ys = refl
elem-append x (y ∷ xs) ys = ground (arith, elem-append x xs ys)

no_space-append :
    (xs ys : Str) → elem 32 xs ≡ false → elem 32 ys ≡ false → elem 32 (xs ++ ys) ≡ false
no_space-append xs ys h g = ground (arith, elem-append 32 xs ys, h, g)

decimal_no_space :
    (rounds n : ℕ) (digits : Str)
    → elem 32 digits ≡ false
    → elem 32 (decimal rounds n digits) ≡ false
unfolding decimal
decimal_no_space zero n digits h = h
decimal_no_space (suc rounds) n digits h =
    let more = (48 + n % 10) ∷ digits in
    let fine : elem 32 more ≡ false = ground (arith, h) in
    ground (arith, fine, decimal_no_space rounds (n / 10) more fine)

underscored_no_space : (name : Str) → elem 32 (underscored name) ≡ false
unfolding underscored
underscored_no_space [] = refl
underscored_no_space (c ∷ name) = ground (arith, underscored_no_space name)

-- The id of a keyboard has no space, whatever its name is.
pub get_id-no_space : (k : Keyboard) → elem 32 (get_id k) ≡ false
unfolding get_id
get_id-no_space k =
    let vendor = decimal_no_space 5 k.dev_id.vendor [] refl in
    let product = decimal_no_space 5 k.dev_id.product [] refl in
    let colon = codes ":" in
    let start = decimal 5 k.dev_id.vendor [] ++ colon in
    let second = start ++ decimal 5 k.dev_id.product [] in
    no_space-append (second ++ colon) (underscored k.name)
      (no_space-append second colon
        (no_space-append start (decimal 5 k.dev_id.product [])
          (no_space-append (decimal 5 k.dev_id.vendor []) colon vendor refl) product)
        refl)
      (underscored_no_space k.name)

pub same_id_refl : (a : InputId) → same_id a a ≡ true
same_id_refl a = ground arith

module _ (D : Devices) (O : Opens D) where
  is_device-made : (i j : Info) (fd : ℤ) → i ≡ j → is_device (made i fd) j ≡ true
  is_device-made i j fd same =
      subst (λ x. is_device (made i fd) x ≡ true) same
        (rw (str_eq_refl i.name, str_eq_refl i.uniq_id, same_id_refl (read_id i)) refl)

  open_keyboard_inv :
      (path : Str) (w : D.W) (k : Keyboard)
      → (open_keyboard D O path w).0 ≡ ok k
      → (fd : ℤ) × ((O.open_path path w).0 ≡ some fd)
        × (k ≡ made (O.device_at path w) fd)
        × ((open_keyboard D O path w).1 ≡ (O.open_path path w).1)
  unfolding open_keyboard
  open_keyboard_inv path w k done = elim (Option-cases (O.open_path path w).0) [
    | inl missing ↦
        let fails : (open_keyboard D O path w).0 ≡ err keyboard_error =
          rw (missing, open_keyboard) refl in
        absurd (cc (fails, done))
    | inr (fd, opened) ↦
        let works : (open_keyboard D O path w).0 ≡ ok (made (O.info fd (O.open_path path w).1) fd) =
          rw (opened, open_keyboard) refl in
        let result : ok k ≡ ok (made (O.info fd (O.open_path path w).1) fd) = sym done ∙ works in
        let fields : k ≡ made (O.info fd (O.open_path path w).1) fd = cc result in
        (
          fd,
          opened,
          fields ∙ ap (λ i. made i fd) (O.info-open path w fd opened),
          rw (opened, open_keyboard) refl,
        )
  ]

  -- A keyboard that was opened from a path is recognised as the device of every path that leads to
  -- the same device; the test leaves one more descriptor open than before.
  pub is_me-open_keyboard :
      (path other : Str) (w : D.W) (k : Keyboard) (fd : ℤ)
      → (open_keyboard D O path w).0 ≡ ok k
      → O.device_at other w ≡ O.device_at path w
      → (O.open_path other (open_keyboard D O path w).1).0 ≡ some fd
      → ((is_me D O k other (open_keyboard D O path w).1).0 ≡ ok true)
        × (O.opened (is_me D O k other (open_keyboard D O path w).1).1
            ≡ O.opened (open_keyboard D O path w).1 + 1)
  unfolding is_me
  is_me-open_keyboard path other w k fd done same opened =
      let (first, got, fields, world) = open_keyboard_inv path w k done in
      let w' = (open_keyboard D O path w).1 in
      let there : O.device_at path w ≡ O.info fd (O.open_path other w').1 = sym (
        O.info-open other w' fd opened
        ∙ ap (O.device_at other) world
        ∙ O.device_at-open path other w
        ∙ same) in
      let yes_me =
        is_device-made (O.device_at path w) (O.info fd (O.open_path other w').1) first there in
      (
        rw (opened, fields, yes_me, is_me) refl,
        rw (opened, is_me) (O.opened-open other w' fd opened),
      )
