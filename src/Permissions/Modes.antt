-- ===== src/Permissions/Modes.antt =====
-- The mode of a file and its permission string, as src/Permissions.cpp writes and reads it.
use native.Mathlib.Nat.{mul_comm}
use hawck.Prelude.{
  ℕ, zero, suc, ◌+◌, ◌*◌, ◌/◌, ◌%◌, ◌≡◌, refl, ap, ap₂, ◌∙◌, Bool, false, ◌&&◌, ◌||◌, List, [], ◌∷◌,
  Str, codes, str_eq, arith, ◌==◌, ==_iff, Bool-cases, inl, inr,
}
use hawck.Permissions.{
  all_modes, is_set, bit_and, mode_masks, bit_char, dash, dot, fmt_bits, fmt_permissions,
  parse_bits, Collection, collection_eq,
}

bit_char-cases : (i : ℕ) → ((bit_char i == dot) ≡ false) × ((bit_char i == dash) ≡ false)
bit_char-cases i = ground arith

abbrev bit : ℕ → ℕ → ℕ
bit num mask = num / mask % 2

step :
    (num mask i : ℕ) (masks : List ℕ) (mode mode_mask : ℕ)
    → is_set mode mask ≡ false
    → is_set mode_mask mask ≡ false
    → parse_bits (mask ∷ masks) (fmt_bits (mask ∷ masks) i num) (mode, mode_mask)
      ≡ parse_bits masks (fmt_bits masks (i + 1) num) (mode + bit num mask * mask, mode_mask + mask)
unfolding parse_bits fmt_bits
step num mask i masks mode mode_mask a b =
    let (no_dot, no_dash) = bit_char-cases i in
    elim (Bool-cases (is_set num mask)) [
      | inl set ↦
          let one : bit num mask ≡ 1 = (==_iff (bit num mask) 1).0 set in
          let grown : mode + mask ≡ mode + bit num mask * mask = rw one (omega arith) in
          rw (set, no_dot, no_dash, a, b)
            (ap (λ x. parse_bits masks (fmt_bits masks (i + 1) num) (x, mode_mask + mask)) grown)
      | inr clear ↦
          let none_set : bit num mask ≡ 0 = ground (arith, clear) in
          let kept : mode ≡ mode + bit num mask * mask = rw none_set (omega arith) in
          rw (clear, b)
            (ap (λ x. parse_bits masks (fmt_bits masks (i + 1) num) (x, mode_mask + mask)) kept)
    ]

next :
    (num mask i : ℕ) (masks : List ℕ) (mode mode' mode_mask : ℕ)
    → is_set mode mask ≡ false
    → is_set mode_mask mask ≡ false
    → mode + bit num mask * mask ≡ mode'
    → parse_bits (mask ∷ masks) (fmt_bits (mask ∷ masks) i num) (mode, mode_mask)
      ≡ parse_bits masks (fmt_bits masks (i + 1) num) (mode', mode_mask + mask)
next num mask i masks mode mode' mode_mask a b e =
    step num mask i masks mode mode_mask a b
    ∙ ap (λ x. parse_bits masks (fmt_bits masks (i + 1) num) (x, mode_mask + mask)) e

-- The permission string that `fmtPermissions` writes for a mode is read back as the nine permission bits
-- of the mode, with all nine bits in the mask.
pub parse_bits-fmt_permissions :
    (num : ℕ) → parse_bits mode_masks (fmt_permissions num) (0, 0) ≡ (num % 0o1000, all_modes)
unfolding fmt_permissions parse_bits
parse_bits-fmt_permissions num =
    next num 256 0 (128 ∷ 64 ∷ 32 ∷ 16 ∷ 8 ∷ 4 ∷ 2 ∷ 1 ∷ []) 0 (num / 256 % 2 * 256) 0 refl refl
      (omega arith)
    ∙ next num 128 1 (64 ∷ 32 ∷ 16 ∷ 8 ∷ 4 ∷ 2 ∷ 1 ∷ []) _ (num / 128 % 4 * 128) 256 (ground arith)
        refl (omega arith)
    ∙ next num 64 2 (32 ∷ 16 ∷ 8 ∷ 4 ∷ 2 ∷ 1 ∷ []) _ (num / 64 % 8 * 64) 384 (ground arith) refl
        (omega arith)
    ∙ next num 32 3 (16 ∷ 8 ∷ 4 ∷ 2 ∷ 1 ∷ []) _ (num / 32 % 16 * 32) 448 (ground arith) refl
        (omega arith)
    ∙ next num 16 4 (8 ∷ 4 ∷ 2 ∷ 1 ∷ []) _ (num / 16 % 32 * 16) 480 (ground arith) refl
        (omega arith)
    ∙ next num 8 5 (4 ∷ 2 ∷ 1 ∷ []) _ (num / 8 % 64 * 8) 496 (ground arith) refl (omega arith)
    ∙ next num 4 6 (2 ∷ 1 ∷ []) _ (num / 4 % 128 * 4) 504 (ground arith) refl (omega arith)
    ∙ next num 2 7 (1 ∷ []) _ (num / 2 % 256 * 2) 508 (ground arith) refl (omega arith)
    ∙ next num 1 8 [] _ (num % 512) 510 (ground arith) refl (omega arith)

bit_and_comm : (width a b : ℕ) → bit_and width a b ≡ bit_and width b a
unfolding bit_and
bit_and_comm zero a b = refl
bit_and_comm (suc width) a b =
    ap₂ (λ x y. x + 2 * y) (mul_comm (a % 2) (b % 2)) (bit_and_comm width (a / 2) (b / 2))

eq_sym : (a b : ℕ) → (a == b) ≡ (b == a)
eq_sym a b = ground arith

str_eq_sym : (xs ys : Str) → str_eq xs ys ≡ str_eq ys xs
str_eq_sym [] [] = refl
str_eq_sym [] (y ∷ ys) = refl
str_eq_sym (x ∷ xs) [] = refl
str_eq_sym (x ∷ xs) (y ∷ ys) = ap₂ (◌&&◌) (eq_sym x y) (str_eq_sym xs ys)

or_comm : (a b : Bool) → (a || b) ≡ (b || a)
or_comm a b = ground arith

-- The comparison of two descriptions does not depend on which of them is the expected one.
pub collection_eq_comm : (c other : Collection) → collection_eq c other ≡ collection_eq other c
unfolding collection_eq
collection_eq_comm c other =
    let star = codes "*" in
    let modes =
      ap (λ m. bit_and 32 other.mode m == bit_and 32 c.mode m)
        (bit_and_comm 32 c.mode_mask other.mode_mask)
      ∙ eq_sym (bit_and 32 other.mode (bit_and 32 other.mode_mask c.mode_mask))
          (bit_and 32 c.mode (bit_and 32 other.mode_mask c.mode_mask)) in
    let users =
      ap₂ ◌||◌ (eq_sym other.uid c.uid)
        (or_comm (str_eq c.user_name star) (str_eq other.user_name star)) in
    let groups =
      ap₂ ◌||◌ (eq_sym other.gid c.gid)
        (or_comm (str_eq c.group_name star) (str_eq other.group_name star)) in
    let types = str_eq_sym other.file_type_char c.file_type_char in
    ap₂ ◌&&◌ (ap₂ ◌&&◌ (ap₂ ◌&&◌ modes types) users) groups
