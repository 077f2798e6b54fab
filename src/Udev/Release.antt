-- ===== src/Udev/Release.antt =====
-- src/Version.cpp: the release of the running kernel, as numbers.
use hawck.Prelude.{
  ℕ, ◌+◌, ◌*◌, ◌-◌, Bool, ◌&&◌, [], ◌∷◌, Option, none, some, Str, leb, ◌==◌, if◌then◌else◌,
}

-- `\d`, on ASCII.
abbrev pub is_digit : ℕ → Bool
is_digit c = leb 48 c && leb c 57

-- The longest run of digits in front, as `atoi` reads it, and what follows.
unfoldable pub digits_from : ℕ → Str → ℕ × Str
digits_from n [] = (n, [])
digits_from n (c ∷ s) =
    let rest = digits_from (n * 10 + (c - 48)) s in if is_digit c then rest else (n, c ∷ s)

-- `(\d+)` and the character behind it.
unfoldable pub number_before : ℕ → Str → Option (ℕ × Str)
number_before mark [] = none
number_before mark (c ∷ s) =
    let (n, rest) = digits_from 0 (c ∷ s) in
    let closed : Option (ℕ × Str) = elim rest [
      | [] ↦ none
      | d ∷ rest' ↦ if d == mark then some (n, rest') else none
    ] in
    if is_digit c then closed else none

-- The match of `^(\d+)\.(\d+)\.(\d+)-.*`.
unfoldable pub parse_release : Str → Option (ℕ × ℕ × ℕ)
parse_release release = elim (number_before 46 release) [
  | none ↦ none
  | some (major, s1) ↦ elim (number_before 46 s1) [
    | none ↦ none
    | some (minor, s2) ↦ elim (number_before 45 s2) [
      | none ↦ none
      | some (patch, s3) ↦ some (major, minor, patch)
    ]
  ]
]
