-- ===== src/Csv/Cells.antt =====
-- Formatting and reading one cell of a table (src/CSV.hpp, src/CSV.cpp).
use hawck.Prelude.{ℕ, ◌≡◌, refl, ap, inl, inr, false, [], ◌∷◌, ◌++◌, arith, Str, Bool-cases}
use hawck.Csv.{quot, unescape, without_last, read_cell, is_special, escape, fmt_cell}

without_last-append : (c : ℕ) (s : Str) (l : ℕ) → without_last (c ∷ (s ++ l ∷ [])) ≡ c ∷ s
without_last-append c [] l = refl
without_last-append c (d ∷ s) l = ap (λ t. c ∷ t) (without_last-append d s l)

unescape-escape : (s : Str) → unescape false (escape s) ≡ s
unfolding unescape escape
unescape-escape [] = refl
unescape-escape (c ∷ cs) = ground (arith, unescape-escape cs)

read_cell-plain : (s : Str) → is_special s ≡ false → read_cell s ≡ s
unfolding is_special read_cell
read_cell-plain [] h = refl
read_cell-plain (c ∷ cs) h = ground arith

read_cell-quoted : (s : Str) → read_cell (quot ∷ (escape s ++ quot ∷ [])) ≡ s
unfolding read_cell
read_cell-quoted s = rw (without_last-append quot (escape s) quot) (unescape-escape s)

-- Reading a formatted cell gives the cell back, whatever its characters.
pub read_cell-fmt_cell : (s : Str) → read_cell (fmt_cell s) ≡ s
unfolding fmt_cell
read_cell-fmt_cell s = elim (Bool-cases (is_special s)) [
  | inl special ↦ rw special (read_cell-quoted s)
  | inr plain ↦ rw plain (read_cell-plain s plain)
]
