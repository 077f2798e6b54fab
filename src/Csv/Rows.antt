-- ===== src/Csv/Rows.antt =====
-- Whole tables (src/CSV.cpp, src/CSV.hpp): the shape of what is loaded, and writing then loading.
use mathlib.Core.List.{foldl, flatten, append-nil, append_assoc}
use hawck.Prelude.{
  ℕ, ◌+◌, ◌-◌, ◌*◌, ◌≤◌, ◌<◌, ◌≡◌, ◌≢◌, ◌↔◌, refl, sym, ap, ap₂, ◌∙◌, false, List, [], ◌∷◌, ◌++◌,
  map, arith, Str, ◌==◌, length, length-append, length-replicate, All, replicate,
}
use Prim.Native.Nat.{min}
use hawck.Csv.{
  Csv, comma, newline, quot, row_cells, load_row, load_header, load_from_stream, get_lines,
  fmt_cell, escape,
}
use hawck.Csv.Segments.{join, row_cells-join}

-- The cells of the lines beyond the width of the table.
excess : ℕ → List Str → ℕ
excess w [] = 0
excess w (l ∷ ls) = length (row_cells l) - w + excess w ls

load_rows_shape :
    (c : Csv) (ls : List Str)
    → ((foldl load_row c ls).w ≡ c.w)
      × ((foldl load_row c ls).h ≡ c.h + length ls)
      × (length (foldl load_row c ls).matrix ≡ length c.matrix + c.w * length ls + excess c.w ls)
unfolding excess
load_rows_shape c [] = ground arith
load_rows_shape c (l ∷ ls) = grind (arith, load_rows_shape (load_row c l) ls, one)
  where
    one :
        ((load_row c l).w ≡ c.w)
        × ((load_row c l).h ≡ c.h + 1)
        × (length (load_row c l).matrix ≡ length c.matrix + c.w + (length (row_cells l) - c.w))
    one =
        unfold load_row in
        ground (
          arith,
          length-append c.matrix
              (row_cells l ++ replicate (c.w - min c.w (length (row_cells l))) []),
          length-append (row_cells l) (replicate (c.w - min c.w (length (row_cells l))) []),
          length-replicate {A = Str} (c.w - min c.w (length (row_cells l))) [],
        )

excess_zero : (w : ℕ) (ls : List Str) → (excess w ls ≡ 0) ↔ All (λ l. length (row_cells l) ≤ w) ls
unfolding excess
excess_zero w [] = (λ _. tt, λ _. refl)
excess_zero w (l ∷ ls) = (
  λ e. (omega arith, (excess_zero w ls).0 (omega arith)),
  λ a. omega (arith, (excess_zero w ls).1 a.1),
)

-- The matrix of a loaded table has `w * h` cells exactly when no line has more cells than the header:
-- short lines are padded, and the cells of long lines are all kept and shift the rows behind them.
pub load_from_stream-shape :
    (header : Str) (ls : List Str)
    → (length (load_from_stream (header ∷ ls)).matrix
        ≡ (load_from_stream (header ∷ ls)).w * (load_from_stream (header ∷ ls)).h)
      ↔ All (λ l. length (row_cells l) ≤ (load_from_stream (header ∷ ls)).w) ls
unfolding load_from_stream load_header
load_from_stream-shape header ls =
    let c = load_header header in
    let s = load_rows_shape c ls in
    rw (s.0, s.1, s.2)
      (λ e. (excess_zero c.w ls).0 (omega arith), λ a. omega (arith, (excess_zero c.w ls).1 a))

load_row-join :
    (c : Csv) (r : List Str)
    → length r ≡ c.w
    → 0 < c.w
    → load_row c (join r) ≡ record c { matrix = c.matrix ++ r; h = c.h + 1 }
unfolding load_row
load_row-join c [] e p = absurd (omega arith)
load_row-join c (x ∷ xs) e p = rw (row_cells-join x xs) (
    rw none_missing
      (ap (λ m. record c { matrix = c.matrix ++ (x ∷ m); h = c.h + 1 }) (append-nil xs)))
  where
    none_missing : c.w - min c.w (length (x ∷ xs)) ≡ 0
    none_missing = omega arith

pub load_rows-join :
    (c : Csv) (rows : List (List Str))
    → All (λ r. length r ≡ c.w) rows
    → 0 < c.w
    → foldl load_row c (map join rows)
      ≡ record c { matrix = c.matrix ++ flatten rows; h = c.h + length rows }
unfolding flatten
load_rows-join c [] a p =
    ap₂ (λ m n. record c { matrix = m; h = n }) (sym (append-nil c.matrix)) (omega arith)
load_rows-join c (r ∷ rows) a p =
    ap (λ d. foldl load_row d (map join rows)) (load_row-join c r a.0 p)
    ∙ load_rows-join (record c { matrix = c.matrix ++ r; h = c.h + 1 }) rows a.1 p
    ∙ ap₂ (λ m n. record c { matrix = m; h = n }) (append_assoc c.matrix r (flatten rows))
        (omega arith)

-- A text with no line break.
abbrev pub OneLine : Str → Type 0
OneLine t = All (λ c. c ≢ newline) t

OneLine-append : (s t : Str) → OneLine s → OneLine t → OneLine (s ++ t)
OneLine-append [] t h k = k
OneLine-append (c ∷ s) t h k = (h.0, OneLine-append s t h.1 k)

OneLine-escape : (t : Str) → OneLine t → OneLine (escape t)
unfolding escape
OneLine-escape [] h = tt
OneLine-escape (c ∷ t) h = ground (arith, OneLine-escape t h.1)

OneLine-fmt_cell : (t : Str) → OneLine t → OneLine (fmt_cell t)
unfolding fmt_cell
OneLine-fmt_cell t h =
    ground (arith, OneLine-append (escape t) (quot ∷ []) (OneLine-escape t h) (omega arith, tt))

OneLine-join : (r : List Str) → All OneLine r → OneLine (join r)
unfolding join
OneLine-join [] a = tt
OneLine-join (c ∷ []) a = OneLine-fmt_cell c a.0
OneLine-join (c ∷ (d ∷ cs)) a =
    OneLine-append (fmt_cell c) (comma ∷ join (d ∷ cs)) (OneLine-fmt_cell c a.0)
      (omega arith, OneLine-join (d ∷ cs) a.1)

-- The text of a table, row by row.
unfoldable pub print : List (List Str) → Str
print [] = []
print (r ∷ rows) = join r ++ newline ∷ print rows

get_line :
    (line t rest : Str)
    → OneLine t
    → get_lines line (t ++ newline ∷ rest) ≡ (line ++ t) ∷ get_lines [] rest
unfolding get_lines
get_line line [] rest h = ap (λ l. l ∷ get_lines [] rest) (sym (append-nil line))
get_line line (c ∷ t) rest h =
    let other : (c == newline) ≡ false = ground arith in
    rw other (
      get_line (line ++ c ∷ []) t rest h.1
      ∙ ap (λ l. l ∷ get_lines [] rest) (append_assoc line (c ∷ []) t))

pub get_lines-print :
    (rows : List (List Str)) → All (All OneLine) rows → get_lines [] (print rows) ≡ map join rows
unfolding print
get_lines-print [] a = unfold get_lines in refl
get_lines-print (r ∷ rows) a =
    get_line [] (join r) (print rows) (OneLine-join r a.0)
    ∙ ap (λ ls. join r ∷ ls) (get_lines-print rows a.1)
