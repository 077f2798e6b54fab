-- ===== src/Csv/Columns.antt =====
-- `getColCells`, `getColIndex` and `getRowCells` of src/CSV.cpp and src/CSV.hpp.
use mathlib.Core.List.{flatten, append_assoc}
use hawck.Prelude.{
  ℕ, zero, suc, ◌+◌, ◌-◌, ◌*◌, ◌<◌, ◌≡◌, refl, sym, ap, ◌∙◌, true, false, inl, inr, Option-cases,
  List, [], ◌∷◌, ◌++◌, map, arith, Str, length, length-append, All, some, get_elem?, str_eq,
  str_eq_refl, ltb,
}
use hawck.Csv.{
  Csv, col_loop, get_col_cells, col_index, get_col_index, get_named_cells, row_loop, get_row_cells,
}
use hawck.Csv.RoundTrip.{table}

-- The cell of a row at a column.
abbrev pub nth : ℕ → List Str → Str
nth n [] = []
nth zero (c ∷ cs) = c
nth (suc n) (c ∷ cs) = nth n cs

get_elem?-nth :
    (pre r post : List Str) (n : ℕ)
    → n < length r
    → get_elem? (pre ++ (r ++ post)) (length pre + n) ≡ some (nth n r)
get_elem?-nth (p ∷ pre) r post n h = ground (arith, get_elem?-nth pre r post n h)
get_elem?-nth [] [] post n h = absurd (omega arith)
get_elem?-nth [] (c ∷ r) post zero h = refl
get_elem?-nth [] (c ∷ r) post (suc n) h = ground (arith, get_elem?-nth [] r post n)

col_loop-column :
    (csv : Csv) (pre : List Str) (rows : List (List Str)) (n : ℕ)
    → csv.matrix ≡ pre ++ flatten rows
    → length pre + csv.w * length rows ≡ csv.w * csv.h
    → All (λ r. length r ≡ csv.w) rows
    → n < csv.w
    → col_loop (suc (length rows)) csv (length pre + n) ≡ some (map (nth n) rows)
unfolding col_loop flatten
col_loop-column csv pre [] n m e a h =
    let stop : ltb (length pre + n) (csv.w * csv.h) ≡ false = ground arith in rw stop refl
col_loop-column csv pre (r ∷ rows) n m e a h =
    let go : ltb (length pre + n) (csv.w * csv.h) ≡ true = ground arith in
    let cell : get_elem? csv.matrix (length pre + n) ≡ some (nth n r) =
      rw m (get_elem?-nth pre r (flatten rows) n (omega arith)) in
    let next : length pre + n + csv.w ≡ length (pre ++ r) + n =
      omega (arith, length-append pre r, a.0) in
    let rest : col_loop (suc (length rows)) csv (length pre + n + csv.w) ≡ some (map (nth n) rows) =
      ap (col_loop (suc (length rows)) csv) next
      ∙ col_loop-column csv (pre ++ r) rows n (m ∙ sym (append_assoc pre r (flatten rows)))
          (omega (arith, length-append pre r, a.0)) a.1 h in
    ground (arith, go, cell, rest)

-- The column `n` of a table is the cell `n` of each row below the header, in order, for every column
-- of the table.
pub get_col_cells-table :
    (w n : ℕ) (header : List Str) (rows : List (List Str))
    → n < w
    → All (λ r. length r ≡ w) (header ∷ rows)
    → get_col_cells (table w (header ∷ rows)) n ≡ some (map (nth n) rows)
unfolding get_col_cells
get_col_cells-table w n header rows h a =
    ap (λ i. col_loop (suc (length rows)) (table w (header ∷ rows)) (i + n)) (sym a.0)
    ∙ col_loop-column (table w (header ∷ rows)) header rows n (unfold flatten in refl)
        (omega (arith, a.0)) a.1 h

col_index-first :
    (pre : List Str) (name : Str) (post : List Str) (i : ℕ)
    → All (λ c. str_eq c name ≡ false) pre
    → (left : ℕ) → length pre < left
    → col_index (pre ++ name ∷ post) name i left ≡ some (i + length pre)
unfolding col_index
col_index-first [] name post i a zero h = absurd (omega arith)
col_index-first (c ∷ pre) name post i a zero h = absurd (omega arith)
col_index-first [] name post i a (suc left) h = ground (arith, str_eq_refl name)
col_index-first (c ∷ pre) name post i a (suc left) h =
    ground (arith, col_index-first pre name post (i + 1) a.1 left)

-- Looking a column up by name takes the first column of the header that has the name, and returns its
-- cells below the header.
pub get_named_cells-table :
    (w : ℕ) (pre : List Str) (name : Str) (post : List Str) (rows : List (List Str))
    → All (λ c. str_eq c name ≡ false) pre
    → All (λ r. length r ≡ w) ((pre ++ name ∷ post) ∷ rows)
    → get_named_cells (table w ((pre ++ name ∷ post) ∷ rows)) name
      ≡ some (map (nth (length pre)) rows)
unfolding get_named_cells get_col_index
get_named_cells-table w pre name post rows q a =
    let n : length pre < w = omega (arith, a.0, length-append pre (name ∷ post)) in
    let found : col_index (flatten ((pre ++ name ∷ post) ∷ rows)) name 0 w ≡ some (length pre) =
      unfold flatten in
      rw (append_assoc pre (name ∷ post) (flatten rows))
        (col_index-first pre name (post ++ flatten rows) 0 q w n ∙ ap some (omega arith)) in
    rw found (get_col_cells-table w (length pre) (pre ++ name ∷ post) rows n a)

row_loop-length :
    (m : List Str) (i left : ℕ) (r : List Str) → row_loop m i left ≡ some r → length r ≡ left
unfolding row_loop
row_loop-length m i zero r e = ground arith
row_loop-length m i (suc left) r e = elim (Option-cases (row_loop m (i + 1) left)) [
  | inl out ↦ ground arith
  | inr (rest, found) ↦ ground (arith, row_loop-length m (i + 1) left rest found)
]

-- `getRowCells` never returns a whole row but by accident: its row `n` has `n` cells, whatever the
-- width of the table.
pub length-get_row_cells :
    (csv : Csv) (n : ℕ) (r : List Str) → get_row_cells csv n ≡ some r → length r ≡ n
unfolding get_row_cells
length-get_row_cells csv n r e =
    row_loop-length csv.matrix (n * csv.w) (n * (csv.w + 1) - n * csv.w) r e ∙ omega arith
