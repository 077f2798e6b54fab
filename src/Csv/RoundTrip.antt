-- ===== src/Csv/RoundTrip.antt =====
-- Writing a table with `_write` of src/CSV.hpp and loading the text again.
use mathlib.Core.List.{foldl, flatten, append-nil, append_assoc}
use hawck.Prelude.{
  ℕ, ◌+◌, ◌*◌, ◌<◌, ◌≡◌, refl, sym, ap, ap₂, ◌∙◌, List, [], ◌∷◌, ◌++◌, map, arith, Str, length,
  length-append, All, some, get_elem?,
}
use hawck.Csv.{
  Csv, load_row, load_header, load_from_stream, get_lines, fmt_cell, write_cells, write_rows, write,
}
use hawck.Csv.Segments.{join, row_cells-join}
use hawck.Csv.Rows.{OneLine, print, load_rows-join, get_lines-print}

get_elem?-middle {ℓ} :
    {A : Type ℓ} (pre : List A) (x : A) (post : List A)
    → get_elem? (pre ++ x ∷ post) (length pre) ≡ some x
get_elem?-middle [] x post = refl
get_elem?-middle (p ∷ pre) x post = get_elem?-middle pre x post

write_cells-join :
    (pre r post : List Str)
    → write_cells (pre ++ (r ++ post)) (length pre) (length r) ≡ some (join r)
unfolding write_cells join
write_cells-join pre [] post = refl
write_cells-join pre (c ∷ []) post =
    ground (arith, get_elem?-middle pre c post, append-nil (fmt_cell c))
write_cells-join pre (c ∷ (d ∷ cs)) post =
    let rest : write_cells (pre ++ (c ∷ ((d ∷ cs) ++ post))) (length pre + 1) (length (d ∷ cs))
        ≡ some (join (d ∷ cs)) =
      ap₂ (λ m n. write_cells m n (length (d ∷ cs)))
        (sym (append_assoc pre (c ∷ []) ((d ∷ cs) ++ post)))
        (omega (arith, length-append pre (c ∷ [])))
      ∙ write_cells-join (pre ++ c ∷ []) (d ∷ cs) post in
    ground (arith, get_elem?-middle pre c ((d ∷ cs) ++ post), rest)

-- The table with the given rows.
abbrev pub table : ℕ → List (List Str) → Csv
table w rows = record { matrix = flatten rows; w = w; h = length rows }

write_rows-print :
    (c : Csv) (y : ℕ) (pre : List Str) (rows : List (List Str))
    → c.matrix ≡ pre ++ flatten rows
    → length pre ≡ y * c.w
    → All (λ r. length r ≡ c.w) rows
    → write_rows c y (length rows) ≡ some (print rows)
unfolding write_rows print flatten
write_rows-print c y pre [] m e a = refl
write_rows-print c y pre (r ∷ rows) m e a =
    let line : write_cells c.matrix (y * c.w) c.w ≡ some (join r) =
      rw (m, ← e, ← a.0) (write_cells-join pre r (flatten rows)) in
    let rest : write_rows c (y + 1) (length rows) ≡ some (print rows) =
      write_rows-print c (y + 1) (pre ++ r) rows (m ∙ sym (append_assoc pre r (flatten rows)))
        (omega (arith, length-append pre r, a.0)) a.1 in
    ground (arith, line, rest)

-- A table with at least one column and one row, all rows of one width, and no line break in a cell,
-- can be written, and the text that is written loads as the same table.
pub load-write :
    (w : ℕ) (header : List Str) (rows : List (List Str))
    → 0 < w
    → All (λ r. length r ≡ w) (header ∷ rows)
    → All (All OneLine) (header ∷ rows)
    → (text : Str) × (write (table w (header ∷ rows)) ≡ some text)
      × (load_from_stream (get_lines [] text) ≡ table w (header ∷ rows))
unfolding write load_from_stream
load-write w [] rows p a o = absurd (omega arith)
load-write w (c ∷ cs) rows p a o = (
  print ((c ∷ cs) ∷ rows),
  write_rows-print (table w ((c ∷ cs) ∷ rows)) 0 [] ((c ∷ cs) ∷ rows) refl (omega arith) a,
  rw (get_lines-print ((c ∷ cs) ∷ rows) o) loaded,
)
  where
    header_loaded : load_header (join (c ∷ cs)) ≡ record { matrix = c ∷ cs; w = w; h = 1 }
    header_loaded =
        unfold load_header in
        rw (row_cells-join c cs) (ap (λ n. record { matrix = c ∷ cs; w = n; h = 1 }) a.0)

    loaded :
        foldl load_row (load_header (join (c ∷ cs))) (map join rows) ≡ table w ((c ∷ cs) ∷ rows)
    loaded =
        ap (λ d. foldl load_row d (map join rows)) header_loaded
        ∙ load_rows-join (record { matrix = c ∷ cs; w = w; h = 1 }) rows a.1 p
        ∙ unfold flatten in
          ap (λ n. record { matrix = (c ∷ cs) ++ flatten rows; w = w; h = n }) (omega arith)
