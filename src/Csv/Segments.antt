-- ===== src/Csv/Segments.antt =====
-- `segmentOn` of src/CSV.cpp on a line of formatted cells finds exactly their places.
use mathlib.Core.List.{foldl, foldl-append, append-nil, append_assoc}
use hawck.Prelude.{
  ℕ, ◌+◌, ◌-◌, ◌≡◌, refl, sym, ap, ap₂, ◌∙◌, inl, inr, Bool, true, false, List, [], ◌∷◌, ◌++◌, map,
  arith, Str, ◌==◌, Bool-cases, length, length-append, take, drop,
}
use hawck.Csv.{
  quot, comma, Segment, Scan, scan_char, segment_on, cell_at, row_cells, read_cell, is_special,
  escape, fmt_cell,
}
use hawck.Csv.Cells.{read_cell-fmt_cell}

abbrev scan : Scan → Str → Scan
scan = foldl (scan_char comma)

abbrev mk : ℕ → ℕ → Bool → List Segment → Scan
mk beg i quoted vec = record { beg = beg; i = i; in_quot = quoted; quit_quot = quoted; vec = vec }

abbrev inside : ℕ → ℕ → List Segment → Scan
inside beg i vec = record { beg = beg; i = i; in_quot = true; quit_quot = false; vec = vec }

module _ (beg : ℕ) (vec : List Segment) where
  scan-plain :
      (t : Str) (i : ℕ)
      → is_special t ≡ false
      → scan (mk beg i false vec) t ≡ mk beg (i + length t) false vec
  unfolding is_special
  scan-plain [] i h = ground arith
  scan-plain (c ∷ cs) i h = rw step (scan-plain cs (i + 1) (ground arith) ∙ ground arith)
    where
      step : scan_char comma (mk beg i false vec) c ≡ mk beg (i + 1) false vec
      step = unfold scan_char in ground arith

  inside_step :
      (c i : ℕ)
      → (c == quot) ≡ false
      → scan_char comma (inside beg i vec) c ≡ inside beg (i + 1) vec
  unfolding scan_char
  inside_step c i o = ground arith

  inside-quot :
      (i : ℕ)
      → scan_char comma (scan_char comma (inside beg i vec) quot) quot ≡ inside beg (i + 1 + 1) vec
  unfolding scan_char
  inside-quot i = refl

  scan-escape :
      (t : Str) (i : ℕ)
      → scan (inside beg i vec) (escape t) ≡ inside beg (i + length (escape t)) vec
  unfolding escape
  scan-escape [] i = ground arith
  scan-escape (c ∷ cs) i = elim (Bool-cases (c == quot)) [
    | inl q ↦
        rw q
          (ap (λ s. scan s (escape cs)) (inside-quot i) ∙ scan-escape cs (i + 1 + 1) ∙ ground arith)
    | inr o ↦
        rw o
          (ap (λ s. scan s (escape cs)) (inside_step c i o) ∙ scan-escape cs (i + 1) ∙ ground arith)
  ]

  quoted :
      (t : Str) (i : ℕ)
      → scan (mk beg i false vec) (quot ∷ (escape t ++ quot ∷ []))
        ≡ mk beg (i + length (quot ∷ (escape t ++ quot ∷ []))) true vec
  quoted t i =
      ap (λ s. scan s (escape t ++ quot ∷ [])) open_quot
      ∙ foldl-append (scan_char comma) (inside beg (i + 1) vec) (escape t) (quot ∷ [])
      ∙ ap (λ s. scan s (quot ∷ [])) (scan-escape t (i + 1))
      ∙ close
    where
      open_quot : scan_char comma (mk beg i false vec) quot ≡ inside beg (i + 1) vec
      open_quot = unfold scan_char in refl

      close :
          scan (inside beg (i + 1 + length (escape t)) vec) (quot ∷ [])
          ≡ mk beg (i + length (quot ∷ (escape t ++ quot ∷ []))) true vec
      close = unfold scan_char in ground (arith, length-append (escape t) (quot ∷ []))

  -- A formatted cell is passed without a cut.
  scan-fmt_cell :
      (t : Str) (i : ℕ)
      → scan (mk beg i false vec) (fmt_cell t) ≡ mk beg (i + length (fmt_cell t)) (is_special t) vec
  unfolding fmt_cell
  scan-fmt_cell t i = elim (Bool-cases (is_special t)) [
    | inl special ↦ rw special (quoted t i)
    | inr plain ↦ rw plain (scan-plain t i plain)
  ]

-- A comma behind a cell cuts the line there.
scan_comma :
    (beg i : ℕ) (b : Bool) (vec : List Segment)
    → scan_char comma (mk beg i b vec) comma ≡ mk (i + 1) (i + 1) false (vec ++ (beg, i) ∷ [])
unfolding scan_char
scan_comma beg i true vec = refl
scan_comma beg i false vec = refl

-- The cells of a row, joined as `_write` joins them.
unfoldable pub join : List Str → Str
join [] = []
join (c ∷ []) = fmt_cell c
join (c ∷ (d ∷ cs)) = fmt_cell c ++ comma ∷ join (d ∷ cs)

-- Where the cells stand in the joined row, from `i` on.
places : ℕ → List Str → List Segment
places i [] = []
places i (c ∷ cs) = (i, i + length (fmt_cell c)) ∷ places (i + length (fmt_cell c) + 1) cs

abbrev finish : Scan → List Segment
finish s = s.vec ++ (s.beg, s.i) ∷ []

scan-join :
    (i : ℕ) (vec : List Segment) (c : Str) (cs : List Str)
    → finish (scan (mk i i false vec) (join (c ∷ cs))) ≡ vec ++ places i (c ∷ cs)
unfolding join places
scan-join i vec c [] = ap finish (scan-fmt_cell i vec c i)
scan-join i vec c (d ∷ cs) =
    ap finish (
      foldl-append (scan_char comma) (mk i i false vec) (fmt_cell c) (comma ∷ join (d ∷ cs))
      ∙ ap (λ s. scan s (comma ∷ join (d ∷ cs))) (scan-fmt_cell i vec c i)
      ∙ ap (λ s. scan s (join (d ∷ cs)))
          (scan_comma i (i + length (fmt_cell c)) (is_special c) vec))
    ∙ scan-join (i + length (fmt_cell c) + 1) (vec ++ (i, i + length (fmt_cell c)) ∷ []) d cs
    ∙ append_assoc vec ((i, i + length (fmt_cell c)) ∷ []) _

drop-append : (xs ys : Str) → drop (length xs) (xs ++ ys) ≡ ys
drop-append [] ys = refl
drop-append (x ∷ xs) ys = drop-append xs ys

take-append : (xs ys : Str) → take (length xs) (xs ++ ys) ≡ xs
take-append [] ys = refl
take-append (x ∷ xs) ys = ap (λ t. x ∷ t) (take-append xs ys)

cell_at-place :
    (pre : Str) (c post : Str)
    → cell_at (pre ++ (fmt_cell c ++ post)) (length pre, length pre + length (fmt_cell c)) ≡ c
cell_at-place pre c post =
    ap (λ n. read_cell (take n (drop (length pre) (pre ++ (fmt_cell c ++ post))))) size
    ∙ ap (λ t. read_cell (take (length (fmt_cell c)) t)) (drop-append pre (fmt_cell c ++ post))
    ∙ ap read_cell (take-append (fmt_cell c) post)
    ∙ read_cell-fmt_cell c
  where
    size : length pre + length (fmt_cell c) - length pre ≡ length (fmt_cell c)
    size = omega arith

cells-places :
    (pre : Str) (c : Str) (cs : List Str)
    → map (cell_at (pre ++ join (c ∷ cs))) (places (length pre) (c ∷ cs)) ≡ c ∷ cs
unfolding join places
cells-places pre c [] =
    ap (λ t. cell_at (pre ++ t) (length pre, length pre + length (fmt_cell c)) ∷ [])
      (sym (append-nil (fmt_cell c)))
    ∙ ap (λ t. t ∷ []) (cell_at-place pre c [])
cells-places pre c (d ∷ cs) =
    ap₂ (λ x xs. x ∷ xs) (cell_at-place pre c (comma ∷ join (d ∷ cs)))
      (ap₂ (λ t n. map (cell_at t) (places n (d ∷ cs))) line size
        ∙ cells-places (pre ++ (fmt_cell c ++ comma ∷ [])) d cs)
  where
    line :
        pre ++ (fmt_cell c ++ comma ∷ join (d ∷ cs))
        ≡ (pre ++ (fmt_cell c ++ comma ∷ [])) ++ join (d ∷ cs)
    line = simp append_assoc

    size : length pre + length (fmt_cell c) + 1 ≡ length (pre ++ (fmt_cell c ++ comma ∷ []))
    size = omega (
      arith,
      length-append pre (fmt_cell c ++ comma ∷ []),
      length-append (fmt_cell c) (comma ∷ []),
    )

-- A row that is written with its cells formatted and joined by commas is read back as these cells,
-- whatever characters they hold.
pub row_cells-join : (c : Str) (cs : List Str) → row_cells (join (c ∷ cs)) ≡ c ∷ cs
unfolding row_cells
row_cells-join c cs = ap (map (cell_at (join (c ∷ cs)))) (segments c cs) ∙ cells-places [] c cs
  where
    segments : (c : Str) (cs : List Str) → segment_on (join (c ∷ cs)) comma ≡ places 0 (c ∷ cs)
    segments c cs = unfold segment_on in scan-join 0 [] c cs
