-- ===== src/Csv.antt =====
-- src/CSV.cpp and src/CSV.hpp: reading and writing tables. Widths and heights are numbers: the files
-- that the program reads are far below the range of `int`.
pub mod Cells
pub mod Segments
pub mod Rows
pub mod RoundTrip
pub mod Columns
mod Examples
use mathlib.Core.List.{foldl}
use hawck.Prelude.{
  ℕ, zero, suc, ◌+◌, ◌-◌, ◌*◌, Bool, true, false, not, ◌&&◌, ◌||◌, List, [], ◌∷◌, ◌++◌, map, Option,
  none, some, Str, length, get_elem?, take, drop, replicate, ltb, ◌==◌, str_eq, if◌then◌else◌,
}
use Prim.Native.Nat.{min}

abbrev pub quot : ℕ
quot = b'"'

abbrev pub comma : ℕ
comma = b','

abbrev pub newline : ℕ
newline = 10

-- `using Segment = tuple<int, int>`.
abbrev pub Segment : Type 0
Segment = ℕ × ℕ

-- The variables of the loop of `segmentOn`.
pub record Scan : Type 0 where
  pub beg : ℕ
  pub i : ℕ
  pub in_quot : Bool
  pub quit_quot : Bool
  pub vec : List Segment

-- The rest of a round, behind the test of `in_quot`.
abbrev pub scan_plain : ℕ → Scan → ℕ → Scan
scan_plain sep s c =
    if c == quot
    then record s { in_quot = true; i = s.i + 1 }
    else if c == sep && not s.in_quot
    then record s { vec = s.vec ++ (s.beg, s.i) ∷ []; beg = s.i + 1; i = s.i + 1 }
    else record s { i = s.i + 1 }

-- One round of the loop of `segmentOn`.
unfoldable pub scan_char : ℕ → Scan → ℕ → Scan
scan_char sep s c =
    if s.in_quot
    then (if c == quot
        then record s { quit_quot = not s.quit_quot; i = s.i + 1 }
        else if s.quit_quot
        then scan_plain sep (record s { quit_quot = false; in_quot = false }) c
        else scan_plain sep s c)
    else scan_plain sep s c

unfoldable pub segment_on : Str → ℕ → List Segment
segment_on line sep =
    let s =
      foldl (scan_char sep)
        (record { beg = 0; i = 0; in_quot = false; quit_quot = false; vec = [] }) line in
    s.vec ++ (s.beg, s.i) ∷ []

-- The loop of `readCell`, over all characters but the last.
unfoldable pub unescape : Bool → Str → Str
unescape skip [] = []
unescape skip (c ∷ cs) =
    let kept = c ∷ unescape (c == quot) cs in
    let skipped = unescape false cs in if skip then skipped else kept

abbrev pub without_last : Str → Str
without_last [] = []
without_last (c ∷ []) = []
without_last (c ∷ (d ∷ cs)) = c ∷ without_last (d ∷ cs)

unfoldable pub read_cell : Str → Str
unfolding unescape
read_cell [] = []
read_cell (c ∷ cs) = if c == quot then unescape true (without_last (c ∷ cs)) else c ∷ cs

pub record Csv : Type 0 where
  pub matrix : List Str
  pub w : ℕ
  pub h : ℕ

abbrev pub substr : Str → ℕ → ℕ → Str
substr s pos n = take n (drop pos s)

abbrev pub cell_at : Str → Segment → Str
cell_at line (beg, end) = read_cell (substr line beg (end - beg))

-- The cells that the lambda `pushRow` appends to the matrix; it returns their number.
unfoldable pub row_cells : Str → List Str
unfolding segment_on read_cell
row_cells line = map (cell_at line) (segment_on line comma)

-- One round of the loop over the lines behind the header.
unfoldable pub load_row : Csv → Str → Csv
load_row csv line =
    let cells = row_cells line in
    let segments = min csv.w (length cells) in
    record csv { matrix = csv.matrix ++ (cells ++ replicate (csv.w - segments) []); h = csv.h + 1 }

-- `loadFromStream`, on the lines that `getline` yields. From an empty stream the header is read as an
-- empty line.
unfoldable pub load_header : Str → Csv
load_header line = let cells = row_cells line in record { matrix = cells; w = length cells; h = 1 }

unfoldable pub load_from_stream : List Str → Csv
unfolding load_row load_header
load_from_stream [] = load_header []
load_from_stream (header ∷ lines) = foldl load_row (load_header header) lines

-- What repeated `getline` yields: the line that it is reading, and the rest of the stream. A last line
-- without a newline counts if it is not empty.
abbrev pub last_line : Str → List Str
last_line [] = []
last_line (l ∷ ls) = (l ∷ ls) ∷ []

unfoldable pub get_lines : Str → Str → List Str
get_lines line [] = last_line line
get_lines line (c ∷ cs) =
    let ended = line ∷ get_lines [] cs in
    let longer = get_lines (line ++ c ∷ []) cs in if c == newline then ended else longer

-- `fmtCell`: the test of its loop, the escaped text, and the whole.
unfoldable pub is_special : Str → Bool
is_special [] = false
is_special (c ∷ cs) = (c == comma || c == quot) || is_special cs

unfoldable pub escape : Str → Str
escape [] = []
escape (c ∷ cs) = let rest = escape cs in if c == quot then quot ∷ (quot ∷ rest) else c ∷ rest

unfoldable pub fmt_cell : Str → Str
unfolding is_special escape
fmt_cell s = if is_special s then quot ∷ (escape s ++ quot ∷ []) else s

-- The inner loop of `_write`: `left` cells from `idx` on. A read out of bounds has no result.
unfoldable pub write_cells : List Str → ℕ → ℕ → Option Str
write_cells matrix idx zero = some []
write_cells matrix idx (suc left) = elim (get_elem? matrix idx) [
  | none ↦ none
  | some cell ↦ elim (write_cells matrix (idx + 1) left) [
    | none ↦ none
    | some rest ↦ some (fmt_cell cell ++ ((if left == 0 then [] else comma ∷ []) ++ rest))
  ]
]

-- The outer loop of `_write`, `left` rows from row `y` on.
unfoldable pub write_rows : Csv → ℕ → ℕ → Option Str
unfolding write_cells
write_rows csv y zero = some []
write_rows csv y (suc left) = elim (write_cells csv.matrix (y * csv.w) csv.w) [
  | none ↦ none
  | some line ↦ elim (write_rows csv (y + 1) left) [
    | none ↦ none
    | some rest ↦ some (line ++ newline ∷ rest)
  ]
]

unfoldable pub write : Csv → Option Str
unfolding write_rows
write csv = write_rows csv 0 csv.h

-- The loop of `getColCells(int)`. Without fuel, or out of bounds, there is no result.
unfoldable pub col_loop : ℕ → Csv → ℕ → Option (List Str)
col_loop zero csv i = none
col_loop (suc fuel) csv i =
    let found = elim (get_elem? csv.matrix i) as (λ _. Option (List Str)) [
      | none ↦ none
      | some cell ↦ elim (col_loop fuel csv (i + csv.w)) [
        | none ↦ none
        | some rest ↦ some (cell ∷ rest)
      ]
    ] in
    if ltb i (csv.w * csv.h) then found else some []

-- `getColCells(int)`: the cells of a column below the header. At most `h` rows are visited.
unfoldable pub get_col_cells : Csv → ℕ → Option (List Str)
unfolding col_loop
get_col_cells csv col_n = col_loop csv.h csv (csv.w + col_n)

-- `getColIndex`, from column `i` on with `left` columns to go; `none` is -1.
unfoldable pub col_index : List Str → Str → ℕ → ℕ → Option ℕ
col_index cells name i zero = none
col_index [] name i (suc left) = none
col_index (cell ∷ cells) name i (suc left) =
    if str_eq cell name then some i else col_index cells name (i + 1) left

unfoldable pub get_col_index : Csv → Str → Option ℕ
unfolding col_index
get_col_index csv name = col_index csv.matrix name 0 csv.w

-- `getColCells(std::string)`: `none` is the exception `CSVError` for a missing name.
unfoldable pub get_named_cells : Csv → Str → Option (List Str)
unfolding get_col_index get_col_cells
get_named_cells csv name = elim (get_col_index csv name) [
  | none ↦ none
  | some idx ↦ get_col_cells csv idx
]

-- The loop of `getRowCells`, from index `i` while `left` indices remain.
unfoldable pub row_loop : List Str → ℕ → ℕ → Option (List Str)
row_loop matrix i zero = some []
row_loop matrix i (suc left) = elim (get_elem? matrix i) [
  | none ↦ none
  | some cell ↦ elim (row_loop matrix (i + 1) left) [ none ↦ none | some rest ↦ some (cell ∷ rest) ]
]

-- `getRowCells`, with its bounds as they stand: from `row_n * w` up to `row_n * (w + 1)`.
unfoldable pub get_row_cells : Csv → ℕ → Option (List Str)
unfolding row_loop
get_row_cells csv row_n = row_loop csv.matrix (row_n * csv.w) (row_n * (csv.w + 1) - row_n * csv.w)
