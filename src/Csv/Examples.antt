-- ===== src/Csv/Examples.antt =====
-- Tables on concrete texts, among them those of tests/CSV-tests/test02.csv.
use hawck.Prelude.{◌≡◌, refl, List, [], ◌∷◌, some, arith, Str, codes}
use hawck.Csv.{scan_char, row_cells, get_lines, load_from_stream, write}
use hawck.Csv.RoundTrip.{table, load-write}

abbrev header : List Str
header = codes "name" ∷ codes "key_code" ∷ []

abbrev rows : List (List Str)
rows = (codes "KEY_A, small" ∷ codes "30" ∷ []) ∷ (codes "KEY_\"B\"" ∷ codes "48" ∷ []) ∷ []

quoted_row :
    row_cells (codes "\"1,2\",\"3\"\"4\",,5") ≡ codes "1,2" ∷ codes "3\"4" ∷ [] ∷ codes "5" ∷ []
unfolding row_cells scan_char
quoted_row = refl

short_line :
    (load_from_stream (get_lines [] (codes "a,b\n1\n"))).matrix
    ≡ codes "a" ∷ codes "b" ∷ codes "1" ∷ [] ∷ []
unfolding load_from_stream row_cells get_lines scan_char
short_line = refl

load-write_example :
    (text : Str) × (write (table 2 (header ∷ rows)) ≡ some text)
    × (load_from_stream (get_lines [] text) ≡ table 2 (header ∷ rows))
load-write_example = load-write 2 header rows (omega arith) (omega arith) (omega arith)
