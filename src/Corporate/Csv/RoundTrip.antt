-- ===== src/Corporate/Csv/RoundTrip.antt =====
-- `parseCsv` (src/corporate/roster-csv.ts) reads back a table that was written with every cell quoted.
use qift_platform.Prelude.{
  ℕ, true, false, not, List, [], ◌∷◌, ◌++◌, ◌==◌, ◌≡◌, refl, sym, ap, ◌∙◌, any, All, Bool-cases,
  inl, inr, ==_iff, if◌then◌else◌,
}
use qift_platform.Corporate.Text.{Text, is_blank}
use qift_platform.Corporate.Csv.{
  quote, comma, newline, Scan, push_cell, push_row, push_unit, starts_with, scan, finish,
  without_mark, parse_csv, empty_scan,
}

-- A cell between quotes, each of its own quotes doubled.
escape : Text → Text
escape [] = []
escape (c ∷ rest) = if c == quote then quote ∷ quote ∷ escape rest else c ∷ escape rest

print_cell : Text → Text
print_cell c = quote ∷ (escape c ++ quote ∷ [])

-- The cells of a row, and the line end.
print_row : Text → List Text → Text
print_row c [] = print_cell c ++ newline ∷ []
print_row c (d ∷ rest) = print_cell c ++ comma ∷ print_row d rest

-- A table whose rows are a first cell and the others.
pub print_csv : List (Text × List Text) → Text
print_csv [] = []
print_csv ((c, cells) ∷ rest) = print_row c cells ++ print_csv rest

module _ {A : Type 0} where
  append_assoc : (xs ys zs : List A) → (xs ++ ys) ++ zs ≡ xs ++ (ys ++ zs)
  append_assoc [] ys zs = refl
  append_assoc (x ∷ xs) ys zs = ap (λ t. x ∷ t) (append_assoc xs ys zs)

  append_nil : (xs : List A) → xs ++ [] ≡ xs
  append_nil [] = refl
  append_nil (x ∷ xs) = ap (λ t. x ∷ t) (append_nil xs)

-- The state with this text in its cell.
abbrev with_cell : Scan → Text → Scan
with_cell s t = record s { cell = t }

scan_pair :
    (c : ℕ) (cs rest : Text) (s : Scan)
    → c ≡ quote
    → scan false true (escape cs ++ quote ∷ rest) (push_unit c s)
      ≡ scan false false rest (with_cell s (s.cell ++ c ∷ cs))
    → scan false true (quote ∷ (quote ∷ (escape cs ++ quote ∷ rest))) s
      ≡ scan false false rest (with_cell s (s.cell ++ c ∷ cs))
unfolding scan
scan_pair c cs rest s same h =
    ap (λ q. scan false true (escape cs ++ quote ∷ rest) (push_unit q s)) (sym same) ∙ h

-- Inside of quotes, an escaped cell and the closing quote are read as the cell.
scan-escape :
    (c rest : Text) (s : Scan)
    → starts_with quote rest ≡ false
    → scan false true (escape c ++ quote ∷ rest) s
      ≡ scan false false rest (with_cell s (s.cell ++ c))
unfolding scan escape
scan-escape [] rest s h = rw (h, append_nil s.cell) refl
scan-escape (c ∷ cs) rest s h =
    let later =
      scan-escape cs rest (push_unit c s) h
      ∙ ap (λ t. scan false false rest (with_cell s t)) (append_assoc s.cell (c ∷ []) cs) in
    elim (Bool-cases (c == quote)) [
      | inl same ↦ rw same (scan_pair c cs rest s ((==_iff c quote).0 same) later)
      | inr other ↦ rw (other, other) later
    ]

scan-print_cell :
    (c rest : Text) (rows : List (List Text)) (row : List Text)
    → starts_with quote rest ≡ false
    → scan false false (print_cell c ++ rest) (record { rows = rows; row = row; cell = [] })
      ≡ scan false false rest (record { rows = rows; row = row; cell = c })
unfolding scan print_cell
scan-print_cell c rest rows row h =
    ap (λ t. scan false true t (record { rows = rows; row = row; cell = [] }))
      (append_assoc (escape c) (quote ∷ []) rest)
    ∙ scan-escape c rest (record { rows = rows; row = row; cell = [] }) h

-- A row whose cells are read into the table, if one of them is not blank.
scan-print_row :
    (c : Text) (cells : List Text) (rest : Text) (rows : List (List Text)) (row : List Text)
    → any (λ x. not (is_blank x)) (row ++ c ∷ cells) ≡ true
    → scan false false (print_row c cells ++ rest) (record { rows = rows; row = row; cell = [] })
      ≡ scan false false rest
          (record { rows = rows ++ (row ++ c ∷ cells) ∷ []; row = []; cell = [] })
unfolding print_row scan push_row push_cell
scan-print_row c [] rest rows row h =
    ap (λ t. scan false false t (record { rows = rows; row = row; cell = [] }))
      (append_assoc (print_cell c) (newline ∷ []) rest)
    ∙ (scan-print_cell c (newline ∷ rest) rows row refl ∙ rw h refl)
scan-print_row c (d ∷ cells) rest rows row h =
    ap (λ t. scan false false t (record { rows = rows; row = row; cell = [] }))
      (append_assoc (print_cell c) (comma ∷ print_row d cells) rest)
    ∙ (scan-print_cell c (comma ∷ (print_row d cells ++ rest)) rows row refl
        ∙ (scan-print_row d cells rest rows (row ++ c ∷ [])
              (ap (any (λ x. not (is_blank x))) (append_assoc row (c ∷ []) (d ∷ cells)) ∙ h)
            ∙ ap
                (λ whole.
                  scan false false rest (record { rows = rows ++ whole ∷ []; row = []; cell = [] }))
                (append_assoc row (c ∷ []) (d ∷ cells))))

-- The rows of a table as lists of cells.
abbrev cells_of : List (Text × List Text) → List (List Text)
cells_of [] = []
cells_of ((c, cells) ∷ rest) = (c ∷ cells) ∷ cells_of rest

-- Each row has a cell that is not blank.
abbrev Filled : Text × List Text → Type 0
Filled row = any (λ x. not (is_blank x)) (row.0 ∷ row.1) ≡ true

scan-print_csv :
    (table : List (Text × List Text)) (rows : List (List Text))
    → All Filled table
    → scan false false (print_csv table) (record { rows = rows; row = []; cell = [] })
      ≡ record { rows = rows ++ cells_of table; row = []; cell = [] }
unfolding print_csv scan
scan-print_csv [] rows h = rw (append_nil rows) refl
scan-print_csv ((c, cells) ∷ rest) rows h =
    scan-print_row c cells (print_csv rest) rows [] h.0
    ∙ (scan-print_csv rest (rows ++ (c ∷ cells) ∷ []) h.1
        ∙ ap (λ all. record { rows = all; row = []; cell = [] })
            (append_assoc rows ((c ∷ cells) ∷ []) (cells_of rest)))

unmarked : (table : List (Text × List Text)) → without_mark (print_csv table) ≡ print_csv table
unfolding without_mark print_csv print_row print_cell
unmarked [] = refl
unmarked ((c, []) ∷ rest) = refl
unmarked ((c, d ∷ cells) ∷ rest) = refl

-- A table that is written with every cell between quotes, the quotes of a cell doubled, the cells of
-- a row separated by commas and each row ended by a line feed, is read back as it was, whatever
-- commas, quotes and line ends its cells hold, if every row has a cell that is not blank.
pub parse_csv-print_csv :
    (table : List (Text × List Text))
    → All Filled table
    → parse_csv (print_csv table) ≡ cells_of table
unfolding parse_csv finish
parse_csv-print_csv table h =
    ap (λ t. finish (scan false false t empty_scan)) (unmarked table)
    ∙ ap finish (scan-print_csv table [] h)
