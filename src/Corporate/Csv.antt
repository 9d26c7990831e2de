-- ===== src/Corporate/Csv.antt =====
-- `parseCsv` of src/corporate/roster-csv.ts.
pub mod RoundTrip
use qift_platform.Prelude.{
  ℕ, Bool, true, false, not, ◌&&◌, ◌||◌, List, [], ◌∷◌, ◌++◌, ◌==◌, any, if◌then◌else◌,
}
use qift_platform.Corporate.Text.{Text, is_blank}

abbrev pub quote : ℕ
quote = 34

abbrev pub comma : ℕ
comma = 44

abbrev pub newline : ℕ
newline = 10

abbrev pub return : ℕ
return = 13

abbrev pub byte_order_mark : ℕ
byte_order_mark = 0xfeff

-- The variables of the loop.
pub record Scan : Type 0 where
  pub rows : List (List Text)
  pub row : List Text
  pub cell : Text

abbrev pub empty_scan : Scan
empty_scan = record { rows = []; row = []; cell = [] }

unfoldable pub push_cell : Scan → Scan
push_cell s = record s { row = s.row ++ s.cell ∷ []; cell = [] }

-- A row of blank cells is dropped.
unfoldable pub push_row : Scan → Scan
unfolding push_cell
push_row s =
    let t = push_cell s in
    record t {
      rows = if any (λ c. not (is_blank c)) t.row then t.rows ++ t.row ∷ [] else t.rows;
      row = [];
    }

abbrev pub push_unit : ℕ → Scan → Scan
push_unit c s = record s { cell = s.cell ++ c ∷ [] }

abbrev pub starts_with : ℕ → Text → Bool
starts_with c [] = false
starts_with c (d ∷ rest) = d == c

abbrev pub is_nil {ℓ} : {A : Type ℓ} → List A → Bool
is_nil [] = true
is_nil (x ∷ xs) = false

-- The loop over the text; `skip` passes over the unit that the step before has also consumed, and
-- `quoted` is whether the scan stands inside of quotes.
unfoldable pub scan : (skip quoted : Bool) → Text → Scan → Scan
unfolding push_cell push_row
scan skip quoted [] s = s
scan true quoted (c ∷ rest) s = scan false quoted rest s
scan false true (c ∷ rest) s =
    let doubled = scan true true rest (push_unit quote s) in
    let closed = scan false false rest s in
    let inside = scan false true rest (push_unit c s) in
    if c == quote then (if starts_with quote rest then doubled else closed) else inside
scan false false (c ∷ rest) s =
    let opened = scan false true rest s in
    let next_cell = scan false false rest (push_cell s) in
    let carriage = scan (starts_with newline rest) false rest (push_row s) in
    let next_row = scan false false rest (push_row s) in
    let plain = scan false false rest (push_unit c s) in
    if c == quote && is_nil s.cell
    then opened
    else if c == comma
    then next_cell
    else if c == return
    then carriage
    else if c == newline
    then next_row
    else plain

-- The text without a byte order mark at its start.
unfoldable pub without_mark : Text → Text
without_mark [] = []
without_mark (c ∷ rest) = if c == byte_order_mark then rest else c ∷ rest

-- A trailing cell or row without a final line end.
unfoldable pub finish : Scan → List (List Text)
unfolding push_row
finish s = if not (is_nil s.cell) || not (is_nil s.row) then (push_row s).rows else s.rows

unfoldable pub parse_csv : Text → List (List Text)
unfolding scan finish without_mark
parse_csv text = finish (scan false false (without_mark text) empty_scan)
