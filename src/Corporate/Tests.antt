-- ===== src/Corporate/Tests.antt =====
-- A table whose cells hold commas, quotes and line ends, and the roster of a small file.
use qift_platform.Prelude.{true, false, List, [], ◌∷◌, ◌++◌, ◌≡◌, refl, ◌||◌, All, length}
use qift_platform.Prelude.Outcome.{Result, ok, err}
use qift_platform.Corporate.Text.{Text, units, is_blank, is_white}
use qift_platform.Corporate.Csv.{parse_csv, scan, push_cell, push_row, finish, without_mark}
use qift_platform.Corporate.Csv.RoundTrip.{print_csv, parse_csv-print_csv}
use qift_platform.Corporate.Header.{
  RosterField, Unicode, HeaderPlan, plan_headers, plan_columns, plan_column, decide, map_column,
  seen, normalize_header, is_forbidden, alias_of, includes, trim, trim_start, trim_end, collapse,
}
use qift_platform.Corporate.Header.Policy.{plan_headers-Private}
use qift_platform.Corporate.Roster.{
  Roster, RosterRejection, parse_roster, roster_table, roster_of, rows_loop, read_row, put, accept,
  read_email, read_phone, checked_phone, is_email, is_email_from, has_dot, raw_value,
}
use qift_platform.Corporate.Roster.Channels.{AllFresh, Complete, parse_roster-AllFresh}

-- Two rows, of the cells a"b and c,d and of a cell with a line end.
abbrev odd_table : List (Text × List Text)
odd_table = (97 ∷ 34 ∷ 98 ∷ [], (99 ∷ 44 ∷ 100 ∷ []) ∷ []) ∷ (101 ∷ 10 ∷ 102 ∷ [], []) ∷ []

parse_csv-print_csv_example :
    parse_csv (print_csv odd_table)
    ≡ ((97 ∷ 34 ∷ 98 ∷ []) ∷ (99 ∷ 44 ∷ 100 ∷ []) ∷ []) ∷ ((101 ∷ 10 ∷ 102 ∷ []) ∷ []) ∷ []
unfolding is_blank is_white
parse_csv-print_csv_example = parse_csv-print_csv odd_table (refl, (refl, tt))

-- Texts of lower case, one byte for each unit.
abbrev plain_unicode : Unicode
plain_unicode = record { lower = λ t. t; byte_length = λ t. length t }

abbrev header : List Text
header = units "name" ∷ units "email" ∷ units "team" ∷ []

abbrev planned : HeaderPlan
planned = record {
  mapping = (0, RosterField.full_name) ∷ (1, RosterField.email) ∷ (2, RosterField.department) ∷ [];
  forbidden = [];
  ignored = [];
}

planned_run : plan_headers plain_unicode header ≡ ok planned
unfolding plan_headers plan_columns plan_column decide map_column seen normalize_header is_forbidden
    alias_of includes trim trim_start trim_end collapse units is_white
planned_run = refl

plan_headers-Private_example :
    All (λ raw. is_forbidden plain_unicode (normalize_header plain_unicode raw) ≡ false) header
    × (seen RosterField.full_name planned.mapping ≡ true)
    × ((seen RosterField.email planned.mapping || seen RosterField.phone planned.mapping) ≡ true)
plan_headers-Private_example = plan_headers-Private plain_unicode header planned planned_run

-- Two rows with the same email.
abbrev small_file : Text
small_file =
    units "name,email" ++ 10 ∷ units "Sara,s@qift.sa" ++ 10 ∷ units "Sami,s@qift.sa" ++ 10 ∷ []

abbrev reading : Result RosterRejection Roster
reading = parse_roster plain_unicode small_file

abbrev roster_or : Roster → Result RosterRejection Roster → Roster
roster_or r (ok q) = q
roster_or r (err e) = r

abbrev small_roster : Roster
small_roster = roster_or (record { rows = []; skipped = []; ignored_columns = [] }) reading

reading_run : reading ≡ ok small_roster
unfolding parse_roster roster_table roster_of rows_loop read_row put accept read_email read_phone
    checked_phone is_email is_email_from has_dot raw_value parse_csv scan push_cell push_row finish
    without_mark is_blank plan_headers plan_columns plan_column decide map_column seen
    normalize_header is_forbidden alias_of includes trim trim_start trim_end collapse units is_white
reading_run = refl

parse_roster-AllFresh_example :
    AllFresh [] small_roster.rows × Complete small_roster (parse_csv small_file)
parse_roster-AllFresh_example =
    parse_roster-AllFresh plain_unicode small_file small_roster reading_run
