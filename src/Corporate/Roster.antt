-- ===== src/Corporate/Roster.antt =====
-- `parseRoster` of src/corporate/roster-csv.ts: the rows of a file that are accepted, and those that
-- are skipped with a reason.
pub mod Channels
use qift_platform.Prelude.{
  ℕ, ◌+◌, ◌*◌, ◌-◌, Bool, true, false, not, ◌&&◌, ◌||◌, Option, none, some, List, [], ◌∷◌, ◌++◌,
  ◌==◌, ltb, leb, any, all, find, length, if◌then◌else◌,
}
use qift_platform.Prelude.Outcome.{Result, ok, err}
use qift_platform.Corporate.Text.{Text, is_white}
use qift_platform.Corporate.Csv.{parse_csv}
use qift_platform.Corporate.Header.{
  RosterField, field_eq, text_eq, is_empty_text, trim, Unicode, HeaderPlan, HeaderRejection,
  plan_headers,
}
use qift_platform.Phone.{CountryCode, normalize_phone, validate_mobile}

abbrev pub max_csv_bytes : ℕ
max_csv_bytes = 512 * 1024

abbrev pub max_roster_rows : ℕ
max_roster_rows = 2000

pub record RosterRow : Type 0 where
  pub line : ℕ
  pub full_name : Text
  pub email : Option Text
  pub phone : Option Text
  pub department : Option Text
  pub employee_ref : Option Text

pub data SkipReason : Type 0 where
  name_missing channel_missing phone_invalid email_invalid duplicate_in_file : SkipReason

pub data RosterRejection : Type 0 where
  file_too_large empty too_many_rows : RosterRejection
  bad_headers : HeaderRejection → RosterRejection

pub record Roster : Type 0 where
  pub rows : List RosterRow
  pub skipped : List (ℕ × SkipReason)
  pub ignored_columns : List Text

-- A key of `seenChannels`: an email or a phone.
pub data Channel : Type 0 where
  email_key phone_key : Text → Channel

abbrev pub channel_eq : Channel → Channel → Bool
channel_eq (email_key s) (email_key t) = text_eq s t
channel_eq (phone_key s) (phone_key t) = text_eq s t
channel_eq _ _ = false

-- A unit of `[^\s@]`.
abbrev pub is_address_unit : ℕ → Bool
is_address_unit c = not (is_white c) && not (c == 64)

-- A dot with a unit before it and two or more after it.
unfoldable pub has_dot : (before : ℕ) → Text → Bool
has_dot before [] = false
has_dot before (c ∷ t) = (c == 46 && (leb 1 before && leb 2 (length t))) || has_dot (before + 1) t

-- What is left of the `@` has one unit or more, what is right of it holds a dot.
unfoldable pub is_email_from : (before : ℕ) → Text → Bool
unfolding is_white has_dot
is_email_from before [] = false
is_email_from before (c ∷ t) =
    let later = is_email_from (before + 1) t in
    if c == 64
    then leb 1 before && (all is_address_unit t && has_dot 0 t)
    else not (is_white c) && later

-- `EMAIL_REGEX.test`
unfoldable pub is_email : Text → Bool
unfolding is_email_from
is_email = is_email_from 0

abbrev pub cell_at : ℕ → List Text → Text
cell_at k [] = []
cell_at ℕ.zero (c ∷ row) = c
cell_at (ℕ.suc k) (c ∷ row) = cell_at k row

-- `raw[field]`: the trimmed cell of the column of the field, where it is not empty.
unfoldable pub raw_value : List (ℕ × RosterField) → List Text → RosterField → Option Text
unfolding trim
raw_value mapping row field = elim (find (λ (m : ℕ × RosterField). field_eq m.1 field) mapping) [
  | none ↦ none
  | some m ↦ let v = trim (cell_at m.0 row) in if is_empty_text v then none else some v
]

abbrev pub name_of : Option Text → Text
name_of none = []
name_of (some t) = t

-- The keys of a row.
abbrev pub keys : Option Text → Option Text → List Channel
keys none none = []
keys none (some p) = phone_key p ∷ []
keys (some e) none = email_key e ∷ []
keys (some e) (some p) = email_key e ∷ phone_key p ∷ []

abbrev pub is_seen : List Channel → Channel → Bool
is_seen channels k = any (channel_eq k) channels

module _ (u : Unicode) where
  -- The email of a row, lowered and checked.
  unfoldable pub read_email : Option Text → Result SkipReason (Option Text)
  unfolding is_email
  read_email none = ok none
  read_email (some raw) =
      let lowered = u.lower raw in if is_email lowered then ok (some lowered) else err email_invalid

  unfoldable pub checked_phone : Option Text → Result SkipReason (Option Text)
  unfolding validate_mobile
  checked_phone none = err phone_invalid
  checked_phone (some e164) = elim (validate_mobile e164) [
    | none ↦ ok (some e164)
    | some problem ↦ err phone_invalid
  ]

  -- The phone of a row, in its canonical form and checked.
  unfoldable pub read_phone : Option Text → Result SkipReason (Option Text)
  unfolding checked_phone
  read_phone none = ok none
  read_phone (some raw) = checked_phone (normalize_phone CountryCode.sa raw)

  -- The row with these keys, where it has one and repeats none.
  unfoldable pub accept :
      (mine : List Channel) → List Channel → RosterRow → Result SkipReason RosterRow
  accept [] channels row = err channel_missing
  accept (k ∷ more) channels row =
      if any (is_seen channels) (k ∷ more) then err duplicate_in_file else ok row

  -- The checks of one row, in their order.
  unfoldable pub read_row :
      List (ℕ × RosterField) → List Channel → (line : ℕ) → List Text → Result SkipReason RosterRow
  unfolding accept read_email read_phone
  read_row mapping channels line cells =
      let raw = raw_value mapping cells in
      let full_name = name_of (raw RosterField.full_name) in
      if ltb (length full_name) 2
      then err name_missing
      else elim (read_email (raw RosterField.email)) [
        | err e ↦ err e
        | ok email ↦ elim (read_phone (raw RosterField.phone)) [
          | err e ↦ err e
          | ok phone ↦ accept (keys email phone) channels (record {
            line = line;
            full_name = full_name;
            email = email;
            phone = phone;
            department = raw RosterField.department;
            employee_ref = raw RosterField.employee_ref;
          })
        ]
      ]

  -- The variables of the loop after one row.
  unfoldable pub put : (line : ℕ) → Result SkipReason RosterRow → Roster → Roster
  put line (ok row) r = record r { rows = r.rows ++ row ∷ [] }
  put line (err reason) r = record r { skipped = r.skipped ++ (line, reason) ∷ [] }

  abbrev pub channels_after : Result SkipReason RosterRow → List Channel → List Channel
  channels_after (ok row) channels = channels ++ keys row.email row.phone
  channels_after (err reason) channels = channels

  unfoldable pub rows_loop :
      List (ℕ × RosterField) → List Channel → (line : ℕ) → List (List Text) → Roster → Roster
  unfolding read_row put
  rows_loop mapping channels line [] r = r
  rows_loop mapping channels line (cells ∷ rest) r =
      let outcome = read_row mapping channels line cells in
      rows_loop mapping (channels_after outcome channels) (line + 1) rest (put line outcome r)

  unfoldable pub roster_of :
      List (List Text) → Result HeaderRejection HeaderPlan → Result RosterRejection Roster
  unfolding rows_loop
  roster_of rest (err e) = err (bad_headers e)
  roster_of rest (ok plan) = ok (
      rows_loop plan.mapping [] 2 rest
        (record { rows = []; skipped = []; ignored_columns = plan.ignored }))

  -- The table of a file, with its header row first.
  unfoldable pub roster_table : List (List Text) → Result RosterRejection Roster
  unfolding roster_of
  roster_table [] = err empty
  roster_table (header ∷ []) = err empty
  roster_table (header ∷ (first ∷ rest)) =
      let read = roster_of (first ∷ rest) (plan_headers u header) in
      if ltb max_roster_rows (length (first ∷ rest)) then err too_many_rows else read

  unfoldable pub parse_roster : Text → Result RosterRejection Roster
  unfolding roster_table
  parse_roster text =
      if ltb max_csv_bytes (u.byte_length text)
      then err file_too_large
      else roster_table (parse_csv text)
