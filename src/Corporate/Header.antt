-- ===== src/Corporate/Header.antt =====
-- The header policy of src/corporate/roster-csv.ts: which column is which field, and the refusal of a
-- file with an address.
pub mod Policy
use qift_platform.Prelude.{
  ℕ, ◌+◌, Bool, true, false, not, ◌&&◌, ◌||◌, Option, none, some, List, [], ◌∷◌, ◌++◌, ◌==◌, any,
  find, if◌then◌else◌,
}
use qift_platform.Prelude.Outcome.{Result, ok, err}
use qift_platform.Corporate.Text.{Text, units, is_white}

pub data RosterField : Type 0 where
  full_name email phone department employee_ref : RosterField

abbrev pub field_index : RosterField → ℕ
field_index RosterField.full_name = 0
field_index RosterField.email = 1
field_index RosterField.phone = 2
field_index RosterField.department = 3
field_index RosterField.employee_ref = 4

abbrev pub field_eq : RosterField → RosterField → Bool
field_eq a b = field_index a == field_index b

abbrev pub text_eq : Text → Text → Bool
text_eq [] [] = true
text_eq [] (d ∷ t) = false
text_eq (c ∷ s) [] = false
text_eq (c ∷ s) (d ∷ t) = c == d && text_eq s t

-- `HEADER_ALIASES`; the Arabic names are written as their code units.
abbrev pub header_aliases : List (Text × RosterField)
header_aliases =
    (units "name", RosterField.full_name)
    ∷ (units "fullname", RosterField.full_name)
    ∷ (units "full name", RosterField.full_name)
    ∷ (units "employee name", RosterField.full_name)
    ∷ ((1575 ∷ 1604 ∷ 1575 ∷ 1587 ∷ 1605 ∷ []), RosterField.full_name)
    ∷ (
      (1575 ∷ 1587 ∷ 1605 ∷ 32 ∷ 1575 ∷ 1604 ∷ 1605 ∷ 1608 ∷ 1592 ∷ 1601 ∷ []),
      RosterField.full_name,
    )
    ∷ (
      (1575 ∷ 1604 ∷ 1575 ∷ 1587 ∷ 1605 ∷ 32 ∷ 1575 ∷ 1604 ∷ 1603 ∷ 1575 ∷ 1605 ∷ 1604 ∷ []),
      RosterField.full_name,
    )
    ∷ (units "email", RosterField.email)
    ∷ (units "email address", RosterField.email)
    ∷ (units "work email", RosterField.email)
    ∷ ((1575 ∷ 1604 ∷ 1576 ∷ 1585 ∷ 1610 ∷ 1583 ∷ []), RosterField.email)
    ∷ (
      (1575 ∷ 1604 ∷ 1576 ∷ 1585 ∷ 1610 ∷ 1583 ∷ 32 ∷ 1575 ∷ 1604 ∷ 1573 ∷ 1604 ∷ 1603 ∷ 1578 ∷ 1585
          ∷ 1608 ∷ 1606 ∷ 1610 ∷ []),
      RosterField.email,
    )
    ∷ (
      (1575 ∷ 1604 ∷ 1576 ∷ 1585 ∷ 1610 ∷ 1583 ∷ 32 ∷ 1575 ∷ 1604 ∷ 1575 ∷ 1604 ∷ 1603 ∷ 1578 ∷ 1585
          ∷ 1608 ∷ 1606 ∷ 1610 ∷ []),
      RosterField.email,
    )
    ∷ ((1575 ∷ 1610 ∷ 1605 ∷ 1610 ∷ 1604 ∷ []), RosterField.email)
    ∷ ((1573 ∷ 1610 ∷ 1605 ∷ 1610 ∷ 1604 ∷ []), RosterField.email)
    ∷ (units "phone", RosterField.phone)
    ∷ (units "mobile", RosterField.phone)
    ∷ (units "phone number", RosterField.phone)
    ∷ (units "mobile number", RosterField.phone)
    ∷ ((1580 ∷ 1608 ∷ 1575 ∷ 1604 ∷ []), RosterField.phone)
    ∷ ((1575 ∷ 1604 ∷ 1580 ∷ 1608 ∷ 1575 ∷ 1604 ∷ []), RosterField.phone)
    ∷ ((1585 ∷ 1602 ∷ 1605 ∷ 32 ∷ 1575 ∷ 1604 ∷ 1580 ∷ 1608 ∷ 1575 ∷ 1604 ∷ []), RosterField.phone)
    ∷ ((1575 ∷ 1604 ∷ 1607 ∷ 1575 ∷ 1578 ∷ 1601 ∷ []), RosterField.phone)
    ∷ ((1585 ∷ 1602 ∷ 1605 ∷ 32 ∷ 1575 ∷ 1604 ∷ 1607 ∷ 1575 ∷ 1578 ∷ 1601 ∷ []), RosterField.phone)
    ∷ (units "department", RosterField.department)
    ∷ (units "dept", RosterField.department)
    ∷ (units "team", RosterField.department)
    ∷ ((1575 ∷ 1604 ∷ 1602 ∷ 1587 ∷ 1605 ∷ []), RosterField.department)
    ∷ ((1575 ∷ 1604 ∷ 1573 ∷ 1583 ∷ 1575 ∷ 1585 ∷ 1577 ∷ []), RosterField.department)
    ∷ ((1575 ∷ 1604 ∷ 1575 ∷ 1583 ∷ 1575 ∷ 1585 ∷ 1577 ∷ []), RosterField.department)
    ∷ (units "employee id", RosterField.employee_ref)
    ∷ (units "employeeid", RosterField.employee_ref)
    ∷ (units "employee ref", RosterField.employee_ref)
    ∷ (units "staff id", RosterField.employee_ref)
    ∷ (
      (1575 ∷ 1604 ∷ 1585 ∷ 1602 ∷ 1605 ∷ 32 ∷ 1575 ∷ 1604 ∷ 1608 ∷ 1592 ∷ 1610 ∷ 1601 ∷ 1610 ∷ []),
      RosterField.employee_ref,
    )
    ∷ (
      (1585 ∷ 1602 ∷ 1605 ∷ 32 ∷ 1575 ∷ 1604 ∷ 1605 ∷ 1608 ∷ 1592 ∷ 1601 ∷ []),
      RosterField.employee_ref,
    )
    ∷ []

-- `FORBIDDEN_HEADER_FRAGMENTS`, in the same way.
abbrev pub forbidden_header_fragments : List Text
forbidden_header_fragments =
    units "address"
    ∷ units "street"
    ∷ units "city"
    ∷ units "district"
    ∷ units "region"
    ∷ units "postal"
    ∷ units "zip"
    ∷ units "po box"
    ∷ units "pobox"
    ∷ units "location"
    ∷ units "building"
    ∷ units "apartment"
    ∷ units "villa"
    ∷ (1593 ∷ 1606 ∷ 1608 ∷ 1575 ∷ 1606 ∷ [])
    ∷ (1575 ∷ 1604 ∷ 1593 ∷ 1606 ∷ 1608 ∷ 1575 ∷ 1606 ∷ [])
    ∷ (1588 ∷ 1575 ∷ 1585 ∷ 1593 ∷ [])
    ∷ (1605 ∷ 1583 ∷ 1610 ∷ 1606 ∷ 1577 ∷ [])
    ∷ (1575 ∷ 1604 ∷ 1605 ∷ 1583 ∷ 1610 ∷ 1606 ∷ 1577 ∷ [])
    ∷ (1581 ∷ 1610 ∷ [])
    ∷ (1575 ∷ 1604 ∷ 1581 ∷ 1610 ∷ [])
    ∷ (1605 ∷ 1606 ∷ 1591 ∷ 1602 ∷ 1577 ∷ [])
    ∷ (1575 ∷ 1604 ∷ 1605 ∷ 1606 ∷ 1591 ∷ 1602 ∷ 1577 ∷ [])
    ∷ (1585 ∷ 1605 ∷ 1586 ∷ 32 ∷ 1576 ∷ 1585 ∷ 1610 ∷ 1583 ∷ 1610 ∷ [])
    ∷ (1575 ∷ 1604 ∷ 1585 ∷ 1605 ∷ 1586 ∷ 32 ∷ 1575 ∷ 1604 ∷ 1576 ∷ 1585 ∷ 1610 ∷ 1583 ∷ 1610 ∷ [])
    ∷ (1589 ∷ 1606 ∷ 1583 ∷ 1608 ∷ 1602 ∷ 32 ∷ 1576 ∷ 1585 ∷ 1610 ∷ 1583 ∷ [])
    ∷ (1605 ∷ 1608 ∷ 1602 ∷ 1593 ∷ [])
    ∷ (1605 ∷ 1576 ∷ 1606 ∷ 1609 ∷ [])
    ∷ (1588 ∷ 1602 ∷ 1577 ∷ [])
    ∷ (1601 ∷ 1610 ∷ 1604 ∷ 1575 ∷ [])
    ∷ []

abbrev pub is_prefix : Text → Text → Bool
is_prefix [] t = true
is_prefix (c ∷ s) [] = false
is_prefix (c ∷ s) (d ∷ t) = c == d && is_prefix s t

-- `t.includes(s)`
unfoldable pub includes : Text → Text → Bool
includes s [] = is_prefix s []
includes s (d ∷ t) = is_prefix s (d ∷ t) || includes s t

unfoldable pub trim_start : Text → Text
unfolding is_white
trim_start [] = []
trim_start (c ∷ t) = if is_white c then trim_start t else c ∷ t

abbrev pub is_empty_text : Text → Bool
is_empty_text [] = true
is_empty_text (c ∷ rest) = false

unfoldable pub trim_end : Text → Text
unfolding is_white
trim_end [] = []
trim_end (c ∷ t) =
    let rest = trim_end t in if is_white c && is_empty_text rest then [] else c ∷ rest

unfoldable pub trim : Text → Text
unfolding trim_start trim_end
trim t = trim_end (trim_start t)

-- `t.replace(/[...]+/g, ' ')`; `inside` is whether the unit before was replaced.
unfoldable pub collapse : (ℕ → Bool) → (inside : Bool) → Text → Text
collapse p inside [] = []
collapse p inside (c ∷ t) =
    let within_run = collapse p true t in
    let after = collapse p false t in
    if p c then (if inside then within_run else 32 ∷ within_run) else c ∷ after

abbrev pub is_rule : ℕ → Bool
is_rule c = c == 95 || c == 45

-- What JavaScript gives: `toLowerCase` and the length of the text in UTF-8.
pub record Unicode : Type 0 where
  pub lower : Text → Text
  pub byte_length : Text → ℕ

pub record HeaderPlan : Type 0 where
  pub mapping : List (ℕ × RosterField)
  pub forbidden : List Text
  pub ignored : List Text

abbrev pub empty_plan : HeaderPlan
empty_plan = record { mapping = []; forbidden = []; ignored = [] }

-- `seen.has(field)`: the fields that a column was mapped to.
unfoldable pub seen : RosterField → List (ℕ × RosterField) → Bool
seen field = any (λ m. field_eq m.1 field)

pub data HeaderRejection : Type 0 where
  address_columns_forbidden : List Text → HeaderRejection
  headers_unusable : HeaderRejection

-- Neither a name nor a way to reach the person.
abbrev pub unusable : HeaderPlan → Bool
unusable plan =
    not (seen RosterField.full_name plan.mapping)
    || (not (seen RosterField.email plan.mapping) && not (seen RosterField.phone plan.mapping))

module _ (u : Unicode) where
  unfoldable pub normalize_header : Text → Text
  unfolding collapse trim is_white
  normalize_header h = trim (collapse is_white false (collapse is_rule false (u.lower h)))

  unfoldable pub is_forbidden : Text → Bool
  unfolding includes
  is_forbidden norm = any (λ f. includes f norm) forbidden_header_fragments

  unfoldable pub alias_of : Text → Option RosterField
  alias_of norm = elim (find (λ (a : Text × RosterField). text_eq a.0 norm) header_aliases) [
    | none ↦ none
    | some a ↦ some a.1
  ]

  -- The first column of a field is mapped; every other column is reported.
  unfoldable pub map_column : ℕ → Text → Option RosterField → HeaderPlan → HeaderPlan
  unfolding seen trim
  map_column idx raw none plan = record plan { ignored = plan.ignored ++ trim raw ∷ [] }
  map_column idx raw (some field) plan =
      if seen field plan.mapping
      then record plan { ignored = plan.ignored ++ trim raw ∷ [] }
      else record plan { mapping = plan.mapping ++ (idx, field) ∷ [] }

  unfoldable pub plan_column : ℕ → Text → HeaderPlan → HeaderPlan
  unfolding map_column normalize_header is_forbidden alias_of trim
  plan_column idx raw plan =
      let norm = normalize_header raw in
      if is_empty_text norm
      then plan
      else if is_forbidden norm
      then record plan { forbidden = plan.forbidden ++ trim raw ∷ [] }
      else map_column idx raw (alias_of norm) plan

  unfoldable pub plan_columns : ℕ → List Text → HeaderPlan → HeaderPlan
  unfolding plan_column
  plan_columns idx [] plan = plan
  plan_columns idx (raw ∷ rest) plan = plan_columns (idx + 1) rest (plan_column idx raw plan)

  -- The refusal of a header with an address, and of one without a name or without a channel.
  unfoldable pub decide : (forbidden : List Text) → HeaderPlan → Result HeaderRejection HeaderPlan
  decide (column ∷ columns) plan = err (address_columns_forbidden (column ∷ columns))
  decide [] plan = if unusable plan then err headers_unusable else ok plan

  unfoldable pub plan_headers : List Text → Result HeaderRejection HeaderPlan
  unfolding plan_columns decide
  plan_headers header_row =
      let plan = plan_columns 0 header_row empty_plan in decide plan.forbidden plan
