-- ===== src/References.antt =====
-- src/references/reference.ts: the grammar of the public references. Texts are lists of UTF-16 code
-- units; `randomInt` of node:crypto is a stream of draws and the upper case of a unit a parameter.
mod Tests
pub mod Digits
pub mod RoundTrip
pub mod Form
pub mod Spelling
pub mod Allocation
use Prim.Native.String.{String}
use qift_platform.Prelude.{
  ℕ, zero, suc, ◌+◌, ◌-◌, ◌*◌, ◌/◌, ◌%◌, Bool, true, false, not, ◌&&◌, ◌||◌, Option, none, some,
  List, [], ◌∷◌, ◌++◌, ◌==◌, leb, ltb, all, any, filter, find, length, if◌then◌else◌,
}
use qift_platform.Prelude.Outcome.{Result, ok, err, throw_if, ◌>>=◌, ◌>>◌}
use qift_platform.Corporate.Text.{Text, units}

unfoldable pub reference_alphabet : Text
unfolding units
reference_alphabet = units "ABCDEFGHJKMNPQRSTUVWXYZ23456789"

pub data ReferenceKind : Type 0 where
  random sequential reserved : ReferenceKind

-- The prefixes QP, QB, QG, QF, QC, QS, QN and QD.
pub data ReferencePrefix : Type 0 where
  qp qb qg qf qc qs qn qd : ReferencePrefix

abbrev pub prefix_kind : ReferencePrefix → ReferenceKind
prefix_kind qp = random
prefix_kind qb = random
prefix_kind qg = random
prefix_kind qf = random
prefix_kind qc = sequential
prefix_kind qs = random
prefix_kind qn = random
prefix_kind qd = sequential

abbrev pub prefix_mark : ReferencePrefix → ℕ
prefix_mark qp = b'P'
prefix_mark qb = b'B'
prefix_mark qg = b'G'
prefix_mark qf = b'F'
prefix_mark qc = b'C'
prefix_mark qs = b'S'
prefix_mark qn = b'N'
prefix_mark qd = b'D'

-- The prefix as it is written.
abbrev pub prefix_text : ReferencePrefix → Text
prefix_text p = b'Q' ∷ prefix_mark p ∷ []

pub data ReferenceError : Type 0 where
  prefix_not_random prefix_not_sequential : ReferencePrefix → ReferenceError
  series_year_invalid sequence_value_invalid : ℕ → ReferenceError
  allocation_exhausted : ReferencePrefix → ReferenceError

-- The symbol that a draw picks; `undefined` outside the alphabet is no unit.
unfoldable pub symbol_at : Text → ℕ → Text
symbol_at [] i = []
symbol_at (c ∷ rest) zero = c ∷ []
symbol_at (c ∷ rest) (suc i) = symbol_at rest i

-- Four draws, from the one at `i` on.
unfoldable pub random_group : (draws : ℕ → ℕ) → ℕ → Text
unfolding symbol_at
random_group draws i =
    symbol_at reference_alphabet (draws i)
    ++ (symbol_at reference_alphabet (draws (i + 1))
        ++ (symbol_at reference_alphabet (draws (i + 2))
            ++ symbol_at reference_alphabet (draws (i + 3))))

abbrev pub is_random : ReferencePrefix → Bool
is_random p = elim (prefix_kind p) [ random ↦ true | _ ↦ false ]

abbrev pub is_sequential : ReferencePrefix → Bool
is_sequential p = elim (prefix_kind p) [ sequential ↦ true | _ ↦ false ]

-- `${prefix}-${a}-${b}`
abbrev pub dashed : ReferencePrefix → Text → Text → Text
dashed p a b = prefix_text p ++ (b'-' ∷ (a ++ (b'-' ∷ b)))

-- A candidate, from the draws at `i` on.
unfoldable pub generate_reference :
    (draws : ℕ → ℕ) → ℕ → ReferencePrefix → Result ReferenceError Text
unfolding random_group
generate_reference draws i p = do
  throw_if (not (is_random p)) (prefix_not_random p)
  ok (dashed p (random_group draws i) (random_group draws (i + 4)))

-- `String(value)`, with fuel for the digits.
unfoldable pub digits : (fuel : ℕ) → ℕ → Text
digits zero n = []
digits (suc fuel) n =
    let front = digits fuel (n / 10) in (if ltb n 10 then [] else front) ++ ((b'0' + n % 10) ∷ [])

unfoldable pub zeros : ℕ → Text
zeros zero = []
zeros (suc k) = b'0' ∷ zeros k

-- `String(value).padStart(5, '0')`
unfoldable pub padded : ℕ → Text
unfolding digits zeros
padded value = let shown = digits (suc value) value in zeros (5 - length shown) ++ shown

unfoldable pub format_sequential_reference :
    ReferencePrefix → (series_year value : ℕ) → Result ReferenceError Text
unfolding padded
format_sequential_reference p series_year value = do
  throw_if (not (is_sequential p)) (prefix_not_sequential p)
  throw_if (ltb series_year 2020 || ltb 2099 series_year) (series_year_invalid series_year)
  throw_if (ltb value 1) (sequence_value_invalid value)
  ok (dashed p (digits (suc series_year) series_year) (padded value))

abbrev pub is_decimal : ℕ → Bool
is_decimal c = leb b'0' c && leb c b'9'

-- `[A-Z0-9]`
abbrev pub is_alnum : ℕ → Bool
is_alnum c = leb b'A' c && leb c b'Z' || is_decimal c

-- `Number(...)` of a run of digits.
unfoldable pub number_from : ℕ → Text → ℕ
number_from acc [] = acc
number_from acc (c ∷ rest) = number_from (acc * 10 + (c - b'0')) rest

abbrev pub in_alphabet : ℕ → Bool
in_alphabet c = any (λ k. k == c) reference_alphabet

-- `SEQUENTIAL_BODY_RE`: the year and the value.
unfoldable pub sequential_body : Text → Option (ℕ × ℕ)
unfolding number_from
sequential_body (a ∷ b ∷ c ∷ d ∷ value) =
    if a == b'2'
      && (b == b'0'
          && (is_decimal c
              && (is_decimal d
                  && (leb 1 (length value) && (leb (length value) 7 && all is_decimal value)))))
    then some (number_from 0 (a ∷ b ∷ c ∷ d ∷ []), number_from 0 value)
    else none
sequential_body _ = none

-- `RANDOM_BODY_RE`: the two groups of the body.
unfoldable pub random_body : Text → Option (Text × Text)
unfolding reference_alphabet
random_body (a ∷ b ∷ c ∷ d ∷ e ∷ f ∷ g ∷ h ∷ []) =
    if all in_alphabet (a ∷ b ∷ c ∷ d ∷ e ∷ f ∷ g ∷ h ∷ [])
    then some (a ∷ b ∷ c ∷ d ∷ [], e ∷ f ∷ g ∷ h ∷ [])
    else none
random_body _ = none

abbrev pub prefixes : List ReferencePrefix
prefixes = qp ∷ qb ∷ qg ∷ qf ∷ qc ∷ qs ∷ qn ∷ qd ∷ []

-- What follows the first prefix that the text starts with.
unfoldable pub split_prefix : Text → Option (ReferencePrefix × Text)
split_prefix (q ∷ mark ∷ body) =
    if q == b'Q'
    then elim (find (λ p. prefix_mark p == mark) prefixes) [ none ↦ none | some p ↦ some (p, body) ]
    else none
split_prefix _ = none

unfoldable pub normalize_sequential :
    ReferencePrefix → Option (ℕ × ℕ) → Result ReferenceError (Option Text)
unfolding format_sequential_reference
normalize_sequential p none = ok none
normalize_sequential p (some (year, value)) =
    if ltb value 1
    then ok none
    else do shown ← format_sequential_reference p year value; ok (some shown)

unfoldable pub normalize_random :
    ReferencePrefix → Option (Text × Text) → Result ReferenceError (Option Text)
normalize_random p none = ok none
normalize_random p (some (a, b)) = ok (some (dashed p a b))

unfoldable pub normalize_compact : Text → Result ReferenceError (Option Text)
unfolding split_prefix sequential_body random_body normalize_sequential normalize_random
normalize_compact t = elim (split_prefix t) [
  | none ↦ ok none
  | some (p, body) ↦ elim (prefix_kind p) [
    | sequential ↦ normalize_sequential p (sequential_body body)
    | _ ↦ normalize_random p (random_body body)
  ]
]

module _ (upper : ℕ → Text) where
  -- `input.toUpperCase().replace(/[^A-Z0-9]/g, '')`
  unfoldable pub compact : Text → Text
  compact [] = []
  compact (c ∷ rest) = filter is_alnum (upper c) ++ compact rest

  -- The empty input is refused at once, as its compact form is.
  unfoldable pub normalize_reference : Text → Result ReferenceError (Option Text)
  unfolding normalize_compact compact
  normalize_reference [] = ok none
  normalize_reference (c ∷ rest) = normalize_compact (compact (c ∷ rest))

-- `MAX_ALLOCATION_ATTEMPTS`
abbrev pub max_allocation_attempts : ℕ
max_allocation_attempts = 5

-- The attempts that are left, with the number of the next one: an attempt uses eight draws, and asks
-- whether the candidate is taken at that time.
unfoldable pub try_draws :
    (draws : ℕ → ℕ) (is_taken : ℕ → Text → Bool)
    → ReferencePrefix
    → (left attempt : ℕ) → Result ReferenceError Text
unfolding generate_reference
try_draws draws is_taken p zero attempt = err (allocation_exhausted p)
try_draws draws is_taken p (suc left) attempt =
    let again = try_draws draws is_taken p left (attempt + 1) in
    do
      candidate ← generate_reference draws (8 * attempt) p
      if not (is_taken attempt candidate) then ok candidate else again

unfoldable pub allocate_reference :
    (draws : ℕ → ℕ) (is_taken : ℕ → Text → Bool) → ReferencePrefix → Result ReferenceError Text
unfolding try_draws
allocate_reference draws is_taken p = try_draws draws is_taken p max_allocation_attempts 0
