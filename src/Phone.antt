-- ===== src/Phone.antt =====
-- src/auth/phone-normalize.ts: the canonical form of a phone number, and the test for a mobile.
mod Tests
pub mod Forms
use qift_platform.Prelude.{
  ℕ, Bool, true, false, not, ◌&&◌, ◌||◌, Option, none, some, List, [], ◌∷◌, ◌++◌, ◌==◌, leb, any,
  all, filter, length, if◌then◌else◌,
}
use qift_platform.Corporate.Text.{Text, units}

abbrev pub plus : ℕ
plus = 43

abbrev pub is_digit : ℕ → Bool
is_digit c = leb 48 c && leb c 57

pub data CountryCode : Type 0 where
  sa ae kw qa bh om : CountryCode

abbrev pub dial : CountryCode → Text
dial CountryCode.sa = 57 ∷ 54 ∷ 54 ∷ []
dial CountryCode.ae = 57 ∷ 55 ∷ 49 ∷ []
dial CountryCode.kw = 57 ∷ 54 ∷ 53 ∷ []
dial CountryCode.qa = 57 ∷ 55 ∷ 52 ∷ []
dial CountryCode.bh = 57 ∷ 55 ∷ 51 ∷ []
dial CountryCode.om = 57 ∷ 54 ∷ 56 ∷ []

abbrev pub countries : List CountryCode
countries =
    CountryCode.sa ∷ CountryCode.ae ∷ CountryCode.kw ∷ CountryCode.qa ∷ CountryCode.bh
    ∷ CountryCode.om ∷ []

-- A first digit of these, and so many digits after it.
abbrev pub has_shape : (firsts : List ℕ) → (more : ℕ) → Text → Bool
has_shape firsts more [] = false
has_shape firsts more (d ∷ rest) =
    any (λ f. f == d) firsts && (all is_digit rest && length rest == more)

-- `mobileLocal`
unfoldable pub mobile_local : CountryCode → Text → Bool
mobile_local CountryCode.sa = has_shape (53 ∷ []) 8
mobile_local CountryCode.ae = has_shape (53 ∷ []) 8
mobile_local CountryCode.kw = has_shape (53 ∷ 54 ∷ 57 ∷ []) 7
mobile_local CountryCode.qa = has_shape (51 ∷ 53 ∷ 54 ∷ 55 ∷ []) 7
mobile_local CountryCode.bh = has_shape (51 ∷ 54 ∷ []) 7
mobile_local CountryCode.om = has_shape (55 ∷ 57 ∷ []) 7

-- `E164_REGEX`: a plus, a digit that is not 0, and 7 to 14 digits more.
unfoldable pub is_e164 : Text → Bool
is_e164 (p ∷ (d ∷ rest)) =
    p == plus
    && (leb 49 d
        && (leb d 57 && (all is_digit rest && (leb 7 (length rest) && leb (length rest) 14))))
is_e164 _ = false

-- What follows a prefix, where the text starts with it.
unfoldable pub after_prefix : Text → Text → Option Text
after_prefix [] t = some t
after_prefix (c ∷ cs) [] = none
after_prefix (c ∷ cs) (d ∷ t) = let rest = after_prefix cs t in if c == d then rest else none

-- The first country whose prefix the text starts with, and what follows it.
unfoldable pub first_country :
    (CountryCode → Text) → List CountryCode → Text → Option (CountryCode × Text)
unfolding after_prefix
first_country prefix [] t = none
first_country prefix (c ∷ rest) t =
    let later = first_country prefix rest t in
    elim (after_prefix (prefix c) t) [ none ↦ later | some after ↦ some (c, after) ]

unfoldable pub without_zeros : Text → Text
without_zeros [] = []
without_zeros (c ∷ rest) = if c == 48 then without_zeros rest else c ∷ rest

abbrev pub if_e164 : Text → Option Text
if_e164 candidate = if is_e164 candidate then some candidate else none

abbrev pub rogue_zero : CountryCode → Text
rogue_zero c = plus ∷ dial c ++ 48 ∷ []

-- The text with a plus: a zero between the dial code and the number is dropped.
unfoldable pub with_plus : Text → Option Text
unfolding first_country
with_plus s = elim (first_country rogue_zero countries s) [
  | none ↦ if_e164 s
  | some found ↦ if_e164 (plus ∷ dial found.0 ++ found.1)
]

abbrev pub is_empty_text : Text → Bool
is_empty_text [] = true
is_empty_text (c ∷ rest) = false

-- The text without a plus: a number with a dial code, or a local one.
unfoldable pub without_plus : CountryCode → Text → Option Text
unfolding first_country without_zeros
without_plus default_country s = elim (first_country dial countries s) [
  | some found ↦ if_e164 (plus ∷ dial found.0 ++ without_zeros found.1)
  | none ↦
      let local = without_zeros s in
      if is_empty_text local then none else if_e164 (plus ∷ dial default_country ++ local)
]

abbrev pub is_kept : ℕ → Bool
is_kept c = is_digit c || c == plus

-- `raw.replace(/[^\d+]/g, '')`, with one plus at the start where there is any.
unfoldable pub digits_of : Text → Text
digits_of raw =
    let kept = filter is_kept raw in
    if any (λ c. c == plus) kept then plus ∷ filter (λ c. not (c == plus)) kept else kept

-- The international prefix `00` is a plus.
unfoldable pub international : Text → Text
international (a ∷ (b ∷ rest)) = if a == 48 && b == 48 then plus ∷ rest else a ∷ (b ∷ rest)
international s = s

abbrev pub starts_with_plus : Text → Bool
starts_with_plus [] = false
starts_with_plus (c ∷ rest) = c == plus

-- What is left of the text, once only digits and a plus at its start remain.
unfoldable pub normalize_digits : CountryCode → Text → Option Text
unfolding international with_plus without_plus
normalize_digits default_country digits =
    let s = international digits in
    if is_empty_text digits
    then none
    else if starts_with_plus s
    then with_plus s
    else without_plus default_country s

-- `normalizePhone`; an absent text is the empty one.
unfoldable pub normalize_phone : CountryCode → Text → Option Text
unfolding digits_of normalize_digits
normalize_phone default_country raw = normalize_digits default_country (digits_of raw)

pub data PhoneProblem : Type 0 where
  phone_invalid phone_not_mobile : PhoneProblem

abbrev pub plus_dial : CountryCode → Text
plus_dial c = plus ∷ dial c

-- `validateMobile` without a country: none is a plausible number.
unfoldable pub validate_mobile : Text → Option PhoneProblem
unfolding is_e164 first_country mobile_local
validate_mobile e164 =
    let shape : Option PhoneProblem = elim (first_country plus_dial countries e164) [
      | none ↦ none
      | some found ↦ if mobile_local found.0 found.1 then none else some phone_not_mobile
    ] in
    if is_e164 e164 then shape else some phone_invalid
