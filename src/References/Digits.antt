-- ===== src/References/Digits.antt =====
-- The decimal notation of src/references/reference.ts, read back.
use qift_platform.Prelude.{
  ℕ, zero, suc, ◌+◌, ◌-◌, ◌*◌, ◌/◌, ◌%◌, ◌<◌, ◌≤◌, true, [], ◌∷◌, ◌++◌, ◌≡◌, refl, ap, ltb, all,
  length, length-append, if◌then◌else◌, Bool-cases, inl, inr, ltb→lt, arith,
}
use qift_platform.Corporate.Text.{Text}
use qift_platform.References.{digits, zeros, padded, number_from, is_decimal}

number_from-append :
    (acc : ℕ) (t : Text) (c : ℕ)
    → number_from acc (t ++ c ∷ []) ≡ number_from acc t * 10 + (c - b'0')
unfolding number_from
number_from-append acc [] c = refl
number_from-append acc (d ∷ t) c = number_from-append (acc * 10 + (d - b'0')) t c

pub number_from-digits : (fuel n : ℕ) → n < fuel → number_from 0 (digits fuel n) ≡ n
unfolding digits number_from
number_from-digits zero n h = absurd (omega arith)
number_from-digits (suc fuel) n h = elim (Bool-cases (ltb n 10)) [
  | inl last ↦ let small = ltb→lt n 10 last in rw last (omega arith)
  | inr more ↦
      rw (more, number_from-append 0 (digits fuel (n / 10)) (b'0' + n % 10))
        (ground (arith, number_from-digits fuel (n / 10)))
]

pub all-append :
    (t s : Text)
    → all is_decimal t ≡ true
    → all is_decimal s ≡ true
    → all is_decimal (t ++ s) ≡ true
all-append [] s h k = k
all-append (c ∷ t) s h k = ground (arith, all-append t s)

digit_is_digit : (n : ℕ) → is_decimal (b'0' + n % 10) ≡ true
digit_is_digit n = ground arith

pub digits_are_digits : (fuel n : ℕ) → all is_decimal (digits fuel n) ≡ true
unfolding digits
digits_are_digits zero n = refl
digits_are_digits (suc fuel) n =
    all-append (if ltb n 10 then [] else digits fuel (n / 10)) _
      (elim (Bool-cases (ltb n 10)) [
        | inl last ↦ rw last refl
        | inr more ↦ rw more (digits_are_digits fuel (n / 10))
      ])
      (rw (digit_is_digit n) refl)

pub zeros_are_digits : (k : ℕ) → all is_decimal (zeros k) ≡ true
unfolding zeros
zeros_are_digits zero = refl
zeros_are_digits (suc k) = zeros_are_digits k

-- The number has at most `k` digits.
abbrev Within : ℕ → ℕ → Type 0
Within zero n = n < 1
Within (suc zero) n = n < 10
Within (suc (suc k)) n = Within (suc k) (n / 10)

length-digits : (k fuel n : ℕ) → Within (suc k) n → length (digits fuel n) ≤ suc k
unfolding digits
length-digits k zero n h = omega arith
length-digits zero (suc fuel) n h = ground arith
length-digits (suc k) (suc fuel) n h = elim (Bool-cases (ltb n 10)) [
  | inl last ↦ rw last (omega arith)
  | inr more ↦ rw more (
      omega (
        arith,
        length-append {0} (digits fuel (n / 10)) ((b'0' + n % 10) ∷ []),
        length-digits k fuel (n / 10) h,
      ))
]

length-digits_pos : (fuel n : ℕ) → 1 ≤ length (digits (suc fuel) n)
unfolding digits
length-digits_pos fuel n = omega (
  arith,
  length-append {0} (if ltb n 10 then [] else digits fuel (n / 10)) ((b'0' + n % 10) ∷ []),
)

length-zeros : (k : ℕ) → length (zeros k) ≡ k
unfolding zeros
length-zeros zero = refl
length-zeros (suc k) = ap suc (length-zeros k)

number_from-zeros : (k : ℕ) (t : Text) → number_from 0 (zeros k ++ t) ≡ number_from 0 t
unfolding zeros number_from
number_from-zeros zero t = refl
number_from-zeros (suc k) t = number_from-zeros k t

pub number_from-padded : (value : ℕ) → number_from 0 (padded value) ≡ value
unfolding padded
number_from-padded value =
    rw (number_from-zeros (5 - length (digits (suc value) value)) (digits (suc value) value))
      (number_from-digits (suc value) value (omega arith))

pub padded_are_digits : (value : ℕ) → all is_decimal (padded value) ≡ true
unfolding padded
padded_are_digits value =
    let shown = digits (suc value) value in
    all-append (zeros (5 - length shown)) shown (zeros_are_digits (5 - length shown))
      (digits_are_digits (suc value) value)

pub padded_size :
    (value : ℕ) → value < 10000000 → (1 ≤ length (padded value)) × (length (padded value) ≤ 7)
unfolding padded
padded_size value h =
    let shown = digits (suc value) value in
    let whole = length-append {0} (zeros (5 - length shown)) shown in
    let gap = length-zeros (5 - length shown) in
    let short = length-digits 6 (suc value) value (omega arith) in
    let some_ = length-digits_pos value value in (omega arith, omega arith)

one_digit : (fuel n : ℕ) → n < 10 → digits (suc fuel) n ≡ (b'0' + n) ∷ []
unfolding digits
one_digit fuel n h = ground arith

more_digits :
    (fuel n : ℕ) → 10 ≤ n → digits (suc fuel) n ≡ digits fuel (n / 10) ++ ((b'0' + n % 10) ∷ [])
unfolding digits
more_digits fuel n h = ground arith

-- A year of four digits in this century.
pub year_digits :
    (fuel year : ℕ)
    → 2020 ≤ year
    → year < 2100
    → digits (suc (suc (suc (suc fuel)))) year
      ≡ b'2' ∷ b'0' ∷ (b'0' + year / 10 % 10) ∷ (b'0' + year % 10) ∷ []
year_digits fuel year low high =
    rw
      (
        more_digits (suc (suc (suc fuel))) year (omega arith),
        more_digits (suc (suc fuel)) (year / 10) (omega arith),
        more_digits (suc fuel) (year / 10 / 10) (omega arith),
        one_digit fuel (year / 10 / 10 / 10) (omega arith),
      )
      (let thousands : year / 10 / 10 / 10 ≡ 2 = omega arith in
        let hundreds : year / 10 / 10 % 10 ≡ 0 = omega arith in rw (thousands, hundreds) refl)
