-- ===== src/References/Spelling.antt =====
-- What the normaliser of src/references/reference.ts sees of an input: its letters and digits.
use qift_platform.Prelude.{
  ℕ, ◌-◌, ◌<◌, true, false, ◌&&◌, [], ◌∷◌, ◌++◌, ◌≡◌, refl, sym, ◌∙◌, leb, all, if◌then◌else◌,
  arith,
}
use qift_platform.Corporate.Text.{Text, units}
use qift_platform.References.{
  reference_alphabet, is_alnum, is_decimal, in_alphabet, compact, normalize_compact,
  normalize_reference,
}

abbrev pub ascii_upper : ℕ → ℕ
ascii_upper c = if leb b'a' c && leb c b'z' then c - 32 else c

-- `toUpperCase` on a character of ASCII, as ECMAScript defines it.
abbrev pub IsUpper : (ℕ → Text) → Type 0
IsUpper upper = (c : ℕ) → c < 128 → upper c ≡ ascii_upper c ∷ []

-- A spelling of a reference: letters of either case, and characters of ASCII that are neither a letter
-- nor a digit put in or left out anywhere.
pub data Spells : Text → Text → Type 0 where
  done : Spells [] []
  same :
      {s r : Text} (c d : ℕ)
      → c < 128
      → d < 128
      → ascii_upper c ≡ ascii_upper d
      → Spells s r
      → Spells (c ∷ s) (d ∷ r)
  put_in :
      {s r : Text} (c : ℕ)
      → c < 128
      → is_alnum (ascii_upper c) ≡ false
      → Spells s r
      → Spells (c ∷ s) r
  left_out :
      {s r : Text} (d : ℕ)
      → d < 128
      → is_alnum (ascii_upper d) ≡ false
      → Spells s r
      → Spells s (d ∷ r)

pub symbol_is_alnum : (c : ℕ) → in_alphabet c ≡ true → is_alnum c ≡ true
unfolding reference_alphabet units
symbol_is_alnum c h = ground arith

digit_is_alnum : (c : ℕ) → is_decimal c ≡ true → is_alnum c ≡ true
digit_is_alnum c h = ground arith

pub symbols_are_alnum : (t : Text) → all in_alphabet t ≡ true → all is_alnum t ≡ true
symbols_are_alnum [] h = refl
symbols_are_alnum (c ∷ t) h = ground (arith, symbol_is_alnum c, symbols_are_alnum t)

pub digits_are_alnum : (t : Text) → all is_decimal t ≡ true → all is_alnum t ≡ true
digits_are_alnum [] h = refl
digits_are_alnum (c ∷ t) h = ground (arith, digit_is_alnum c, digits_are_alnum t)

-- A letter or digit of the compact form is of ASCII and in upper case.
alnum_is_upper : (c : ℕ) → is_alnum c ≡ true → (c < 128) × (ascii_upper c ≡ c)
alnum_is_upper c h = (ground arith, ground arith)

module _ (upper : ℕ → Text) (on_ascii : IsUpper upper) where
  compact_skip :
      (c : ℕ) (t : Text)
      → c < 128
      → is_alnum (ascii_upper c) ≡ false
      → compact upper (c ∷ t) ≡ compact upper t
  unfolding compact
  compact_skip c t h other = rw (on_ascii c h) (simp other)

  compact_keep :
      (c d : ℕ) (s t : Text)
      → c < 128
      → d < 128
      → ascii_upper c ≡ ascii_upper d
      → compact upper s ≡ compact upper t
      → compact upper (c ∷ s) ≡ compact upper (d ∷ t)
  unfolding compact
  compact_keep c d s t h k e rest = rw (on_ascii c h, on_ascii d k, e, rest) refl

  pub compact_dash : (t : Text) → compact upper (b'-' ∷ t) ≡ compact upper t
  compact_dash t = compact_skip b'-' t (omega arith) refl

  pub compact-append_alnum :
      (t s : Text) → all is_alnum t ≡ true → compact upper (t ++ s) ≡ t ++ compact upper s
  unfolding compact
  compact-append_alnum [] s h = refl
  compact-append_alnum (c ∷ t) s h =
      let alnum : is_alnum c ≡ true = ground arith in
      let rest : all is_alnum t ≡ true = ground arith in
      let (ascii, kept) = alnum_is_upper c alnum in
      rw (on_ascii c ascii, kept, alnum, compact-append_alnum t s rest) refl

  pub compact_alnum : (t : Text) → all is_alnum t ≡ true → compact upper t ≡ t
  unfolding compact
  compact_alnum [] h = refl
  compact_alnum (c ∷ t) h =
      let alnum : is_alnum c ≡ true = ground arith in
      let rest : all is_alnum t ≡ true = ground arith in
      let (ascii, kept) = alnum_is_upper c alnum in
      rw (on_ascii c ascii, kept, alnum, compact_alnum t rest) refl

  -- Two spellings have one compact form.
  pub compact-Spells : {s r : Text} → Spells s r → compact upper s ≡ compact upper r
  compact-Spells done = refl
  compact-Spells (same {s} {r} c d h k e rest) = compact_keep c d s r h k e (compact-Spells rest)
  compact-Spells (put_in {s} c h other rest) = compact_skip c s h other ∙ compact-Spells rest
  compact-Spells (left_out {s} {r} d h other rest) =
      compact-Spells rest ∙ sym (compact_skip d r h other)

-- The normal form depends on the compact form alone.
pub normalize_reference-compact :
    (upper : ℕ → Text) (s : Text)
    → normalize_reference upper s ≡ normalize_compact (compact upper s)
unfolding normalize_reference
normalize_reference-compact upper [] = refl
normalize_reference-compact upper (c ∷ s) = refl
