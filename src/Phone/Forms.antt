-- ===== src/Phone/Forms.antt =====
-- The forms in which a Saudi mobile is typed, under `normalizePhone` (src/auth/phone-normalize.ts).
use qift_platform.Prelude.{
  true, false, not, none, some, [], ◌∷◌, ◌==◌, ◌≡◌, refl, ap, ◌∙◌, arith, any, all, filter, length,
}
use qift_platform.Corporate.Text.{Text}
use qift_platform.Phone.{
  plus, is_digit, is_kept, CountryCode, is_e164, after_prefix, first_country, without_zeros,
  with_plus, without_plus, digits_of, international, normalize_digits, normalize_phone,
  validate_mobile, mobile_local,
}

no_plus : (ds : Text) → all is_digit ds ≡ true → any (λ c. c == plus) ds ≡ false
no_plus [] h = refl
no_plus (d ∷ ds) h = ground (arith, no_plus ds)

drop_pluses : (ds : Text) → all is_digit ds ≡ true → filter (λ c. not (c == plus)) ds ≡ ds
drop_pluses [] h = refl
drop_pluses (d ∷ ds) h = ground (arith, drop_pluses ds)

-- The forms of a number: local, with a zero, with the dial code, with a plus and the dial code, with
-- the international prefix, and with a zero that strayed behind the dial code.
pub data Form : Type 0 where
  local zero_local dialled plus_dialled zeros_dialled rogue : Form

-- The number whose local digits are 5 and these, in a form.
unfoldable pub typed : Form → Text → Text
typed local ds = 53 ∷ ds
typed zero_local ds = 48 ∷ 53 ∷ ds
typed dialled ds = 57 ∷ 54 ∷ 54 ∷ 53 ∷ ds
typed plus_dialled ds = 43 ∷ 57 ∷ 54 ∷ 54 ∷ 53 ∷ ds
typed zeros_dialled ds = 48 ∷ 48 ∷ 57 ∷ 54 ∷ 54 ∷ 53 ∷ ds
typed rogue ds = 43 ∷ 57 ∷ 54 ∷ 54 ∷ 48 ∷ 53 ∷ ds

digits_of-typed :
    (form : Form) (raw ds : Text)
    → all is_digit ds ≡ true
    → filter is_kept raw ≡ typed form ds
    → digits_of raw ≡ typed form ds
unfolding digits_of typed
digits_of-typed local raw ds h k = rw (k, no_plus ds h) refl
digits_of-typed zero_local raw ds h k = rw (k, no_plus ds h) refl
digits_of-typed dialled raw ds h k = rw (k, no_plus ds h) refl
digits_of-typed plus_dialled raw ds h k = rw (k, drop_pluses ds h) refl
digits_of-typed zeros_dialled raw ds h k = rw (k, no_plus ds h) refl
digits_of-typed rogue raw ds h k = rw (k, drop_pluses ds h) refl

normalize_digits-typed :
    (form : Form) (ds : Text)
    → all is_digit ds ≡ true
    → length ds ≡ 8
    → normalize_digits CountryCode.sa (typed form ds) ≡ some (typed plus_dialled ds)
unfolding normalize_digits international with_plus without_plus first_country after_prefix
    without_zeros is_e164 typed
normalize_digits-typed local [] h k = ground arith
normalize_digits-typed local (d ∷ ds) h k = rw (h, k) refl
normalize_digits-typed zero_local ds h k = rw (h, k) refl
normalize_digits-typed dialled ds h k = rw (h, k) refl
normalize_digits-typed plus_dialled ds h k = rw (h, k) refl
normalize_digits-typed zeros_dialled ds h k = rw (h, k) refl
normalize_digits-typed rogue ds h k = rw (h, k) refl

-- Whatever else is typed between them, the digits and pluses of a Saudi mobile in any of six forms
-- (local, with a zero, with the dial code, with a plus and the dial code, with the international
-- prefix, with a zero that strayed behind the dial code) are brought to the one canonical form, a plus,
-- the dial code and the nine local digits, and the canonical form is a valid mobile.
pub normalize_phone-typed :
    (form : Form) (raw ds : Text)
    → all is_digit ds ≡ true
    → length ds ≡ 8
    → filter is_kept raw ≡ typed form ds
    → (normalize_phone CountryCode.sa raw ≡ some (typed plus_dialled ds))
      × (validate_mobile (typed plus_dialled ds) ≡ none)
unfolding normalize_phone validate_mobile is_e164 first_country after_prefix mobile_local typed
normalize_phone-typed form raw ds h k shape = (
  ap (normalize_digits CountryCode.sa) (digits_of-typed form raw ds h shape)
      ∙ normalize_digits-typed form ds h k,
  rw (h, k) refl,
)
