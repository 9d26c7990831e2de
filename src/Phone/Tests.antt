-- ===== src/Phone/Tests.antt =====
-- A number typed with spaces and a stray zero.
use qift_platform.Prelude.{none, some, [], ◌∷◌, ◌≡◌, refl}
use qift_platform.Corporate.Text.{Text}
use qift_platform.Phone.{CountryCode, normalize_phone, validate_mobile}
use qift_platform.Phone.Forms.{rogue, plus_dialled, typed, normalize_phone-typed}

-- +966 050 123 4567
abbrev typed_text : Text
typed_text = 43 ∷ 57 ∷ 54 ∷ 54 ∷ 32 ∷ 48 ∷ 53 ∷ 48 ∷ 32 ∷ 49 ∷ 50 ∷ 51 ∷ 32 ∷ 52 ∷ 53 ∷ 54 ∷ 55 ∷ []

-- 01234567, after the first digit.
abbrev more_digits : Text
more_digits = 48 ∷ 49 ∷ 50 ∷ 51 ∷ 52 ∷ 53 ∷ 54 ∷ 55 ∷ []

normalize_phone-typed_example :
    (normalize_phone CountryCode.sa typed_text ≡ some (typed plus_dialled more_digits))
    × (validate_mobile (typed plus_dialled more_digits) ≡ none)
unfolding typed
normalize_phone-typed_example = normalize_phone-typed rogue typed_text more_digits refl refl refl
