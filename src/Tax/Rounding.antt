-- ===== src/Tax/Rounding.antt =====
-- The half-up division of the tax engine (src/fees/tax-engine.ts), and the agreement of its two
-- price conventions.
use native.Mathlib.Nat.{div-add-mod, mod-lt, mul-le-mul_left}
use native.Mathlib.Decide.{dec_le}
use qift_platform.Prelude.{ℕ, ◌+◌, ◌*◌, ◌≤◌, ◌<◌, ◌≡◌, refl, zero, suc, arith, ap}
use qift_platform.Prelude.Int.{pos, negsuc}
use qift_platform.Prelude.Outcome.{ok, err}
use qift_platform.Tax.{
  negative_base_unsupported, rate_scale, divide_half_up, vat_on_minor, extract_net_minor,
}

-- The quotient is the whole number nearest to `num / den`, a half going up.
pub divide_half_up_nearest :
    (num den : ℕ)
    → 0 < den
    → (den * divide_half_up num den * 2 ≤ 2 * num + den)
      × (2 * num + den < den * divide_half_up num den * 2 + 2 * den)
unfolding divide_half_up
divide_half_up_nearest num den h = grind (arith, div-add-mod num den, mod-lt num h)

pub squeeze : (den a b c : ℕ) → den * a * 2 ≤ c → c < den * b * 2 + 2 * den → a ≤ b
squeeze den a b c lo hi = elim (dec_le a b) [
  | yes h ↦ h
  | no h ↦ absurd (omega (arith, mul-le-mul_left {m = b + 1} {n = a} den (omega arith)))
]

-- It is the only such number.
divide_half_up_unique :
    (num den q : ℕ)
    → 0 < den
    → den * q * 2 ≤ 2 * num + den
    → 2 * num + den < den * q * 2 + 2 * den
    → divide_half_up num den ≡ q
divide_half_up_unique num den q h lo hi =
    let near = divide_half_up_nearest num den h in
    omega (
      arith,
      squeeze den q (divide_half_up num den) (2 * num + den) lo near.1,
      squeeze den (divide_half_up num den) q (2 * num + den) near.0 hi,
    )

-- A base of zero or more minor units pays the nearest whole number of minor units to the rate in
-- basis points, a half going up; a negative base is refused.
pub vat_on_minor_half_up :
    (base rate_bp : ℕ)
    → (vat : ℕ) × (vat_on_minor (pos base) rate_bp ≡ ok (pos vat))
      × (20_000 * vat ≤ 2 * (base * rate_bp) + 10_000)
      × (2 * (base * rate_bp) + 10_000 < 20_000 * vat + 20_000)
      × (vat_on_minor (negsuc base) rate_bp ≡ err negative_base_unsupported)
unfolding vat_on_minor
vat_on_minor_half_up base r =
    let v = divide_half_up (base * r) rate_scale in
    let b = divide_half_up_nearest (base * r) rate_scale (omega arith) in
    (v, refl, omega (arith, b.0), omega (arith, b.1), refl)

extract_upper :
    (base r vat : ℕ)
    → 20_000 * vat ≤ 2 * (base * r) + 10_000
    → 2 * ((base + vat) * rate_scale) + (rate_scale + r)
      < (rate_scale + r) * base * 2 + 2 * (rate_scale + r)
extract_upper base zero vat h = omega arith
extract_upper base (suc r) vat h = omega arith

-- VAT that is added to a base is extracted again from the sum: the net of base plus VAT is the base.
pub extract_net-vat_on :
    (base rate_bp vat : ℕ)
    → vat_on_minor (pos base) rate_bp ≡ ok (pos vat)
    → extract_net_minor (pos (base + vat)) rate_bp ≡ ok (pos base)
unfolding extract_net_minor vat_on_minor
extract_net-vat_on base r vat h =
    let near = divide_half_up_nearest (base * r) rate_scale (omega arith) in
    let rounded : divide_half_up (base * r) rate_scale ≡ vat = cc in
    ap (λ (q : ℕ). ok (pos q))
      (divide_half_up_unique ((base + vat) * rate_scale) (rate_scale + r) base (omega arith)
        (omega (arith, near.0, near.1, rounded))
        (extract_upper base r vat (omega (arith, near.0, rounded))))
