-- ===== src/Settlement/Canonical/Order.antt =====
-- The order of keys, and the sort of entries with different keys in either order.
use Prim.Native.Char.{code}
use Prim.Native.String.{String}
use text.Mathlib.TextEquality.{Char-path}
use qift_platform.Prelude.{
  true, false, List, [], ◌∷◌, ◌≡◌, ◌≢◌, refl, ap₂, sym, arith, Bool-cases, inl, inr, ◌⊎◌,
}
use qift_platform.Settlement.Canonical.{str_lt, insert_entry}

pub str_lt_asymm : (s t : String) → str_lt s t ≡ true → str_lt t s ≡ false
unfolding str_lt
str_lt_asymm String.[] String.[] h = refl
str_lt_asymm String.[] (String.◌∷◌ d t) h = refl
str_lt_asymm (String.◌∷◌ c s) String.[] h = cc
str_lt_asymm (String.◌∷◌ c s) (String.◌∷◌ d t) h = ground (arith, str_lt_asymm s t)

pub str_lt_trans : (s t u : String) → str_lt s t ≡ true → str_lt t u ≡ true → str_lt s u ≡ true
unfolding str_lt
str_lt_trans String.[] String.[] u h k = k
str_lt_trans String.[] (String.◌∷◌ d t) String.[] h k = cc
str_lt_trans String.[] (String.◌∷◌ d t) (String.◌∷◌ e u) h k = refl
str_lt_trans (String.◌∷◌ c s) String.[] u h k = cc
str_lt_trans (String.◌∷◌ c s) (String.◌∷◌ d t) String.[] h k = cc
str_lt_trans (String.◌∷◌ c s) (String.◌∷◌ d t) (String.◌∷◌ e u) h k =
    ground (arith, str_lt_trans s t u)

str_lt_total : (s t : String) → str_lt s t ≡ false → str_lt t s ≡ false → s ≡ t
unfolding str_lt
str_lt_total String.[] String.[] h k = refl
str_lt_total String.[] (String.◌∷◌ d t) h k = cc
str_lt_total (String.◌∷◌ c s) String.[] h k = cc
str_lt_total (String.◌∷◌ c s) (String.◌∷◌ d t) h k =
    let same : code c ≡ code d = ground arith in
    ap₂ (λ x y. String.◌∷◌ x y) (Char-path c d same)
      (str_lt_total s t (ground arith) (ground arith))

pub lt_or_gt : (s t : String) → s ≢ t → (str_lt s t ≡ true) ⊎ (str_lt t s ≡ true)
lt_or_gt s t ne = elim (Bool-cases (str_lt s t)) [
  | inl less ↦ inl less
  | inr other ↦ elim (Bool-cases (str_lt t s)) [
    | inl more ↦ inr more
    | inr same ↦ absurd (ne (str_lt_total s t other same))
  ]
]

-- Two entries with different keys may be inserted in either order.
insert_entry_lt :
    (e f : String × String) (rows : List (String × String))
    → str_lt e.0 f.0 ≡ true
    → insert_entry e (insert_entry f rows) ≡ insert_entry f (insert_entry e rows)
unfolding insert_entry
insert_entry_lt e f [] h = rw (h, str_lt_asymm e.0 f.0 h) refl
insert_entry_lt e f (g ∷ rows) h = ground (
  arith,
  str_lt_asymm e.0 f.0,
  str_lt_trans g.0 e.0 f.0,
  str_lt_trans e.0 f.0 g.0,
  insert_entry_lt e f rows,
)

pub insert_entry_comm :
    (e f : String × String) (rows : List (String × String))
    → e.0 ≢ f.0
    → insert_entry e (insert_entry f rows) ≡ insert_entry f (insert_entry e rows)
insert_entry_comm e f rows ne = elim (lt_or_gt e.0 f.0 ne) [
  | inl less ↦ insert_entry_lt e f rows less
  | inr more ↦ sym (insert_entry_lt f e rows more)
]
