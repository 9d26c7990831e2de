-- ===== src/Settlement/Canonical.antt =====
-- `canonicalJson` and the digest of src/settlement/settlement-statement.ts: one text for the same
-- data. What JavaScript and Node give, the printing of texts and numbers and the hash, is a parameter.
pub mod Order
pub mod Reordering
use Prim.Native.Char.{code}
use Prim.Native.String.{String, ◌++◌}
use qift_platform.Prelude.{
  ℕ, ◌*◌, Bool, true, false, Option, none, some, List, [], ◌∷◌, ltb, if◌then◌else◌,
}
use package.text.Mathlib.Text.{◌==◌ as str_eq}
use qift_platform.Prelude.Text.{is_empty}
use qift_platform.Prelude.Int.{ℤ, pos, eqb_ℤ}
use qift_platform.Money.{unit}

-- A value of JSON. A number is in ticks; `missing` is a key whose value is undefined.
mutual
  pub data Json : Type 0 where
    null : Json
    bool : Bool → Json
    number : ℤ → Json
    text : String → Json
    array : Items → Json
    object : Fields → Json

  pub data Items : Type 0 where
    nil : Items
    cons : Json → Items → Items

  pub data Fields : Type 0 where
    end : Fields
    field : String → Json → Fields → Fields
    missing : String → Fields → Fields

-- `JSON.stringify` of a text and of a number, the SHA-256 digest in hexadecimal digits,
-- `Date.prototype.toISOString`, the text of an identifier, which is a number here, and `String`
-- of a value that is no text.
pub record Platform : Type 0 where
  pub quote : String → String
  pub number_text : ℤ → String
  pub sha256 : String → String
  pub iso : ℕ → String
  pub id_text : ℕ → String
  pub coerced : Option Json → String

-- `a < b` on texts.
unfoldable pub str_lt : String → String → Bool
str_lt String.[] String.[] = false
str_lt String.[] (String.◌∷◌ d t) = true
str_lt (String.◌∷◌ c s) String.[] = false
str_lt (String.◌∷◌ c s) (String.◌∷◌ d t) =
    let later = str_lt s t in
    if ltb (code c) (code d) then true else if ltb (code d) (code c) then false else later

-- An entry goes before the first entry of a greater key, so that the sort is stable.
unfoldable pub insert_entry : String × String → List (String × String) → List (String × String)
insert_entry e [] = e ∷ []
insert_entry e (f ∷ rest) =
    let later = insert_entry e rest in if str_lt f.0 e.0 then f ∷ later else e ∷ f ∷ rest

unfoldable pub sort_entries : List (String × String) → List (String × String)
sort_entries [] = []
sort_entries (e ∷ rest) = insert_entry e (sort_entries rest)

-- `parts.join(',')`
unfoldable pub join_comma : List String → String
join_comma [] = ""
join_comma (s ∷ []) = s
join_comma (s ∷ (t ∷ rest)) = s ++ ("," ++ join_comma (t ∷ rest))

module _ (p : Platform) where
  pub entry_texts : List (String × String) → List String
  entry_texts [] = []
  entry_texts ((k, v) ∷ rest) = (p.quote k ++ (":" ++ v)) ∷ entry_texts rest

  -- The braces around the entries in the order of their keys.
  unfoldable pub object_text : List (String × String) → String
  unfolding entry_texts
  object_text entries = "{" ++ (join_comma (entry_texts (sort_entries entries)) ++ "}")

  unfoldable mutual
    -- Each value is printed before its entry is sorted by its key.
    pub canonical_json : Json → String
    canonical_json null = "null"
    canonical_json (bool true) = "true"
    canonical_json (bool false) = "false"
    canonical_json (number n) = p.number_text n
    canonical_json (text s) = p.quote s
    canonical_json (array xs) = "[" ++ (join_comma (item_texts xs) ++ "]")
    canonical_json (object fs) = object_text (entries fs)

    pub item_texts : Items → List String
    item_texts nil = []
    item_texts (cons x xs) = canonical_json x ∷ item_texts xs

    pub entries : Fields → List (String × String)
    entries end = []
    entries (field k v fs) = (k, canonical_json v) ∷ entries fs
    entries (missing k fs) = entries fs

  unfoldable pub hash_canonical : String → String
  hash_canonical canonical = p.sha256 canonical

-- A whole number, as a number of ticks.
abbrev pub count_json : ℕ → Json
count_json n = number (pos (n * unit))

-- A text or null.
abbrev pub text_or_null : Option String → Json
text_or_null none = null
text_or_null (some s) = text s

abbrev pub number_or_null : Option ℤ → Json
number_or_null none = null
number_or_null (some n) = number n

-- The value of a key; an object with a key twice does not arise.
unfoldable pub get_field : String → Fields → Option Json
get_field k end = none
get_field k (field j v rest) = let later = get_field k rest in if str_eq j k then some v else later
get_field k (missing j rest) = get_field k rest

unfoldable pub get : String → Json → Option Json
unfolding get_field
get k (object fs) = get_field k fs
get k _ = none

-- The value where it is neither undefined nor one of null, false, zero and the empty text.
unfoldable pub truthy : Option Json → Option Json
truthy none = none
truthy (some null) = none
truthy (some (bool b)) = if b then some (bool b) else none
truthy (some (number n)) = if eqb_ℤ n (pos 0) then none else some (number n)
truthy (some (text s)) = if is_empty s then none else some (text s)
truthy (some v) = some v

-- `String(value)`
unfoldable pub string_of : Platform → Option Json → String
string_of p (some (text s)) = s
string_of p v = p.coerced v
