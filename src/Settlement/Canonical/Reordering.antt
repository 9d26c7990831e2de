-- ===== src/Settlement/Canonical/Reordering.antt =====
-- The order in which an object of settlement-statement.ts was built, and the keys whose value is
-- undefined, do not show in its canonical JSON.
use Prim.Native.String.{String, ◌++◌}
use qift_platform.Prelude.{◌≡◌, ◌≢◌, refl, ap, ap₂, ◌∙◌, ◌∷◌}
use qift_platform.Settlement.Canonical.{
  Json, object, array, Items, nil, cons, Fields, field, missing, item_texts, Platform, insert_entry,
  sort_entries, join_comma, entry_texts, object_text, canonical_json, entries,
}
use qift_platform.Settlement.Canonical.Order.{insert_entry_comm}

-- The same data, built in another order: objects with the same entries in another order and with other
-- undefined keys, and, inside arrays and objects at any depth, the same data again.
mutual
  pub data Reordered : Json → Json → Type 0 where
    same_json : (v : Json) → Reordered v v
    in_array : {xs ys : Items} → ReorderedItems xs ys → Reordered (array xs) (array ys)
    in_object : {fs gs : Fields} → ReorderedFields fs gs → Reordered (object fs) (object gs)

  pub data ReorderedItems : Items → Items → Type 0 where
    no_items : ReorderedItems nil nil
    each_item :
        {v w : Json} {xs ys : Items}
        → Reordered v w
        → ReorderedItems xs ys
        → ReorderedItems (cons v xs) (cons w ys)

  pub data ReorderedFields : Fields → Fields → Type 0 where
    same_fields : (fs : Fields) → ReorderedFields fs fs
    swap_fields :
        (j k : String) (v w : Json) (fs : Fields)
        → j ≢ k
        → ReorderedFields (field j v (field k w fs)) (field k w (field j v fs))
    each_field :
        (k : String) {v w : Json} {fs gs : Fields}
        → Reordered v w
        → ReorderedFields fs gs
        → ReorderedFields (field k v fs) (field k w gs)
    forget_missing : (k : String) (fs : Fields) → ReorderedFields (missing k fs) fs
    remember_missing : (k : String) (fs : Fields) → ReorderedFields fs (missing k fs)
    trans_fields :
        {fs gs hs : Fields} → ReorderedFields fs gs → ReorderedFields gs hs → ReorderedFields fs hs

mutual
  unfolding canonical_json item_texts entries object_text sort_entries

  -- The texts of the same data, of its items and of its sorted entries.
  same_text : (p : Platform) (v w : Json) → Reordered v w → canonical_json p v ≡ canonical_json p w
  same_text p _ _ (same_json v) = refl
  same_text p _ _ (in_array same) =
      ap (λ texts. "[" ++ (join_comma texts ++ "]")) (same_texts p same)
  same_text p _ _ (in_object same) =
      ap (λ sorted. "{" ++ (join_comma (entry_texts p sorted) ++ "}")) (same_entries p same)

  same_texts :
      (p : Platform) {xs ys : Items} → ReorderedItems xs ys → item_texts p xs ≡ item_texts p ys
  same_texts p no_items = refl
  same_texts p (each_item one rest) =
      ap₂ (λ s texts. s ∷ texts) (same_text p _ _ one) (same_texts p rest)

  same_entries :
      (p : Platform) {fs gs : Fields}
      → ReorderedFields fs gs
      → sort_entries (entries p fs) ≡ sort_entries (entries p gs)
  same_entries p (same_fields fs) = refl
  same_entries p (swap_fields j k v w fs ne) =
      insert_entry_comm (j, canonical_json p v) (k, canonical_json p w)
        (sort_entries (entries p fs)) ne
  same_entries p (each_field k one same) =
      ap₂ (λ printed sorted. insert_entry (k, printed) sorted) (same_text p _ _ one)
        (same_entries p same)
  same_entries p (forget_missing k fs) = refl
  same_entries p (remember_missing k fs) = refl
  same_entries p (trans_fields one two) = same_entries p one ∙ same_entries p two

-- The same data has the same canonical JSON: it does not depend on the order in which the different keys
-- of an object, at any depth, were put in, nor on further keys with an undefined value.
pub canonical_json-Reordered :
    (p : Platform) (v w : Json) → Reordered v w → canonical_json p v ≡ canonical_json p w
canonical_json-Reordered p v w same = same_text p v w same
