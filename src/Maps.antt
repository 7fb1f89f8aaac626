-- ===== src/Maps.antt =====
-- Go's maps with `string` keys, which are lists of entries, and their laws.
use k8sgpt_operator.Common.{
  String, List, [], ◌∷◌, Option, none, some, lookup, ◌≡◌, refl, inl, inr, arith, eq_iff, ◌==◌,
  if◌then◌else◌, Bool-cases,
}

-- m[key] = value
unfoldable pub set_entry : {A : Type 0} → String → A → List (String × A) → List (String × A)
set_entry key a [] = (key, a) ∷ []
set_entry key a ((other, b) ∷ entries) =
    let rest = set_entry key a entries in
    if other == key then (key, a) ∷ entries else (other, b) ∷ rest

-- The loop over the entries of another map, in which no key stands twice: Go goes through them in
-- any order, here from the last to the first.
unfoldable pub set_entries :
    {A : Type 0} → List (String × A) → List (String × A) → List (String × A)
set_entries [] entries = entries
set_entries ((key, a) ∷ more) entries = set_entry key a (set_entries more entries)

abbrev pub first_of : {A : Type 0} → Option A → Option A → Option A
first_of none o = o
first_of (some a) o = some a

module _ {A : Type 0} where
  pub lookup-set_entry :
      (k j : String) (v : A) (m : List (String × A))
      → lookup j (set_entry k v m) ≡ (if k == j then some v else lookup j m)
  unfolding lookup set_entry
  lookup-set_entry k j v [] = refl
  lookup-set_entry k j v ((i, w) ∷ m) =
      ground (arith, eq_iff k j, eq_iff i k, eq_iff i j, lookup-set_entry k j v m)

  -- The entries that were set come first.
  pub lookup-set_entries :
      (j : String) (es m : List (String × A))
      → lookup j (set_entries es m) ≡ first_of (lookup j es) (lookup j m)
  unfolding lookup set_entries
  lookup-set_entries j [] m = refl
  lookup-set_entries j ((k, v) ∷ es) m = elim (Bool-cases (k == j)) [
    | inl same ↦ rw (lookup-set_entry, same) refl
    | inr other ↦ rw (lookup-set_entry, other) (lookup-set_entries j es m)
  ]
