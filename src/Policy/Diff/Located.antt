-- ===== src/Policy/Diff/Located.antt =====
-- Where in two objects a change lies: locations, and what diff reports about them.
use k8sgpt_operator.Common.{
  ℕ, zero, suc, ◌+◌, String, ◌≡◌, inl, inr, refl, ap, ◌∙◌, false, List, [], ◌∷◌, ◌==◌, Bool-cases,
  arith, or_else, lookup, lookup-nil, lookup_here, lookup_other, All, All-append,
}
use k8sgpt_operator.Text.{◌<>◌, decimal}
use k8sgpt_operator.Json.{
  Json, Elems, Members, null, arr, obj, nil, cons, end, member, elems, get, get-end, get_here,
  get_other,
}
use k8sgpt_operator.Policy.Types.{Change}
use k8sgpt_operator.Policy.Paths.{escape}
use k8sgpt_operator.Policy.Diff.{
  equal, diff, diff_leaf, diff_keys, diff_items, diff_members, diff_elems,
}

pub data Step : Type 0 where
  key : String → Step
  index : ℕ → Step

-- The JSON pointer of a location below `path`.
abbrev pub pointer : String → List Step → String
pointer path [] = path
pointer path (key k ∷ steps) = pointer (path <> "/" <> escape k) steps
pointer path (index i ∷ steps) = pointer (path <> "/" <> decimal i) steps

abbrev pub item : ℕ → List Json → Json
item i [] = null
item zero (v ∷ vs) = v
item (suc i) (v ∷ vs) = item i vs

-- The value at a location, `null` where there is none.
abbrev pub value_at : List Step → Json → Json
value_at [] v = v
value_at (key k ∷ steps) (obj ms) = value_at steps (get k ms)
value_at (index i ∷ steps) (arr xs) = value_at steps (item i (elems xs))
value_at _ _ = null

-- A change that names a location, both values there, and is no mere change of the text.
pub record IsReported (old : Json) (path : String) (new : Json) (c : Change) : Type 0 where
  pub steps : List Step
  pub path_here : c.path ≡ pointer path steps
  pub old_here : value_at steps old ≡ c.old
  pub new_here : value_at steps new ≡ c.new
  pub differs : equal c.old c.new ≡ false

diff_leaf_sound :
    (old : Json) (path : String) (new : Json)
    → All (IsReported old path new) (diff_leaf old path new)
unfolding diff_leaf
diff_leaf_sound old path new = elim (Bool-cases (equal old new)) [
  | inl same ↦ rw same tt
  | inr other ↦ rw other (
    record { steps = []; path_here = refl; old_here = refl; new_here = refl; differs = other },
    tt,
  )
]

-- A location below a key or an index.
below_key :
    (ms ns : Members) (path k : String) (cs : List Change)
    → All (IsReported (get k ms) (path <> "/" <> escape k) (get k ns)) cs
    → All (IsReported (obj ms) path (obj ns)) cs
below_key ms ns path k [] h = tt
below_key ms ns path k (c ∷ cs) (r, h) = (
  record {
    steps = key k ∷ r.steps;
    path_here = r.path_here;
    old_here = r.old_here;
    new_here = r.new_here;
    differs = r.differs;
  },
  below_key ms ns path k cs h,
)

-- A change below the item `from + at` of two lists that begin at `from`.
record IsItem (xs ys : List Json) (path : String) (from : ℕ) (c : Change) : Type 0 where
  at : ℕ
  steps : List Step
  path_here : c.path ≡ pointer path (index (from + at) ∷ steps)
  old_here : value_at steps (item at xs) ≡ c.old
  new_here : value_at steps (item at ys) ≡ c.new
  differs : equal c.old c.new ≡ false

first_item :
    (xs ys : List Json) (path : String) (from : ℕ) (cs : List Change)
    → All (IsReported (item 0 xs) (path <> "/" <> decimal from) (item 0 ys)) cs
    → All (IsItem xs ys path from) cs
first_item xs ys path from [] h = tt
first_item xs ys path from (c ∷ cs) (r, h) = (
  record {
    at = 0;
    steps = r.steps;
    path_here = r.path_here ∙ ap (λ i. pointer (path <> "/" <> decimal i) r.steps) (omega arith);
    old_here = r.old_here;
    new_here = r.new_here;
    differs = r.differs;
  },
  first_item xs ys path from cs h,
)

-- The lists without their first items.
later_item :
    (xs ys xs' ys' : List Json) (path : String) (from : ℕ) (cs : List Change)
    → ((i : ℕ) → item (suc i) xs ≡ item i xs')
    → ((i : ℕ) → item (suc i) ys ≡ item i ys')
    → All (IsItem xs' ys' path (suc from)) cs
    → All (IsItem xs ys path from) cs
later_item xs ys xs' ys' path from [] p q h = tt
later_item xs ys xs' ys' path from (c ∷ cs) p q (r, h) = (
  record {
    at = suc r.at;
    steps = r.steps;
    path_here = r.path_here ∙ ap (λ i. pointer (path <> "/" <> decimal i) r.steps) (omega arith);
    old_here = ap (value_at r.steps) (p r.at) ∙ r.old_here;
    new_here = ap (value_at r.steps) (q r.at) ∙ r.new_here;
    differs = r.differs;
  },
  later_item xs ys xs' ys' path from cs p q h,
)

from_items :
    (xs ys : Elems) (path : String) (cs : List Change)
    → All (IsItem (elems xs) (elems ys) path 0) cs
    → All (IsReported (arr xs) path (arr ys)) cs
from_items xs ys path [] h = tt
from_items xs ys path (c ∷ cs) (r, h) = (
  record {
    steps = index r.at ∷ r.steps;
    path_here = r.path_here ∙ ap (λ i. pointer (path <> "/" <> decimal i) r.steps) (omega arith);
    old_here = r.old_here;
    new_here = r.new_here;
    differs = r.differs;
  },
  from_items xs ys path cs h,
)

added_items :
    (ys : List Json) (path : String) (i : ℕ) → All (IsItem [] ys path i) (diff_items [] path i ys)
unfolding diff_items
added_items [] path i = tt
added_items (y ∷ ys) path i =
    All-append (IsItem [] (y ∷ ys) path i) _ _
      (first_item [] (y ∷ ys) path i _ (diff_leaf_sound null _ y))
      (later_item [] (y ∷ ys) [] ys path i _ (λ j. refl) (λ j. refl) (added_items ys path (suc i)))

keys_sound :
    (ms ns : Members) (path : String) (ks : List String)
    → ((k p : String) (new : Json)
        → All
            (IsReported (get k ms) p new)
            (or_else (diff_leaf null) (lookup k (diff_members ms)) p new))
    → All (IsReported (obj ms) path (obj ns)) (diff_keys (diff_members ms) path ns ks)
unfolding diff_keys
keys_sound ms ns path [] h = tt
keys_sound ms ns path (k ∷ ks) h =
    All-append (IsReported (obj ms) path (obj ns)) _ _
      (below_key ms ns path k _ (h k (path <> "/" <> escape k) (get k ns)))
      (keys_sound ms ns path ks h)

mutual
  unfolding diff diff_items

  reported :
      (old : Json) (path : String) (new : Json) → All (IsReported old path new) (diff old path new)
  reported (obj ms) path (obj ns) = keys_sound ms ns path _ (members-IsReported ms)
  reported (arr xs) path (arr ys) = from_items xs ys path _ (elems_reported xs path 0 (elems ys))
  reported old path new = diff_leaf_sound old path new

  members-IsReported :
      (ms : Members) (k path : String) (new : Json)
      → All
          (IsReported (get k ms) path new)
          (or_else (diff_leaf null) (lookup k (diff_members ms)) path new)
  members-IsReported end k path new = rw (get-end, lookup-nil) (diff_leaf_sound null path new)
  members-IsReported (member j v ms) k path new = elim (Bool-cases (j == k)) [
    | inl here ↦
        rw (get_here j k v ms here, lookup_here j k (diff v) (diff_members ms) here)
          (reported v path new)
    | inr other ↦
        rw (get_other j k v ms other, lookup_other j k (diff v) (diff_members ms) other)
          (members-IsReported ms k path new)
  ]

  elems_reported :
      (xs : Elems) (path : String) (i : ℕ) (ys : List Json)
      → All (IsItem (elems xs) ys path i) (diff_items (diff_elems xs) path i ys)
  elems_reported nil path i ys = added_items ys path i
  elems_reported (cons v vs) path i [] =
      All-append (IsItem (v ∷ elems vs) [] path i) _ _
        (first_item (v ∷ elems vs) [] path i _ (reported v _ null))
        (later_item (v ∷ elems vs) [] (elems vs) [] path i _ (λ j. refl) (λ j. refl)
          (elems_reported vs path (suc i) []))
  elems_reported (cons v vs) path i (y ∷ ys) =
      All-append (IsItem (v ∷ elems vs) (y ∷ ys) path i) _ _
        (first_item (v ∷ elems vs) (y ∷ ys) path i _ (reported v _ y))
        (later_item (v ∷ elems vs) (y ∷ ys) (elems vs) ys path i _ (λ j. refl) (λ j. refl)
          (elems_reported vs path (suc i) ys))

-- Every change that diff reports names a location by its JSON pointer, carries the two values
-- that stand there, and these differ.
pub diff-All-IsReported :
    (old : Json) (path : String) (new : Json) → All (IsReported old path new) (diff old path new)
diff-All-IsReported = reported
