-- ===== src/Policy/Diff/Complete.antt =====
-- What diff does not report is equal.
use k8sgpt_operator.Common.{
  ℕ, zero, suc, ◌+◌, String, ◌≡◌, ◌⊎◌, inl, inr, refl, sym, ap, subst, subst₂, ◌∙◌, Bool, true,
  false, List, [], ◌∷◌, ◌++◌, ◌==◌, eq_iff, Bool-cases, arith, or_else, lookup, lookup-nil,
  lookup_here, lookup_other, Any, Any-append_left, Any-append_right,
}
use k8sgpt_operator.Text.{◌<>◌, decimal}
use k8sgpt_operator.Json.{
  Json, Elems, Members, null, bool, num, str, arr, obj, nil, cons, end, member, elems, keys, get,
  get-end, get_here, get_other,
}
use k8sgpt_operator.Policy.Types.{Change}
use k8sgpt_operator.Policy.Paths.{escape}
use k8sgpt_operator.Policy.Diff.{
  equal, diff, diff_leaf, diff_keys, diff_items, diff_members, diff_elems, sorted_keys, insert_key,
}
use k8sgpt_operator.Policy.Diff.Located.{Step, key, index, pointer, item, value_at}

-- What diff does at a key or an item is diff of the values there.
pub members-eq-diff :
    (ms : Members) (k path : String) (new : Json)
    → or_else (diff_leaf null) (lookup k (diff_members ms)) path new ≡ diff (get k ms) path new
unfolding diff
members-eq-diff end k path new = rw (get-end, lookup-nil)
members-eq-diff (member j v ms) k path new = elim (Bool-cases (j == k)) [
  | inl here ↦ rw (get_here j k v ms here, lookup_here j k (diff v) (diff_members ms) here)
  | inr other ↦
      rw (get_other j k v ms other, lookup_other j k (diff v) (diff_members ms) other)
        (members-eq-diff ms k path new)
]

abbrev HasKey : String → List String → Type 0
HasKey k = Any (λ j. j ≡ k)

insert_key-HasKey :
    (k j : String) (ks : List String) → HasKey k (j ∷ ks) → HasKey k (insert_key j ks)
unfolding insert_key
insert_key-HasKey k j [] h = h
insert_key-HasKey k j (i ∷ ks) h = ground (arith, eq_iff i j, insert_key-HasKey k j ks)

sorted_keys-HasKey : (k : String) (ks : List String) → HasKey k ks → HasKey k (sorted_keys ks)
unfolding sorted_keys
sorted_keys-HasKey k [] h = h
sorted_keys-HasKey k (j ∷ ks) (inl e) = insert_key-HasKey k j (sorted_keys ks) (inl e)
sorted_keys-HasKey k (j ∷ ks) (inr h) =
    insert_key-HasKey k j (sorted_keys ks) (inr (sorted_keys-HasKey k ks h))

get-cases : (k : String) (ms : Members) → HasKey k (keys ms) ⊎ (get k ms ≡ null)
get-cases k end = inr (get-end k)
get-cases k (member j v ms) = elim (Bool-cases (j == k)) [
  | inl here ↦ inl (inl ((eq_iff j k).0 here))
  | inr other ↦ elim (get-cases k ms) [
    | inl h ↦ inl (inr h)
    | inr n ↦ inr (get_other j k v ms other ∙ n)
  ]
]

module _ (P : Change → Type 0) where
  key_reached :
      (ms ns : Members) (path k : String) (ks : List String)
      → HasKey k ks
      → Any P (diff (get k ms) (path <> "/" <> escape k) (get k ns))
      → Any P (diff_keys (diff_members ms) path ns ks)
  unfolding diff_keys
  key_reached ms ns path k [] h a = absurd h
  key_reached ms ns path k (j ∷ ks) (inl e) a =
      Any-append_left P
        (or_else (diff_leaf null) (lookup j (diff_members ms)) (path <> "/" <> escape j) (get j ns))
        (diff_keys (diff_members ms) path ns ks)
        (subst (Any P) (sym (members-eq-diff ms j (path <> "/" <> escape j) (get j ns)))
          (subst (λ x. Any P (diff (get x ms) (path <> "/" <> escape x) (get x ns))) (sym e) a))
  key_reached ms ns path k (j ∷ ks) (inr h) a =
      Any-append_right P
        (or_else (diff_leaf null) (lookup j (diff_members ms)) (path <> "/" <> escape j) (get j ns))
        _ (key_reached ms ns path k ks h a)

  nothing_missing : (path : String) → Any P (diff null path null) → ⊥
  unfolding diff diff_leaf equal
  nothing_missing path a = a

  below_obj :
      (ms ns : Members) (path k : String)
      → Any P (diff (get k ms) (path <> "/" <> escape k) (get k ns))
      → Any P (diff (obj ms) path (obj ns))
  unfolding diff
  below_obj ms ns path k a = elim (get-cases k ms) [
    | inl h ↦
        key_reached ms ns path k _
          (sorted_keys-HasKey k _ (Any-append_left (λ j. j ≡ k) (keys ms) (keys ns) h)) a
    | inr no_old ↦ elim (get-cases k ns) [
      | inl h ↦
          key_reached ms ns path k _
            (sorted_keys-HasKey k _ (Any-append_right (λ j. j ≡ k) (keys ms) (keys ns) h)) a
      | inr no_new ↦ absurd (
          nothing_missing (path <> "/" <> escape k)
            (subst₂ (λ x y. Any P (diff x (path <> "/" <> escape k) y)) no_old no_new a))
    ]
  ]

  -- The same with the path of the item given apart.
  below_items :
      (xs : Elems) (ys : List Json) (path : String) (from i at : ℕ)
      → from + i ≡ at
      → Any P (diff (item i (elems xs)) (path <> "/" <> decimal at) (item i ys))
      → Any P (diff_items (diff_elems xs) path from ys)
  unfolding diff_items diff
  below_items nil [] path from i at e a = absurd (nothing_missing _ a)
  below_items nil (y ∷ ys) path from zero at e a =
      Any-append_left P (diff_leaf null (path <> "/" <> decimal from) y) _
        (subst (λ n. Any P (diff null (path <> "/" <> decimal n) y)) (omega arith) a)
  below_items nil (y ∷ ys) path from (suc i) at e a =
      Any-append_right P (diff_leaf null (path <> "/" <> decimal from) y) _
        (below_items nil ys path (suc from) i at (omega arith) a)
  below_items (cons x xs) [] path from zero at e a =
      Any-append_left P (diff x (path <> "/" <> decimal from) null) _
        (subst (λ n. Any P (diff x (path <> "/" <> decimal n) null)) (omega arith) a)
  below_items (cons x xs) [] path from (suc i) at e a =
      Any-append_right P (diff x (path <> "/" <> decimal from) null) _
        (below_items xs [] path (suc from) i at (omega arith) a)
  below_items (cons x xs) (y ∷ ys) path from zero at e a =
      Any-append_left P (diff x (path <> "/" <> decimal from) y) _
        (subst (λ n. Any P (diff x (path <> "/" <> decimal n) y)) (omega arith) a)
  below_items (cons x xs) (y ∷ ys) path from (suc i) at e a =
      Any-append_right P (diff x (path <> "/" <> decimal from) y) _
        (below_items xs ys path (suc from) i at (omega arith) a)

below_arr :
    (P : Change → Type 0) (xs ys : Elems) (path : String) (i : ℕ)
    → Any P (diff (item i (elems xs)) (path <> "/" <> decimal i) (item i (elems ys)))
    → Any P (diff (arr xs) path (arr ys))
unfolding diff
below_arr P xs ys path i a = below_items P xs (elems ys) path 0 i i (omega arith) a

-- Neither two objects nor two lists: diff compares such a pair as a whole.
abbrev pub is_leaf_pair : Json → Json → Bool
is_leaf_pair (obj ms) (obj ns) = false
is_leaf_pair (arr xs) (arr ys) = false
is_leaf_pair _ _ = true

-- The change stands at the location or above it.
abbrev pub Covers : String → List Step → Change → Type 0
Covers path steps c =
    (above : List Step) × (below : List Step) × (steps ≡ above ++ below)
    × (c.path ≡ pointer path above)

diff_of_leaf :
    (old : Json) (path : String) (new : Json)
    → is_leaf_pair old new ≡ true
    → diff old path new ≡ diff_leaf old path new
unfolding diff
diff_of_leaf (obj ms) path (obj ns) h = cc
diff_of_leaf (arr xs) path (arr ys) h = cc
diff_of_leaf old path new h = refl

Any-weaken :
    (P Q : Change → Type 0) → ((c : Change) → P c → Q c) → (cs : List Change) → Any P cs → Any Q cs
Any-weaken P Q f [] h = h
Any-weaken P Q f (c ∷ cs) (inl p) = inl (f c p)
Any-weaken P Q f (c ∷ cs) (inr h) = inr (Any-weaken P Q f cs h)

Covers-here :
    (old : Json) (path : String) (new : Json) (steps : List Step)
    → is_leaf_pair old new ≡ true
    → equal old new ≡ false
    → Any (Covers path steps) (diff old path new)
unfolding diff_leaf
Covers-here old path new steps leaf other =
    subst (Any (Covers path steps)) (sym (diff_of_leaf old path new leaf))
      (rw other (inl ([], steps, refl, refl)))

Covers-above :
    (step : Step) (steps : List Step) (path below : String) (cs : List Change)
    → ((above : List Step) → pointer path (step ∷ above) ≡ pointer below above)
    → Any (Covers below steps) cs
    → Any (Covers path (step ∷ steps)) cs
Covers-above step steps path below cs h =
    Any-weaken (Covers below steps) (Covers path (step ∷ steps))
      (λ c (above, under, split, here).
        (step ∷ above, under, ap (λ l. step ∷ l) split, here ∙ sym (h above)))
      cs

-- Below two equal scalars there is nothing.
both_null :
    (step : Step) (steps : List Step) (old new : Json)
    → equal old new ≡ true
    → is_leaf_pair old new ≡ true
    → equal (value_at (step ∷ steps) old) (value_at (step ∷ steps) new) ≡ true
unfolding equal
both_null (key k) steps null null e l = refl
both_null (key k) steps (bool a) (bool b) e l = refl
both_null (key k) steps (num a) (num b) e l = refl
both_null (key k) steps (str a) (str b) e l = refl
both_null (key k) steps (arr xs) (arr ys) e l = cc
both_null (key k) steps (obj ms) (obj ns) e l = cc
both_null (key k) steps old new e l = cc
both_null (index i) steps null null e l = refl
both_null (index i) steps (bool a) (bool b) e l = refl
both_null (index i) steps (num a) (num b) e l = refl
both_null (index i) steps (str a) (str b) e l = refl
both_null (index i) steps (arr xs) (arr ys) e l = cc
both_null (index i) steps (obj ms) (obj ns) e l = cc
both_null (index i) steps old new e l = cc

-- Two values that differ somewhere below are compared there, unless they differ as a whole.
pub no_difference_missed :
    (steps : List Step) (old : Json) (path : String) (new : Json)
    → is_leaf_pair (value_at steps old) (value_at steps new) ≡ true
    → equal (value_at steps old) (value_at steps new) ≡ false
    → Any (Covers path steps) (diff old path new)
unfolding equal
no_difference_missed [] old path new leaf other = Covers-here old path new [] leaf other
no_difference_missed (key k ∷ steps) (obj ms) path (obj ns) leaf other =
    below_obj (Covers path (key k ∷ steps)) ms ns path k (
      Covers-above (key k) steps path (path <> "/" <> escape k) _ (λ above. refl)
        (no_difference_missed steps (get k ms) (path <> "/" <> escape k) (get k ns) leaf other))
no_difference_missed (index i ∷ steps) (arr xs) path (arr ys) leaf other =
    below_arr (Covers path (index i ∷ steps)) xs ys path i (
      Covers-above (index i) steps path (path <> "/" <> decimal i) _ (λ above. refl)
        (no_difference_missed steps (item i (elems xs)) (path <> "/" <> decimal i)
          (item i (elems ys)) leaf other))
no_difference_missed (index i ∷ steps) (obj ms) path (obj ns) leaf other = cc
no_difference_missed (key k ∷ steps) (arr xs) path (arr ys) leaf other = cc
no_difference_missed (step ∷ steps) old path new leaf other = elim (Bool-cases (equal old new)) [
  | inl same ↦ cc (both_null step steps old new same refl)
  | inr differ ↦ Covers-here old path new (step ∷ steps) refl differ
]
