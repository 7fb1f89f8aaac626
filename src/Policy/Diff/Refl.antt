-- ===== src/Policy/Diff/Refl.antt =====
-- A value has no difference to itself.
use k8sgpt_operator.Common.{
  String, ◌≡◌, ◌⊎◌, inl, inr, refl, Bool, true, false, List, [], ◌∷◌, ◌++◌, lookup, lookup_here,
  lookup_other, eq_iff, eq_refl, Bool-cases, ◌==◌, All, All-append, All-of_each, All-absurd,
  if-rule, if◌then◌else◌, Any,
}
use k8sgpt_operator.Json.{
  Json, Elems, Members, null, bool, num, str, arr, obj, nil, cons, end, member, keys, find,
  find_here, find_other,
}
use k8sgpt_operator.Policy.Diff.{
  equal, equal_elems, equal_members, equal_keys, same_value, insert_key, sorted_keys, diff, text_lt,
}
use k8sgpt_operator.Policy.Diff.Located.{IsReported, value_at, diff-All-IsReported}

-- The comparison at one key.
same_at : Members → Members → String → Bool
same_at ms ns k = same_value (lookup k (equal_members ms)) (find k ns)

abbrev IsKey : Members → String → Type 0
IsKey ms k = Any (λ j. j ≡ k) (keys ms)

later_key :
    (k j : String) (ks : List String)
    → (j ≡ k) ⊎ Any (λ i. i ≡ k) ks
    → (j ≡ k → ⊥)
    → Any (λ i. i ≡ k) ks
later_key k j ks (inl e) n = absurd (n e)
later_key k j ks (inr h) n = h

insert_key-All :
    (P : String → Type 0) (k : String) (ks : List String) → P k → All P ks → All P (insert_key k ks)
unfolding insert_key
insert_key-All P k [] p h = (p, tt)
insert_key-All P k (j ∷ ks) p (q, h) =
    if-rule (All P) (j == k) (j ∷ ks) (if text_lt k j then k ∷ j ∷ ks else j ∷ insert_key k ks)
      (q, h)
      (if-rule (All P) (text_lt k j) (k ∷ j ∷ ks) (j ∷ insert_key k ks) (p, (q, h))
        (q, insert_key-All P k ks p h))

sorted_keys-All : (P : String → Type 0) (ks : List String) → All P ks → All P (sorted_keys ks)
unfolding sorted_keys
sorted_keys-All P [] h = tt
sorted_keys-All P (k ∷ ks) (p, h) = insert_key-All P k (sorted_keys ks) p (sorted_keys-All P ks h)

equal_keys-All :
    (ms ns : Members) (ks : List String)
    → All (λ k. same_at ms ns k ≡ true) ks
    → equal_keys (equal_members ms) ns ks ≡ true
unfolding equal_keys same_at
equal_keys-All ms ns [] h = refl
equal_keys-All ms ns (k ∷ ks) (p, h) = rw (p, equal_keys-All ms ns ks h)

mutual
  unfolding equal same_at same_value

  equal_refl : (v : Json) → equal v v ≡ true
  equal_refl null = refl
  equal_refl (bool true) = refl
  equal_refl (bool false) = refl
  equal_refl (num n) = eq_refl n
  equal_refl (str s) = eq_refl s
  equal_refl (arr xs) = equal_elems_refl xs
  equal_refl (obj ms) =
      let each = All-of_each (λ k. same_at ms ms k ≡ true) (keys ms) (same_at_refl ms) in
      equal_keys-All ms ms _ (
        sorted_keys-All (λ k. same_at ms ms k ≡ true) (keys ms ++ keys ms)
          (All-append (λ k. same_at ms ms k ≡ true) (keys ms) (keys ms) each each))

  equal_elems_refl : (xs : Elems) → equal_elems xs xs ≡ true
  equal_elems_refl nil = refl
  equal_elems_refl (cons x xs) = rw (equal_refl x) (equal_elems_refl xs)

  same_at_refl : (ms : Members) (k : String) → IsKey ms k → same_at ms ms k ≡ true
  same_at_refl end k h = absurd h
  same_at_refl (member j v ms) k h = elim (Bool-cases (j == k)) [
    | inl here ↦
        rw (same_at, find_here j k v ms here, lookup_here j k (equal v) (equal_members ms) here)
          (equal_refl v)
    | inr other ↦
        rw (same_at, find_other j k v ms other, lookup_other j k (equal v) (equal_members ms) other)
          (same_at_refl ms k (later_key k j (keys ms) h (λ e. cc ((eq_iff j k).1 e))))
  ]

-- diff reports nothing between a value and itself.
pub diff_refl : (v : Json) (path : String) → diff v path v ≡ []
diff_refl v path =
    All-absurd (IsReported v path v) (diff v path v)
      (λ c r. cc (r.differs, r.old_here, r.new_here, equal_refl (value_at r.steps v)))
      (diff-All-IsReported v path v)
