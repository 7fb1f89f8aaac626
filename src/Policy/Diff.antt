-- ===== src/Policy/Diff.antt =====
-- The semantic difference of two objects.
pub mod Refl
pub mod Complete
pub mod Located
use Prim.Native.String.{compare}
use Prim.Native.Nat.{Ordering}
use k8sgpt_operator.Common.{
  ℕ, suc, String, Bool, true, false, not, ◌&&◌, List, [], ◌∷◌, ◌++◌, Option, none, some, lookup,
  or_else, ◌==◌, if◌then◌else◌, ◌≡◌, refl,
}
use k8sgpt_operator.Text.{◌<>◌, decimal}
use k8sgpt_operator.Json.{
  Json, Elems, Members, null, bool, num, str, arr, obj, nil, cons, end, member, elems, keys, get,
  find, remove, update,
}
use k8sgpt_operator.Kube.{Machinery}
use k8sgpt_operator.Policy.Types.{Change}
use k8sgpt_operator.Policy.Paths.{escape, path_rules}

-- deepCopy: through the JSON text and back, which makes every number a float64.
unfoldable mutual
  pub deep_copy : Json → (String → String) → Json
  deep_copy null f = null
  deep_copy (bool b) f = bool b
  deep_copy (num n) f = num (f n)
  deep_copy (str s) f = str s
  deep_copy (arr xs) f = arr (copy_elems xs f)
  deep_copy (obj ms) f = obj (copy_members ms f)

  pub copy_elems : Elems → (String → String) → Elems
  copy_elems nil f = nil
  copy_elems (cons v vs) f = cons (deep_copy v f) (copy_elems vs f)

  pub copy_members : Members → (String → String) → Members
  copy_members end f = end
  copy_members (member k v ms) f = member k (deep_copy v f) (copy_members ms f)

unfoldable pub remove_all : List String → Members → Members
remove_all [] ms = ms
remove_all (k ∷ ks) ms = remove_all ks (remove k ms)

abbrev pub volatile_keys : List String
volatile_keys =
    "uid" ∷ "resourceVersion" ∷ "generation" ∷ "creationTimestamp" ∷ "deletionTimestamp"
    ∷ "managedFields" ∷ "selfLink" ∷ []

-- The type assertion `.(map[string]any)` on the metadata, and the loop of deletes.
unfoldable pub strip_metadata : Json → Json
strip_metadata (obj ms) = obj (remove_all volatile_keys ms)
strip_metadata v = v

unfoldable pub normalized : Machinery → Members → Json
normalized k object =
    obj (update "metadata" strip_metadata (remove "status" (copy_members object k.float64)))

-- sort.Strings over the keys of a set.
abbrev text_lt : String → String → Bool
text_lt a b = elim (compare a b) [ Ordering.lt ↦ true | _ ↦ false ]

unfoldable pub insert_key : String → List String → List String
insert_key k [] = k ∷ []
insert_key k (j ∷ ks) =
    let later = j ∷ insert_key k ks in
    if j == k then j ∷ ks else if text_lt k j then k ∷ j ∷ ks else later

unfoldable pub sorted_keys : List String → List String
sorted_keys [] = []
sorted_keys (k ∷ ks) = insert_key k (sorted_keys ks)

abbrev same_bool : Bool → Bool → Bool
same_bool true b = b
same_bool false b = not b

-- equal: the JSON texts of two values agree, where an object's keys are sorted.
abbrev SameText : Type 0
SameText = List (String × (Json → Bool))

abbrev no_value : Json → Bool
no_value v = false

unfoldable pub same_value : Option (Json → Bool) → Option Json → Bool
same_value d none = false
same_value d (some v) = or_else no_value d v

unfoldable pub equal_keys : SameText → Members → List String → Bool
equal_keys same ns [] = true
equal_keys same ns (k ∷ ks) = same_value (lookup k same) (find k ns) && equal_keys same ns ks

unfoldable mutual
  pub equal : Json → Json → Bool
  equal null null = true
  equal (bool a) (bool b) = same_bool a b
  equal (num a) (num b) = a == b
  equal (str a) (str b) = a == b
  equal (arr xs) (arr ys) = equal_elems xs ys
  equal (obj ms) (obj ns) = equal_keys (equal_members ms) ns (sorted_keys (keys ms ++ keys ns))
  equal _ _ = false

  pub equal_elems : Elems → Elems → Bool
  equal_elems nil nil = true
  equal_elems (cons x xs) (cons y ys) = equal x y && equal_elems xs ys
  equal_elems _ _ = false

  pub equal_members : Members → SameText
  equal_members end = []
  equal_members (member k v ms) = (k, equal v) ∷ equal_members ms

-- The last lines of diff.
unfoldable pub diff_leaf : Json → String → Json → List Change
diff_leaf old path new =
    if equal old new then [] else record { path = path; old = old; new = new } ∷ []

-- What diff does at a value of the old object, waiting for the path and the new value.
abbrev pub Differ : Type 0
Differ = String → Json → List Change

-- The loop over the sorted keys; a key that is missing has the value nil.
unfoldable pub diff_keys : List (String × Differ) → String → Members → List String → List Change
diff_keys olds path ns [] = []
diff_keys olds path ns (k ∷ ks) =
    or_else (diff_leaf null) (lookup k olds) (path <> "/" <> escape k) (get k ns)
    ++ diff_keys olds path ns ks

-- The loop over the indexes of the longer list.
unfoldable pub diff_items : List Differ → String → ℕ → List Json → List Change
diff_items [] path i [] = []
diff_items (d ∷ ds) path i [] = d (path <> "/" <> decimal i) null ++ diff_items ds path (suc i) []
diff_items [] path i (y ∷ ys) =
    diff_leaf null (path <> "/" <> decimal i) y ++ diff_items [] path (suc i) ys
diff_items (d ∷ ds) path i (y ∷ ys) =
    d (path <> "/" <> decimal i) y ++ diff_items ds path (suc i) ys

unfoldable mutual
  pub diff : Json → String → Json → List Change
  diff (obj ms) path (obj ns) =
      diff_keys (diff_members ms) path ns (sorted_keys (keys ms ++ keys ns))
  diff (arr xs) path (arr ys) = diff_items (diff_elems xs) path 0 (elems ys)
  diff old path new = diff_leaf old path new

  pub diff_members : Members → List (String × Differ)
  diff_members end = []
  diff_members (member k v ms) = (k, diff v) ∷ diff_members ms

  pub diff_elems : Elems → List Differ
  diff_elems nil = []
  diff_elems (cons v vs) = diff v ∷ diff_elems vs

-- What a run of these functions opens.
unfoldable pub diff_rules : Unit {0}
unfolding path_rules lookup find get remove update deep_copy remove_all strip_metadata normalized
    insert_key sorted_keys same_value equal_keys equal diff_leaf diff_keys diff_items diff
diff_rules = tt
