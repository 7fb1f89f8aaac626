-- ===== src/Json.antt =====
-- JSON values as encoding/json decodes them into `any`. A number is kept as its literal.
use k8sgpt_operator.Common.{
  String, Bool, true, false, ◌≡◌, refl, List, [], ◌∷◌, Option, none, some, ◌==◌, if◌then◌else◌,
}

mutual
  pub data Json : Type 0 where
    null : Json
    bool : Bool → Json
    num : String → Json
    str : String → Json
    arr : Elems → Json
    obj : Members → Json

  pub data Elems : Type 0 where
    nil : Elems
    cons : Json → Elems → Elems

  pub data Members : Type 0 where
    end : Members
    member : String → Json → Members → Members

abbrev pub elems : Elems → List Json
elems nil = []
elems (cons v vs) = v ∷ elems vs

abbrev pub keys : Members → List String
keys end = []
keys (member k v ms) = k ∷ keys ms

-- m[key] with the second result
unfoldable pub find : String → Members → Option Json
find key end = none
find key (member k v ms) = if k == key then some v else find key ms

-- m[key]: `nil` where the key is missing
unfoldable pub get : String → Members → Json
get key ms = elim (find key ms) [ none ↦ null | some v ↦ v ]

-- delete(m, key)
unfoldable pub remove : String → Members → Members
remove key end = end
remove key (member k v ms) = let rest = remove key ms in if k == key then rest else member k v rest

-- m[key] = v
unfoldable pub put : String → Json → Members → Members
put key w end = member key w end
put key w (member k v ms) = if k == key then member k w ms else member k v (put key w ms)

-- m[key] = f(m[key]) for a key that is present
unfoldable pub update : String → (Json → Json) → Members → Members
update key f end = end
update key f (member k v ms) =
    let rest = update key f ms in if k == key then member k (f v) ms else member k v rest

module _ (j k : String) (v : Json) (ms : Members) where
  pub find_here : (j == k) ≡ true → find k (member j v ms) ≡ some v
  unfolding find
  find_here h = rw h

  pub find_other : (j == k) ≡ false → find k (member j v ms) ≡ find k ms
  unfolding find
  find_other h = rw h

  pub get_here : (j == k) ≡ true → get k (member j v ms) ≡ v
  unfolding get find
  get_here h = rw (h, get, find)

  pub get_other : (j == k) ≡ false → get k (member j v ms) ≡ get k ms
  unfolding get find
  get_other h = rw (h, get, find)

pub get-end : (k : String) → get k end ≡ null
unfolding get find
get-end k = refl
