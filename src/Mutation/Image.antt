-- ===== src/Mutation/Image.antt =====
-- What setContainerImage changes.
use k8sgpt_operator.Common.{
  String, true, false, List, [], ◌∷◌, ◌++◌, some, ◌≡◌, ◌≢◌, refl, sym, ap, ◌∙◌, inl, inr,
  Bool-cases, Option-cases, ◌==◌, arith, eq_iff, subst,
}
use k8sgpt_operator.Json.{
  Json, Members, null, bool, num, str, arr, obj, end, member, get, put, get_here, get_other,
}
use k8sgpt_operator.Mutation.Proposal.{is_text, with_image, set_first}

-- The value that was put is there.
pub get-put : (key : String) (v : Json) (ms : Members) → get key (put key v ms) ≡ v
unfolding put
get-put key v end = get_here key key v end ((eq_iff key key).1 refl)
get-put key v (member k w ms) = elim (Bool-cases (k == key)) [
  | inl e ↦ rw (e, put) (get_here k key v ms e)
  | inr e ↦ rw (e, put) (get_other k key w (put key v ms) e ∙ get-put key v ms)
]

-- Every other value is as it was.
pub get-put_other :
    (key other : String) (v : Json) (ms : Members)
    → other ≢ key
    → get other (put key v ms) ≡ get other ms
unfolding put
get-put_other key other v end n = get_other key other v end (ground (arith, eq_iff key other))
get-put_other key other v (member k w ms) n = elim (Bool-cases (k == key)) [
  | inl e ↦
      let apart : (k == other) ≡ false = ground (arith, eq_iff k key, eq_iff k other) in
      rw (e, put) (get_other k other v ms apart ∙ sym (get_other k other w ms apart))
  | inr e ↦ elim (Bool-cases (k == other)) [
    | inl f ↦ rw (e, put) (get_here k other w (put key v ms) f ∙ sym (get_here k other w ms f))
    | inr f ↦
        rw (e, put)
          (get_other k other w (put key v ms) f
            ∙ get-put_other key other v ms n
            ∙ sym (get_other k other w ms f))
  ]
]

-- One container of the name has another image, and nothing else differs.
pub record IsOneImage (name image : String) (old new : List Json) : Type 0 where
  pub front : List Json
  pub container : Members
  pub changed : Members
  pub back : List Json
  pub old_is : old ≡ front ++ obj container ∷ back
  pub new_is : new ≡ front ++ obj changed ∷ back
  pub named : get "name" container ≡ str name
  pub image_set : get "image" changed ≡ str image
  pub others_kept : (key : String) → key ≢ "image" → get key changed ≡ get key container

is_text_sound : (v : Json) (name : String) → is_text v name ≡ true → v ≡ str name
is_text_sound (str s) name h = ap str ((eq_iff s name).0 h)
is_text_sound null name h = cc
is_text_sound (bool b) name h = cc
is_text_sound (num n) name h = cc
is_text_sound (arr xs) name h = cc
is_text_sound (obj ms) name h = cc

with_image-IsOneImage :
    (name image : String) (v w : Json) (vs : List Json)
    → with_image name image v ≡ some w
    → IsOneImage name image (v ∷ vs) (w ∷ vs)
unfolding with_image
with_image-IsOneImage name image (obj ms) w vs h =
    elim (Bool-cases (is_text (get "name" ms) name)) [
      | inr e ↦ cc (rw e at h)
      | inl e ↦
          let h' = rw e at h in
          let same : obj (put "image" (str image) ms) ≡ w = cc in
          record {
            front = [];
            container = ms;
            changed = put "image" (str image) ms;
            back = vs;
            old_is = refl;
            new_is = ap (λ x. x ∷ vs) (sym same);
            named = is_text_sound (get "name" ms) name e;
            image_set = get-put "image" (str image) ms;
            others_kept = λ key n. get-put_other "image" key (str image) ms n;
          }
    ]
with_image-IsOneImage name image null w vs h = cc
with_image-IsOneImage name image (bool b) w vs h = cc
with_image-IsOneImage name image (num n) w vs h = cc
with_image-IsOneImage name image (str s) w vs h = cc
with_image-IsOneImage name image (arr xs) w vs h = cc

IsOneImage-behind :
    (name image : String) (v : Json) (old new : List Json)
    → IsOneImage name image old new
    → IsOneImage name image (v ∷ old) (v ∷ new)
IsOneImage-behind name image v old new h = record {
  front = v ∷ h.front;
  container = h.container;
  changed = h.changed;
  back = h.back;
  old_is = ap (λ l. v ∷ l) h.old_is;
  new_is = ap (λ l. v ∷ l) h.new_is;
  named = h.named;
  image_set = h.image_set;
  others_kept = h.others_kept;
}

-- Where setContainerImage finds the container in a list, exactly one container of that name gets
-- the image: its other fields and all other containers stay as they are.
pub set_first-IsOneImage :
    (name image : String) (vs ws : List Json)
    → set_first name image vs ≡ some ws
    → IsOneImage name image vs ws
unfolding set_first
set_first-IsOneImage name image [] ws h = cc
set_first-IsOneImage name image (v ∷ vs) ws h = elim (Option-cases (with_image name image v)) [
  | inr (w, e) ↦
      let h' = rw (e, set_first) at h in
      let same : w ∷ vs ≡ ws = cc in
      subst (IsOneImage name image (v ∷ vs)) same (with_image-IsOneImage name image v w vs e)
  | inl e ↦ elim (Option-cases (set_first name image vs)) [
    | inl f ↦ cc (rw (e, f, set_first) at h)
    | inr (rest, f) ↦
        let h' = rw (e, f, set_first) at h in
        let same : v ∷ rest ≡ ws = cc in
        subst (IsOneImage name image (v ∷ vs)) same
          (IsOneImage-behind name image v vs rest (set_first-IsOneImage name image vs rest f))
  ]
]
