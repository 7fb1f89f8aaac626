-- ===== src/Policy/Paths/Shape.antt =====
-- The shape of the paths that a policy for workloads allows.
use k8sgpt_operator.Common.{
  String, ◌≡◌, ◌≢◌, ◌↔◌, inl, inr, refl, sym, ap, ◌∙◌, true, false, eq_iff, Bool-cases, arith,
}
use k8sgpt_operator.Text.{
  ◌<>◌, has_prefix, has_suffix, drop_prefix, trim_prefix, trim_suffix, all_digits, text_functions,
}
use k8sgpt_operator.Text.Laws.{
  has_prefix-append, has_prefix_split, drop_prefix-append, has_suffix-append, has_suffix_split,
  has_suffix_overlap, trim_suffix-append, trim_suffix_same, has_no_number, has_no_number_sound,
  has_code-all_digits, <>_assoc,
}
use k8sgpt_operator.Policy.Paths.{image_path, middle}

-- prefix, a list index in decimal digits, "/image"
abbrev pub IsImageOf : String → String → Type 0
IsImageOf prefix path =
    (index : String) × (path ≡ prefix <> (index <> "/image"))
    × (index ≢ "")
    × (all_digits index ≡ true)

trim_prefix-append : (p s : String) → trim_prefix p (p <> s) ≡ s
unfolding trim_prefix
trim_prefix-append p s = rw (has_prefix-append p s) (drop_prefix-append p s)

middle-append : (p d : String) → middle p (p <> (d <> "/image")) ≡ d
middle-append p d = rw (trim_prefix-append p (d <> "/image")) (trim_suffix-append d "/image")

image_suffix : (p d : String) → has_suffix "/image" (p <> (d <> "/image")) ≡ true
image_suffix p d = rw (← <>_assoc p d "/image") (has_suffix-append (p <> d) "/image")

image_path-append :
    (p d : String) → d ≢ "" → all_digits d ≡ true → image_path p (p <> (d <> "/image")) ≡ true
unfolding image_path
image_path-append p d n digits =
    rw (has_prefix-append p (d <> "/image"), image_suffix p d, middle-append p d)
      (ground (arith, eq_iff d "", has_code-all_digits d))

image_path_complete : (p path : String) → IsImageOf p path → image_path p path ≡ true
image_path_complete p path (d, e, n, digits) = rw e (image_path-append p d n digits)

-- The tests of image_path that passed.
image_path_parts :
    (p path : String)
    → image_path p path ≡ true
    → (has_prefix p path ≡ true)
      × (has_suffix "/image" path ≡ true)
      × (middle p path ≢ "")
      × (all_digits (middle p path) ≡ true)
unfolding image_path
image_path_parts p path h = ground (arith, eq_iff (middle p path) "")

-- The suffix is no part of the prefix.
suffix_behind_prefix :
    (p r : String)
    → has_suffix "/image" (p <> r) ≡ true
    → trim_suffix "/image" r ≢ ""
    → all_digits (trim_suffix "/image" r) ≡ true
    → r ≡ trim_suffix "/image" r <> "/image"
suffix_behind_prefix p r h n digits = elim (Bool-cases (has_suffix "/image" r)) [
  | inl yes_suffix ↦ has_suffix_split "/image" r yes_suffix
  | inr no_suffix ↦ elim (has_suffix_overlap "/image" p r h) [
    | inl s ↦ cc
    | inr (q, e) ↦
        let same = trim_suffix_same "/image" r no_suffix in
        let number : all_digits r ≡ false =
          has_no_number_sound "/image" q r (unfold text_functions has_no_number in refl) e
            (λ z. n (same ∙ z)) in
        cc
  ]
]

image_path_sound : (p path : String) → image_path p path ≡ true → IsImageOf p path
image_path_sound p path h =
    let (prefixed, suffixed, n, digits) = image_path_parts p path h in
    let split = has_prefix_split p path prefixed in
    let r = drop_prefix p path in
    let m : middle p path ≡ trim_suffix "/image" r =
      ap (trim_suffix "/image") (ap (trim_prefix p) split ∙ trim_prefix-append p r) in
    (
      trim_suffix "/image" r,
      split
          ∙ ap (λ s. p <> s)
              (suffix_behind_prefix p r (ap (has_suffix "/image") (sym split) ∙ suffixed)
                (λ z. n (m ∙ z)) (ap all_digits (sym m) ∙ digits)),
      λ z. n (m ∙ z),
      ap all_digits (sym m) ∙ digits,
    )

-- image_path accepts exactly the prefix, a nonempty decimal index and "/image".
pub image_path_iff : (p path : String) → (image_path p path ≡ true) ↔ IsImageOf p path
image_path_iff p path = (image_path_sound p path, image_path_complete p path)
