-- ===== src/Text/Laws.antt =====
-- The laws of the text functions.
use Prim.Native.Char.{Char, code}
use Prim.Native.String
use Prim.Native.String.{String, [], ◌∷◌}
use text.Mathlib.TextEquality.{Char-path}
use text.Mathlib.TextLemmas.{nil-append, cons-append, append_cancel_right}
use k8sgpt_operator.Common.{
  ◌≡◌, ◌≢◌, ◌⊎◌, inl, inr, refl, sym, ap, ◌∙◌, arith, Bool, true, false, not, ◌==◌, eq_iff, eq_refl,
  nat_eq, ◌&&◌, Bool-cases,
}
use k8sgpt_operator.Text.{
  ◌<>◌, has_prefix, has_suffix, drop_prefix, trim_suffix, has_code, all_digits, decimal, trim_space,
  text_functions,
}

pub same_char : (c d : Char) → nat_eq (code c) (code d) ≡ true → c ≡ d
same_char c d h = Char-path c d (ground arith)

pub <>-nil : (s : String) → s <> [] ≡ s
unfolding ◌<>◌
<>-nil [] = refl
<>-nil (c ∷ s) = ap (λ t. c ∷ t) (<>-nil s)

pub <>_assoc : (s t u : String) → (s <> t) <> u ≡ s <> (t <> u)
unfolding ◌<>◌
<>_assoc [] t u = refl
<>_assoc (c ∷ s) t u = ap (λ r. c ∷ r) (<>_assoc s t u)

pub has_prefix-append : (p s : String) → has_prefix p (p <> s) ≡ true
unfolding ◌<>◌ has_prefix
has_prefix-append [] s = refl
has_prefix-append (c ∷ p) s = ground (arith, has_prefix-append p s)

pub has_prefix_split : (p s : String) → has_prefix p s ≡ true → s ≡ p <> drop_prefix p s
unfolding ◌<>◌ has_prefix drop_prefix
has_prefix_split [] s h = refl
has_prefix_split (c ∷ p) [] h = cc
has_prefix_split (c ∷ p) (d ∷ s) h =
    cc (same_char c d (ground arith), has_prefix_split p s (ground arith))

pub drop_prefix-append : (p s : String) → drop_prefix p (p <> s) ≡ s
unfolding ◌<>◌ drop_prefix
drop_prefix-append [] s = refl
drop_prefix-append (c ∷ p) s = drop_prefix-append p s

pub has_suffix-append : (s t : String) → has_suffix t (s <> t) ≡ true
unfolding ◌<>◌ has_suffix
has_suffix-append [] [] = refl
has_suffix-append [] (c ∷ t) = ground (arith, eq_refl (c ∷ t))
has_suffix-append (c ∷ s) t = ground (arith, has_suffix-append s t)

pub has_suffix_split : (t s : String) → has_suffix t s ≡ true → s ≡ trim_suffix t s <> t
unfolding ◌<>◌ has_suffix trim_suffix
has_suffix_split t [] h = sym ((eq_iff t []).0 h)
has_suffix_split t (c ∷ s) h = elim (Bool-cases ((c ∷ s) == t)) [
  | inl e ↦ rw e ((eq_iff (c ∷ s) t).0 e)
  | inr n ↦ rw n (ap (λ r. c ∷ r) (has_suffix_split t s (rw n at h)))
]

pub trim_suffix_same : (t s : String) → has_suffix t s ≡ false → trim_suffix t s ≡ s
unfolding ◌<>◌ has_suffix trim_suffix
trim_suffix_same t [] h = refl
trim_suffix_same t (c ∷ s) h = ground (arith, trim_suffix_same t s)

<>-eq-append : (s t : String) → s <> t ≡ String.◌++◌ s t
unfolding ◌<>◌
<>-eq-append [] t = sym (nil-append t)
<>-eq-append (c ∷ s) t = ap (λ r. c ∷ r) (<>-eq-append s t) ∙ sym (cons-append c s t)

pub <>_cancel_right : (s r t : String) → s <> t ≡ r <> t → s ≡ r
<>_cancel_right s r t e = append_cancel_right s r t (sym (<>-eq-append s t) ∙ e ∙ <>-eq-append r t)

pub trim_suffix-append : (s t : String) → trim_suffix t (s <> t) ≡ s
trim_suffix-append s t =
    sym (<>_cancel_right s _ t (has_suffix_split t (s <> t) (has_suffix-append s t)))

-- A suffix of `p <> r` is one of `r`, or reaches into `p`.
pub has_suffix_overlap :
    (t p r : String)
    → has_suffix t (p <> r) ≡ true
    → (has_suffix t r ≡ true) ⊎ ((q : String) × (q <> r ≡ t))
unfolding ◌<>◌ has_suffix
has_suffix_overlap t [] r h = inl h
has_suffix_overlap t (c ∷ p) r h = elim (Bool-cases ((c ∷ (p <> r)) == t)) [
  | inl e ↦ inr (c ∷ p, (eq_iff _ t).0 e)
  | inr n ↦ has_suffix_overlap t p r (rw n at h)
]

-- No suffix of the text but the empty one is a number.
unfoldable pub has_no_number : String → Bool
unfolding all_digits
has_no_number [] = true
has_no_number (c ∷ s) = not (all_digits (c ∷ s)) && has_no_number s

pub has_no_number_sound :
    (t q r : String) → has_no_number t ≡ true → q <> r ≡ t → r ≢ [] → all_digits r ≡ false
unfolding ◌<>◌ has_no_number
has_no_number_sound t [] [] h e n = absurd (n refl)
has_no_number_sound [] [] (d ∷ r) h e n = cc
has_no_number_sound (c ∷ t) [] (d ∷ r) h e n = ap all_digits e ∙ ground arith
has_no_number_sound [] (d ∷ q) r h e n = cc
has_no_number_sound (c ∷ t) (d ∷ q) r h e n = has_no_number_sound t q r (ground arith) (cc) n

pub has_code-all_digits : (s : String) → all_digits s ≡ true → has_code b'/' s ≡ false
unfolding has_code all_digits
has_code-all_digits [] h = refl
has_code-all_digits (c ∷ s) h = ground (arith, has_code-all_digits s)

decimal_test : decimal 1203 ≡ "1203"
unfolding text_functions
decimal_test = refl

trim_test : trim_space "  a b\n " ≡ "a b"
unfolding text_functions
trim_test = refl
