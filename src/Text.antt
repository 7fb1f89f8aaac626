-- ===== src/Text.antt =====
-- The functions of Go's packages `strings` and `fmt` that the operator calls, over code points.
pub mod Laws
use Prim.Native.Char.{Char, code}
use Prim.Native.String
use Prim.Native.String.{String, [], ◌∷◌}
use mathlib.Core.List
use k8sgpt_operator.Common.{
  ℕ, zero, suc, ◌+◌, ◌/◌, ◌%◌, Bool, true, false, ◌&&◌, ◌||◌, List, ◌==◌, ltb, leb, nat_eq,
  if◌then◌else◌,
}

-- s + t
infixr 66 ◌<>◌
unfoldable pub ◌<>◌ : String → String → String
[] <> t = t
(c ∷ s) <> t = c ∷ (s <> t)

-- strings.HasPrefix(s, p), with `p` first.
unfoldable pub has_prefix : String → String → Bool
has_prefix [] s = true
has_prefix (c ∷ p) [] = false
has_prefix (c ∷ p) (d ∷ s) = nat_eq (code c) (code d) && has_prefix p s

-- strings.HasSuffix(s, t), with `t` first.
unfoldable pub has_suffix : String → String → Bool
has_suffix t [] = t == []
has_suffix t (c ∷ s) = (c ∷ s) == t || has_suffix t s

-- What is left of `s` behind the prefix `p`, where `p` is one.
unfoldable pub drop_prefix : String → String → String
drop_prefix [] s = s
drop_prefix (c ∷ p) [] = []
drop_prefix (c ∷ p) (d ∷ s) = drop_prefix p s

-- strings.TrimPrefix
unfoldable pub trim_prefix : String → String → String
trim_prefix p s = if has_prefix p s then drop_prefix p s else s

-- strings.TrimSuffix
unfoldable pub trim_suffix : String → String → String
trim_suffix t [] = []
trim_suffix t (c ∷ s) = let rest = c ∷ trim_suffix t s in if (c ∷ s) == t then [] else rest

-- strings.Contains(s, sep) for a text `sep`.
unfoldable pub contains_text : String → String → Bool
contains_text t [] = t == []
contains_text t (c ∷ s) = has_prefix t (c ∷ s) || contains_text t s

-- Does a character with the code `n` stand in the text?
unfoldable pub has_code : ℕ → String → Bool
has_code n [] = false
has_code n (c ∷ s) = nat_eq (code c) n || has_code n s

-- strings.ReplaceAll(s, old, new) for an `old` of one character.
unfoldable pub replace_all : ℕ → String → String → String
replace_all n new [] = []
replace_all n new (c ∷ s) = (if nat_eq (code c) n then new else c ∷ []) <> replace_all n new s

-- One round of strings.Split from the right: a separator starts a new part.
abbrev pub push_front : Char → List String → List String
push_front c List.[] = List.◌∷◌ (c ∷ []) List.[]
push_front c (List.◌∷◌ p ps) = List.◌∷◌ (c ∷ p) ps

-- strings.Split(s, sep) for a `sep` of one character.
unfoldable pub split : ℕ → String → List String
split n [] = List.◌∷◌ [] List.[]
split n (c ∷ s) =
    let parts = split n s in if nat_eq (code c) n then List.◌∷◌ [] parts else push_front c parts

-- The text before the first separator, and what stands behind it: strings.SplitN(s, sep, 2) and
-- strings.Cut where the separator occurs.
unfoldable pub before : ℕ → String → String
before n [] = []
before n (c ∷ s) = let rest = c ∷ before n s in if nat_eq (code c) n then [] else rest

unfoldable pub after : ℕ → String → String
after n [] = []
after n (c ∷ s) = let rest = after n s in if nat_eq (code c) n then s else rest

-- unicode.IsSpace
unfoldable pub is_space : ℕ → Bool
is_space n =
    (leb 9 n && leb n 13)
    || nat_eq n 32
    || nat_eq n 0x85
    || nat_eq n 0xa0
    || nat_eq n 0x1680
    || (leb 0x2000 n && leb n 0x200a)
    || nat_eq n 0x2028
    || nat_eq n 0x2029
    || nat_eq n 0x202f
    || nat_eq n 0x205f
    || nat_eq n 0x3000

unfoldable pub trim_left : String → String
trim_left [] = []
trim_left (c ∷ s) = let rest = trim_left s in if is_space (code c) then rest else c ∷ s

unfoldable pub all_space : String → Bool
all_space [] = true
all_space (c ∷ s) = is_space (code c) && all_space s

unfoldable pub trim_right : String → String
trim_right [] = []
trim_right (c ∷ s) = let rest = c ∷ trim_right s in if all_space (c ∷ s) then [] else rest

-- strings.TrimSpace
unfoldable pub trim_space : String → String
trim_space s = trim_right (trim_left s)

-- '0' <= c <= '9'
abbrev pub is_digit : ℕ → Bool
is_digit n = leb b'0' n && leb n b'9'

unfoldable pub all_digits : String → Bool
all_digits [] = true
all_digits (c ∷ s) = is_digit (code c) && all_digits s

-- The decimal digit of a number below ten.
abbrev digit : ℕ → String
digit zero = "0"
digit (suc zero) = "1"
digit (suc (suc zero)) = "2"
digit (suc (suc (suc zero))) = "3"
digit (suc (suc (suc (suc zero)))) = "4"
digit (suc (suc (suc (suc (suc zero))))) = "5"
digit (suc (suc (suc (suc (suc (suc zero)))))) = "6"
digit (suc (suc (suc (suc (suc (suc (suc zero))))))) = "7"
digit (suc (suc (suc (suc (suc (suc (suc (suc zero)))))))) = "8"
digit _ = "9"

-- The rounds of the division by ten; `n + 1` of them are enough for `n`.
unfoldable pub decimal_from : ℕ → ℕ → String
decimal_from zero n = []
decimal_from (suc fuel) n =
    let more = decimal_from fuel (n / 10) <> digit (n % 10) in if ltb n 10 then digit n else more

-- fmt.Sprintf("%d", n)
unfoldable pub decimal : ℕ → String
decimal n = decimal_from (suc n) n

-- What a run of these functions opens.
unfoldable pub text_functions : Unit {0}
unfolding ◌<>◌ has_prefix has_suffix drop_prefix trim_prefix trim_suffix contains_text has_code
    replace_all split before after is_space trim_left all_space trim_right trim_space all_digits
    decimal_from decimal
text_functions = tt

-- s[:n] where the text has at least n characters, all ASCII.
unfoldable pub take_text : ℕ → String → String
take_text zero s = []
take_text (suc n) [] = []
take_text (suc n) (c ∷ s) = c ∷ take_text n s

-- len(s) for ASCII
unfoldable pub text_length : String → ℕ
text_length [] = 0
text_length (c ∷ s) = suc (text_length s)
