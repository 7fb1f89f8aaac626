-- ===== src/Built.antt =====
-- Values of functions that return an error beside a value, and that may follow a nil pointer.
use k8sgpt_operator.Common.{Bool, true, false, ◌&&◌, ◌≡◌, refl, Fault, if◌then◌else◌}

-- `crashed` where a nil pointer is followed.
pub data Built (A : Type 0) : Type 0 where
  built : A → Built A
  refused : Fault → Built A
  crashed : Built A

infixl 5 ◌>>=◌
abbrev pub ◌>>=◌ : {A B : Type 0} → Built A → (A → Built B) → Built B
built a >>= f = f a
refused e >>= f = refused e
crashed >>= f = crashed

abbrev pub is_built : {A : Type 0} → Built A → Bool
is_built (built a) = true
is_built (refused e) = false
is_built crashed = false

-- What holds of the value, if there is one.
abbrev pub Holds : {A : Type 0} → (A → Type 0) → Built A → Type 0
Holds P (built a) = P a
Holds P (refused e) = Unit
Holds P crashed = Unit

pub Holds-bind :
    {A B : Type 0} (P : A → Type 0) (Q : B → Type 0) (m : Built A) (f : A → Built B)
    → Holds P m
    → ((a : A) → P a → Holds Q (f a))
    → Holds Q (m >>= f)
Holds-bind P Q (built a) f p q = q a p
Holds-bind P Q (refused e) f p q = tt
Holds-bind P Q crashed f p q = tt

pub Holds-if :
    {A : Type 0} (P : A → Type 0) (b : Bool) (m n : Built A)
    → Holds P m
    → Holds P n
    → Holds P (if b then m else n)
Holds-if P true m n p q = p
Holds-if P false m n p q = q

pub Holds-weaken :
    {A : Type 0} (P Q : A → Type 0) (m : Built A) → ((a : A) → P a → Q a) → Holds P m → Holds Q m
Holds-weaken P Q (built a) f h = f a h
Holds-weaken P Q (refused e) f h = tt
Holds-weaken P Q crashed f h = tt

pub is_built-bind :
    {A B : Type 0} (b c : Bool) (m : Built A) (f : A → Built B)
    → is_built m ≡ b
    → ((a : A) → is_built (f a) ≡ c)
    → is_built (m >>= f) ≡ (b && c)
is_built-bind b c (built a) f p q = rw (← p) (q a)
is_built-bind b c (refused e) f p q = rw (← p) refl
is_built-bind b c crashed f p q = rw (← p) refl
