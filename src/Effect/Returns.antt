-- ===== src/Effect/Returns.antt =====
-- What the answer of a computation satisfies, whatever was called before.
use k8sgpt_operator.Common.{
  List, ◌∷◌, ◌≡◌, refl, Bool, true, false, Outcome, ok, err, Fault, if◌then◌else◌,
}
use k8sgpt_operator.Effect.{Effect, pure, call, ◌>>=◌, on_outcome}

pub record Returns {C A : Type 0} (P : A → Type 0) (m : Effect C A) : Type 0 where
  pub at : (log : List C) → P (m log).0

module _ {C A : Type 0} (P : A → Type 0) where
  pub Returns-pure : (a : A) → P a → Returns P (pure {C = C} a)
  unfolding pure
  Returns-pure a p = record { at = λ log. p }

  pub Returns-if :
      (b : Bool) (m n : Effect C A)
      → (b ≡ true → Returns P m)
      → (b ≡ false → Returns P n)
      → Returns P (if b then m else n)
  Returns-if true m n p q = p refl
  Returns-if false m n p q = q refl

module _ {C A B : Type 0} (P : B → Type 0) where
  -- Nothing is known of the first answer.
  pub Returns-bind :
      (m : Effect C A) (f : A → Effect C B) → ((a : A) → Returns P (f a)) → Returns P (m >>= f)
  unfolding ◌>>=◌
  Returns-bind m f q = record { at = λ log. (q (m log).0).at (m log).1 }

  -- A call whose answer is known to be one of the service at that point.
  pub Returns-asked :
      (c : C) (answer : List C → A) (f : A → Effect C B)
      → ((log : List C) → Returns P (f (answer log)))
      → Returns P (call c answer >>= f)
  unfolding ◌>>=◌
  Returns-asked c answer f q = record { at = λ log. (q log).at (c ∷ log) }

  -- The second part needs what is known of the first answer.
  pub Returns-then :
      (Q : A → Type 0) (m : Effect C A) (f : A → Effect C B)
      → Returns Q m
      → ((a : A) → Q a → Returns P (f a))
      → Returns P (m >>= f)
  unfolding ◌>>=◌
  Returns-then Q m f p q = record { at = λ log. (q (m log).0 (p.at log)).at (m log).1 }

  pub Returns-outcome :
      (o : Outcome A) (fail : Fault → Effect C B) (go : A → Effect C B)
      → ((e : Fault) → o ≡ err e → Returns P (fail e))
      → ((a : A) → o ≡ ok a → Returns P (go a))
      → Returns P (on_outcome o fail go)
  unfolding on_outcome
  Returns-outcome (ok a) fail go p q = q a refl
  Returns-outcome (err e) fail go p q = p e refl

pub ruleset returns_rules = (Returns-pure, Returns-if, Returns-bind, Returns-outcome)

pub Returns-weaken :
    {C A : Type 0} (P Q : A → Type 0) (m : List C → A × List C)
    → ((a : A) → P a → Q a)
    → Returns P m
    → Returns Q m
Returns-weaken P Q m f r = record { at = λ log. f (m log).0 (r.at log) }
