-- ===== src/Effect/Emits.antt =====
-- What all calls of a computation satisfy.
use mathlib.Core.List.{append_assoc}
use k8sgpt_operator.Common.{
  List, [], ◌∷◌, ◌++◌, ◌≡◌, refl, sym, ap, ◌∙◌, Bool, true, false, Outcome, ok, err, Fault, All,
  All-append, All-weaken, if◌then◌else◌,
}
use k8sgpt_operator.Effect.{Effect, pure, call, ◌>>=◌, on_outcome}

-- The computation only adds to the log, and each call that it adds satisfies the predicate.
pub record Emits {C A : Type 0} (P : C → Type 0) (m : Effect C A) : Type 0 where
  pub at : (log : List C) → (new : List C) × ((m log).1 ≡ new ++ log) × All P new

module _ {C A : Type 0} (P : C → Type 0) where
  pub Emits-pure : (a : A) → Emits P (pure {C = C} a)
  unfolding pure
  Emits-pure a = record { at = λ log. ([], refl, tt) }

  pub Emits-call : (c : C) (answer : List C → A) → P c → Emits P (call c answer)
  unfolding call
  Emits-call c answer p = record { at = λ log. (c ∷ [], refl, (p, tt)) }

  pub Emits-if :
      (b : Bool) (m n : Effect C A)
      → (b ≡ true → Emits P m)
      → (b ≡ false → Emits P n)
      → Emits P (if b then m else n)
  Emits-if true m n p q = p refl
  Emits-if false m n p q = q refl

module _ {C A B : Type 0} (P : C → Type 0) where
  pub Emits-bind :
      (m : Effect C A) (f : A → Effect C B)
      → Emits P m
      → ((a : A) → Emits P (f a))
      → Emits P (m >>= f)
  unfolding ◌>>=◌
  Emits-bind m f p q = record {
    at = λ log.
        let (first, e, h) = p.at log in
        let (more, e', h') = (q (m log).0).at (m log).1 in
        (
          more ++ first,
          e' ∙ ap (λ l. more ++ l) e ∙ sym (append_assoc more first log),
          All-append P more first h' h,
        );
  }

  -- A call whose answer is known to be one of the service at that point.
  pub Emits-asked :
      (c : C) (answer : List C → A) (f : A → Effect C B)
      → P c
      → ((log : List C) → Emits P (f (answer log)))
      → Emits P (call c answer >>= f)
  unfolding ◌>>=◌
  Emits-asked c answer f p q = record {
    at = λ log.
        let (more, e, h) = (q log).at (c ∷ log) in
        (
          more ++ c ∷ [],
          e ∙ sym (append_assoc more (c ∷ []) log),
          All-append P more (c ∷ []) h (p, tt),
        );
  }

  pub Emits-outcome :
      (o : Outcome A) (fail : Fault → Effect C B) (go : A → Effect C B)
      → ((e : Fault) → o ≡ err e → Emits P (fail e))
      → ((a : A) → o ≡ ok a → Emits P (go a))
      → Emits P (on_outcome o fail go)
  unfolding on_outcome
  Emits-outcome (ok a) fail go p q = q a refl
  Emits-outcome (err e) fail go p q = p e refl

pub ruleset emits_rules = (Emits-pure, Emits-call, Emits-if, Emits-bind, Emits-outcome)

pub Emits-weaken :
    {C A : Type 0} (P Q : C → Type 0) (m : Effect C A)
    → ((c : C) → P c → Q c)
    → Emits P m
    → Emits Q m
Emits-weaken P Q m f h = record {
  at = λ log. let (new, e, all) = h.at log in (new, e, All-weaken P Q new f all);
}
