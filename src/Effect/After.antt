-- ===== src/Effect/After.antt =====
-- Calls in their order: what each call requires of the calls before it.
use k8sgpt_operator.Common.{
  List, [], ◌∷◌, Bool, true, false, Outcome, ok, err, Fault, ◌≡◌, refl, if◌then◌else◌,
}
use k8sgpt_operator.Effect.{Effect, on_outcome}

-- Each call of the log is due behind the ones before it; the latest comes first.
abbrev pub InOrder : {C : Type 0} → (C → List C → Type 0) → List C → Type 0
InOrder IsDue [] = Unit
InOrder IsDue (c ∷ log) = IsDue c log × InOrder IsDue log

module _ {C A : Type 0} (Q : List C → Type 0) (log : List C) where
  pub after_if :
      (b : Bool) (m n : Effect C A)
      → (b ≡ true → Q (m log).1)
      → (b ≡ false → Q (n log).1)
      → Q ((if b then m else n) log).1
  after_if true m n p q = p refl
  after_if false m n p q = q refl

module _ {C A B : Type 0} (Q : List C → Type 0) (log : List C) where
  pub after_outcome :
      (o : Outcome A) (fail : Fault → Effect C B) (go : A → Effect C B)
      → ((e : Fault) → o ≡ err e → Q (fail e log).1)
      → ((a : A) → o ≡ ok a → Q (go a log).1)
      → Q (on_outcome o fail go log).1
  unfolding on_outcome
  after_outcome (ok a) fail go p q = q a refl
  after_outcome (err e) fail go p q = p e refl
