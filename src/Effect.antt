-- ===== src/Effect.antt =====
-- Code that calls services. A computation is given the calls made so far, the latest first, and
-- adds its own; what a service answers may depend on all of them.
pub mod Emits
pub mod After
pub mod Calls
pub mod Returns
pub mod Lift
use k8sgpt_operator.Common.{List, ◌∷◌, ◌≡◌, ap, Outcome, ok, err, Fault}

abbrev pub Effect : Type 0 → Type 0 → Type 0
Effect C A = List C → A × List C

module _ {C A : Type 0} where
  unfoldable pub pure : A → Effect C A
  pure a log = (a, log)

  -- One call: its answer, and its place in the log.
  unfoldable pub call : C → (List C → A) → Effect C A
  call c answer log = (answer log, c ∷ log)

module _ {C A B : Type 0} where
  -- A call that may fail, with what follows either way.
  unfoldable pub on_outcome : Outcome A → (Fault → Effect C B) → (A → Effect C B) → Effect C B
  on_outcome (ok a) fail go = go a
  on_outcome (err e) fail go = fail e

  infixl 5 ◌>>=◌
  -- Opening this opens `pure`, `call` and `on_outcome` too.
  unfoldable pub ◌>>=◌ : Effect C A → (A → Effect C B) → Effect C B
  unfolding pure call on_outcome
  ◌>>=◌ m f log = let (a, log') = m log in f a log'

module _ {C A B : Type 0} (m : Effect C (Outcome A)) (fail : Fault → Effect C B)
    (go : A → Effect C B) (log : List C) where
  pub >>=-ok : (a : A) → (m log).0 ≡ ok a → (m >>= λ o. on_outcome o fail go) log ≡ go a (m log).1
  unfolding ◌>>=◌
  >>=-ok a h = ap (λ o. on_outcome o fail go (m log).1) h

  pub >>=-err :
      (e : Fault) → (m log).0 ≡ err e → (m >>= λ o. on_outcome o fail go) log ≡ fail e (m log).1
  unfolding ◌>>=◌
  >>=-err e h = ap (λ o. on_outcome o fail go (m log).1) h
