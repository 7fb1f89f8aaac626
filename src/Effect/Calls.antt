-- ===== src/Effect/Calls.antt =====
-- How many calls a computation makes at most.
use mathlib.Core.List.{append_assoc}
use k8sgpt_operator.Common.{
  ℕ, suc, ◌≤◌, List, [], ◌∷◌, ◌++◌, length, ◌≡◌, refl, sym, ap, ◌∙◌, Bool, true, false, Outcome, ok,
  err, Fault, if◌then◌else◌, arith,
}
use k8sgpt_operator.Effect.{Effect, pure, call, ◌>>=◌, on_outcome}

pub record CallsAtMost {C A : Type 0} (n : ℕ) (m : Effect C A) : Type 0 where
  pub at : (log : List C) → (new : List C) × ((m log).1 ≡ new ++ log) × (length new ≤ n)

length-snoc : {A : Type 0} (xs : List A) (x : A) → length (xs ++ x ∷ []) ≡ suc (length xs)
length-snoc [] x = refl
length-snoc (y ∷ xs) x = ap suc (length-snoc xs x)

length_snoc_le :
    {A : Type 0} (xs : List A) (x : A) (n : ℕ) → length xs ≤ n → length (xs ++ x ∷ []) ≤ suc n
length_snoc_le [] x n h = omega arith
length_snoc_le (y ∷ xs) x n h = let e = length-snoc xs x in omega arith

module _ {C A : Type 0} (n : ℕ) where
  pub CallsAtMost-pure : (a : A) → CallsAtMost n (pure {C = C} a)
  unfolding pure
  CallsAtMost-pure a = record { at = λ log. ([], refl, omega arith) }

  pub CallsAtMost-if :
      (b : Bool) (m m' : Effect C A)
      → CallsAtMost n m
      → CallsAtMost n m'
      → CallsAtMost n (if b then m else m')
  CallsAtMost-if true m m' p q = p
  CallsAtMost-if false m m' p q = q

module _ {C A B : Type 0} where
  pub CallsAtMost-call :
      (n : ℕ) (c : C) (answer : List C → A) (f : A → Effect C B)
      → ((a : A) → CallsAtMost n (f a))
      → CallsAtMost (suc n) (call c answer >>= f)
  unfolding ◌>>=◌
  CallsAtMost-call n c answer f q = record {
    at = λ log.
        let (more, e, h) = (q (answer log)).at (c ∷ log) in
        (more ++ c ∷ [], e ∙ sym (append_assoc more (c ∷ []) log), length_snoc_le more c n h);
  }

  pub CallsAtMost-outcome :
      (n : ℕ) (o : Outcome A) (fail : Fault → Effect C B) (go : A → Effect C B)
      → ((e : Fault) → CallsAtMost n (fail e))
      → ((a : A) → CallsAtMost n (go a))
      → CallsAtMost n (on_outcome o fail go)
  unfolding on_outcome
  CallsAtMost-outcome n (ok a) fail go p q = q a
  CallsAtMost-outcome n (err e) fail go p q = p e
