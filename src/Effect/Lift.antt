-- ===== src/Effect/Lift.antt =====
-- A computation with calls of one kind inside a computation with calls of several kinds.
use k8sgpt_operator.Common.{
  ℕ, zero, suc, ◌+◌, ◌-◌, List, [], ◌∷◌, ◌++◌, map, length, ◌≡◌, refl, ap, ◌∙◌, All-map, All-weaken,
  arith,
}
use k8sgpt_operator.Effect.{Effect}
use k8sgpt_operator.Effect.Emits.{Emits}
use k8sgpt_operator.Effect.Returns.{Returns}

-- `inject` makes a call of the larger kind, `project` leaves the calls of the smaller one.
pub record Embedding (C D : Type 0) : Type 0 where
  pub inject : C → D
  pub project : List D → List C

abbrev take : {A : Type 0} → ℕ → List A → List A
take zero xs = []
take (suc n) [] = []
take (suc n) (x ∷ xs) = x ∷ take n xs

-- The calls in front of the ones that were there before.
abbrev added : {A : Type 0} → List A → List A → List A
added after before = take (length after - length before) after

take-append : {B : Type 0} (xs ys : List B) → take (length xs) (xs ++ ys) ≡ xs
take-append [] ys = refl
take-append (x ∷ xs) ys = ap (λ l. x ∷ l) (take-append xs ys)

length-append : {B : Type 0} (xs ys : List B) → length (xs ++ ys) ≡ length xs + length ys
length-append [] ys = omega arith
length-append (x ∷ xs) ys = omega (arith, length-append xs ys)

added-append : {B : Type 0} (new before : List B) → added (new ++ before) before ≡ new
added-append new before =
    let n : length (new ++ before) - length before ≡ length new =
      omega (arith, length-append new before) in
    ap (λ k. take k (new ++ before)) n ∙ take-append new before

module _ {C D A : Type 0} (e : Embedding C D) where
  unfoldable pub lift : Effect C A → Effect D A
  lift m log =
      let (a, after) = m (e.project log) in (a, map e.inject (added after (e.project log)) ++ log)

  pub Emits-lift :
      (P : C → Type 0) (Q : D → Type 0) (m : Effect C A)
      → ((c : C) → P c → Q (e.inject c))
      → Emits P m
      → Emits Q (lift m)
  unfolding lift
  Emits-lift P Q m f h = record {
    at = λ log.
        let before = e.project log in
        let (new, same, all) = h.at before in
        (
          map e.inject new,
          ap (λ l. map e.inject l ++ log) (ap (λ l. added l before) same ∙ added-append new before),
          All-map Q e.inject new (All-weaken P (λ c. Q (e.inject c)) new f all),
        );
  }

  pub Returns-lift : (P : A → Type 0) (m : Effect C A) → Returns P m → Returns P (lift m)
  unfolding lift
  Returns-lift P m h = record { at = λ log. h.at (e.project log) }
