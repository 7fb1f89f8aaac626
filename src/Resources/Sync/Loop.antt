-- ===== src/Resources/Sync/Loop.antt =====
-- The loops of Sync: how they end, and that they only add to the log.
use k8sgpt_operator.Common.{Bool, true, false, List, Fault, Any, Any-append_right, sym, subst}
use k8sgpt_operator.Effect.{Effect}
use k8sgpt_operator.Effect.Emits.{Emits, Emits-pure}
use k8sgpt_operator.Resources.Objects.{ResourceCall, Store}
use k8sgpt_operator.Resources.Sync.{Synced, next_unless}

module _ (s : Store) where
  pub next_unless-Emits :
      (P : ResourceCall → Type 0) (ignored : Bool) (e : Fault) (go : Effect ResourceCall Synced)
      → Emits P go
      → Emits P (next_unless s ignored e go)
  next_unless-Emits P true e go h = h
  next_unless-Emits P false e go h = Emits-pure P _

pub log_grows :
    {A : Type 0} (P : ResourceCall → Type 0) (m : Effect ResourceCall A)
    → Emits (λ c. Unit {0}) m
    → (log : List ResourceCall) → Any P log
    → Any P (m log).1
log_grows P m grows log h =
    let (new, e, all) = grows.at log in subst (Any P) (sym e) (Any-append_right P new log h)
