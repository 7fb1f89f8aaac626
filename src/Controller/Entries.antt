-- ===== src/Controller/Entries.antt =====
-- Lists of cached clients with distinct keys and connections.
use k8sgpt_operator.Common.{
  ℕ, ◌<◌, String, true, false, List, [], ◌∷◌, ◌++◌, map, none, some, nat_eq, ◌≡◌, ◌≢◌, refl, sym,
  ap, ◌∙◌, inl, inr, Bool-cases, All, All-append, All-weaken, arith, eq_iff,
}
use k8sgpt_operator.Controller.Connections.{Cached, is_for, find_cached, delete_cached, close}

-- No two entries have one key, and no two have one connection.
abbrev pub IsDistinct : List Cached → Type 0
IsDistinct [] = Unit
IsDistinct (e ∷ es) =
    All (λ (x : Cached). (is_for e.namespace e.name x ≡ false) × (x.client ≢ e.client)) es
    × IsDistinct es

abbrev pub clients : List Cached → List ℕ
clients es = map (λ (e : Cached). e.client) es

-- A connection that no entry has is not closed.
close_absent :
    (client : ℕ) (es : List Cached)
    → All (λ (x : Cached). x.client ≢ client) es
    → close client (clients es) ≡ clients es
unfolding close
close_absent client [] h = refl
close_absent client (e ∷ es) (n, h) =
    let rest = close_absent client es h in
    let other : nat_eq e.client client ≡ false = ground arith in rw (other, rest) refl

-- A key that no entry has is not deleted.
delete_absent :
    (namespace name : String) (es : List Cached)
    → All (λ (x : Cached). is_for namespace name x ≡ false) es
    → delete_cached namespace name es ≡ es
unfolding delete_cached
delete_absent namespace name [] h = refl
delete_absent namespace name (e ∷ es) (n, h) = rw (n, delete_absent namespace name es h) refl

-- Two entries of one key have the same others.
same_key :
    (namespace name : String) (e : Cached) (es : List Cached)
    → is_for namespace name e ≡ true
    → All (λ (x : Cached). is_for e.namespace e.name x ≡ false) es
    → All (λ (x : Cached). is_for namespace name x ≡ false) es
unfolding is_for
same_key namespace name e es h = All-weaken _ _ es λ x other. ground (
  arith,
  eq_iff e.namespace namespace,
  eq_iff e.name name,
  eq_iff x.namespace namespace,
  eq_iff x.namespace e.namespace,
  eq_iff x.name name,
  eq_iff x.name e.name,
)

pub delete_cached-All :
    (P : Cached → Type 0) (namespace name : String) (es : List Cached)
    → All P es
    → All P (delete_cached namespace name es)
unfolding delete_cached
delete_cached-All P namespace name [] h = tt
delete_cached-All P namespace name (e ∷ es) (p, h) = elim (Bool-cases (is_for namespace name e)) [
  | inl found ↦ rw (found, delete_cached) (delete_cached-All P namespace name es h)
  | inr other ↦ rw (other, delete_cached) (p, delete_cached-All P namespace name es h)
]

pub delete_cached-IsDistinct :
    (namespace name : String) (es : List Cached)
    → IsDistinct es
    → IsDistinct (delete_cached namespace name es)
unfolding delete_cached
delete_cached-IsDistinct namespace name [] h = tt
delete_cached-IsDistinct namespace name (e ∷ es) (p, h) =
    elim (Bool-cases (is_for namespace name e)) [
      | inl found ↦ rw (found, delete_cached) (delete_cached-IsDistinct namespace name es h)
      | inr other ↦
          rw (other, delete_cached)
            (delete_cached-All _ namespace name es p, delete_cached-IsDistinct namespace name es h)
    ]

-- No entry of the key is left.
pub delete_cached-absent :
    (namespace name : String) (es : List Cached)
    → All (λ (x : Cached). is_for namespace name x ≡ false) (delete_cached namespace name es)
unfolding delete_cached
delete_cached-absent namespace name [] = tt
delete_cached-absent namespace name (e ∷ es) = elim (Bool-cases (is_for namespace name e)) [
  | inl found ↦ rw (found, delete_cached) (delete_cached-absent namespace name es)
  | inr other ↦ rw (other, delete_cached) (other, delete_cached-absent namespace name es)
]

pub find_cached-none :
    (namespace name : String) (es : List Cached)
    → find_cached namespace name es ≡ none
    → All (λ (x : Cached). is_for namespace name x ≡ false) es
unfolding find_cached
find_cached-none namespace name [] h = tt
find_cached-none namespace name (e ∷ es) h = elim (Bool-cases (is_for namespace name e)) [
  | inl found ↦ cc (rw found at h)
  | inr other ↦ (other, find_cached-none namespace name es (rw other at h))
]

-- The connection of an entry that is found is that of no entry before it.
find_cached-client :
    (namespace name : String) (e x : Cached) (es : List Cached)
    → find_cached namespace name es ≡ some e
    → All (λ (y : Cached). (is_for x.namespace x.name y ≡ false) × (y.client ≢ x.client)) es
    → e.client ≢ x.client
unfolding find_cached
find_cached-client namespace name e x [] h n = cc
find_cached-client namespace name e x (y ∷ es) h (n, ns) =
    elim (Bool-cases (is_for namespace name y)) [
      | inl found ↦ λ z. let same = rw found at h in n.1 cc
      | inr other ↦ find_cached-client namespace name e x es (rw other at h) ns
    ]

-- Deleting a key and closing its connection keep the two lists together.
pub close-delete :
    (namespace name : String) (e : Cached) (es : List Cached)
    → IsDistinct es
    → find_cached namespace name es ≡ some e
    → close e.client (clients es) ≡ clients (delete_cached namespace name es)
unfolding find_cached delete_cached close
close-delete namespace name e [] d h = cc
close-delete namespace name e (x ∷ es) (n, d) h = elim (Bool-cases (is_for namespace name x)) [
  | inl found ↦
      let h' = rw found at h in
      let same : x.client ≡ e.client = cc in
      let equal_clients : nat_eq x.client e.client ≡ true = ground arith in
      let closed =
        close_absent e.client es
          (All-weaken _ _ es (λ (y : Cached) (p, ne) z. ne (z ∙ sym same)) n) in
      let kept =
        delete_absent namespace name es
          (same_key namespace name x es found (All-weaken _ _ es (λ (y : Cached) (p, ne). p) n)) in
      rw (found, equal_clients) (closed ∙ ap clients (sym kept))
  | inr other ↦
      let h' = rw other at h in
      let apart = find_cached-client namespace name e x es h' n in
      let other_client : nat_eq x.client e.client ≡ false = ground arith in
      rw (other, other_client) (ap (λ cs. x.client ∷ cs) (close-delete namespace name e es d h'))
]

pub clients-snoc :
    (es : List Cached) (e : Cached) → clients es ++ e.client ∷ [] ≡ clients (es ++ e ∷ [])
clients-snoc [] e = refl
clients-snoc (x ∷ es) e = ap (λ cs. x.client ∷ cs) (clients-snoc es e)

is_for_other :
    (x e : Cached) → is_for e.namespace e.name x ≡ false → is_for x.namespace x.name e ≡ false
unfolding is_for
is_for_other x e h = ground (
  arith,
  eq_iff x.namespace e.namespace,
  eq_iff x.name e.name,
  eq_iff e.namespace x.namespace,
  eq_iff e.name x.name,
)

pub IsDistinct-snoc :
    (es : List Cached) (e : Cached)
    → IsDistinct es
    → All (λ (x : Cached). is_for e.namespace e.name x ≡ false) es
    → All (λ (x : Cached). x.client < e.client) es
    → IsDistinct (es ++ e ∷ [])
IsDistinct-snoc [] e d absent below = (tt, tt)
IsDistinct-snoc (x ∷ es) e (n, d) (a, absent) (b, below) =
    let apart : e.client ≢ x.client = ground arith in
    (
      All-append _ es (e ∷ []) n ((is_for_other x e a, apart), tt),
      IsDistinct-snoc es e d absent below,
    )
