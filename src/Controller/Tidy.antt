-- ===== src/Controller/Tidy.antt =====
-- No connection is lost: the open ones are those of the map, one for each resource.
use k8sgpt_operator.Common.{
  ℕ, ◌<◌, String, false, List, [], ◌∷◌, ◌++◌, map, Option, none, some, ok, Fault, ◌≡◌, refl, sym,
  ap, ◌∙◌, inl, inr, Bool-cases, Option-cases, All, All-append, All-weaken, Any, Any-append_right,
  subst, ◌==◌, arith,
}
use k8sgpt_operator.Controller.Connections.{
  Cached, Connections, no_connections, is_for, find_cached, close, close_client_for, dialled_to,
  reusable, reuse_or_dial, client_for,
}
use k8sgpt_operator.Controller.Entries.{
  IsDistinct, clients, delete_cached-All, delete_cached-IsDistinct, delete_cached-absent,
  find_cached-none, close-delete, clients-snoc, IsDistinct-snoc,
}

-- The open connections are those of the entries, and were all dialled.
pub record IsTidy (s : Connections) : Type 0 where
  pub distinct : IsDistinct s.cached
  pub live_cached : s.live ≡ map (λ (e : Cached). e.client) s.cached
  pub bounded : All (λ (e : Cached). e.client < s.dialled) s.cached

close_client_for-IsTidy :
    (namespace name : String) (s : Connections)
    → IsTidy s
    → IsTidy (close_client_for namespace name s)
unfolding close_client_for
close_client_for-IsTidy namespace name s t =
    elim (Option-cases (find_cached namespace name s.cached)) [
      | inl absent ↦ rw absent t
      | inr (e, found) ↦ rw found (record {
        distinct = delete_cached-IsDistinct namespace name s.cached t.distinct;
        live_cached =
            ap (close e.client) t.live_cached
            ∙ close-delete namespace name e s.cached t.distinct found;
        bounded = delete_cached-All _ namespace name s.cached t.bounded;
      })
    ]

-- No entry of the resource is left.
pub close_client_for-absent :
    (namespace name : String) (s : Connections)
    → All
        (λ (x : Cached). is_for namespace name x ≡ false)
        (close_client_for namespace name s).cached
unfolding close_client_for
close_client_for-absent namespace name s =
    elim (Option-cases (find_cached namespace name s.cached)) [
      | inl absent ↦ rw absent (find_cached-none namespace name s.cached absent)
      | inr (e, found) ↦ rw found (delete_cached-absent namespace name s.cached)
    ]

dialled_to-IsTidy :
    (refused : Option Fault) (namespace name address : String) (s : Connections)
    → IsTidy s
    → All (λ (x : Cached). is_for namespace name x ≡ false) s.cached
    → IsTidy (dialled_to refused namespace name address s).1
unfolding dialled_to
dialled_to-IsTidy (some e) namespace name address s t absent = t
dialled_to-IsTidy none namespace name address s t absent =
    let new : Cached = record {
      namespace = namespace;
      name = name;
      address = address;
      client = s.dialled;
    } in
    record {
      distinct = IsDistinct-snoc s.cached new t.distinct absent t.bounded;
      live_cached = ap (λ l. l ++ s.dialled ∷ []) t.live_cached ∙ clients-snoc s.cached new;
      bounded =
          All-append _ s.cached (new ∷ [])
            (All-weaken _ _ s.cached (λ (x : Cached) p. omega arith) t.bounded) (omega arith, tt);
    }

reuse_or_dial-IsTidy :
    (o : Option ℕ) (refused : Option Fault) (namespace name address : String) (s : Connections)
    → IsTidy s
    → IsTidy (reuse_or_dial o refused namespace name address s).1
reuse_or_dial-IsTidy (some client) refused namespace name address s t = t
reuse_or_dial-IsTidy none refused namespace name address s t =
    dialled_to-IsTidy refused namespace name address (close_client_for namespace name s)
      (close_client_for-IsTidy namespace name s t) (close_client_for-absent namespace name s)

client_for-IsTidy :
    (refused : Option Fault) (namespace name address : String) (s : Connections)
    → IsTidy s
    → IsTidy (client_for refused namespace name address s).1
unfolding client_for
client_for-IsTidy refused namespace name address s t =
    reuse_or_dial-IsTidy (reusable (find_cached namespace name s.cached) address) refused namespace
      name address s t

-- What the reconciliations of all resources do with the connections, in any order.
pub data Step : Connections → Connections → Type 0 where
  use_client :
      (refused : Option Fault) (namespace name address : String) (s : Connections)
      → Step s (client_for refused namespace name address s).1
  release_client :
      (namespace name : String) (s : Connections) → Step s (close_client_for namespace name s)

pub data Reachable : Connections → Type 0 where
  start : Reachable no_connections
  more : {s s' : Connections} → Reachable s → Step s s' → Reachable s'

-- After any sequence of uses and releases, with any addresses and failing dials, the open
-- connections are exactly those of the map, and the map has one for each resource at most.
pub Reachable-IsTidy : (s : Connections) → Reachable s → IsTidy s
Reachable-IsTidy _ start = record { distinct = tt; live_cached = refl; bounded = tt }
Reachable-IsTidy _ (more {s = s} r (use_client refused namespace name address _)) =
    client_for-IsTidy refused namespace name address s (Reachable-IsTidy s r)
Reachable-IsTidy _ (more {s = s} r (release_client namespace name _)) =
    close_client_for-IsTidy namespace name s (Reachable-IsTidy s r)

-- A client that is reused is the one of an entry.
reusable-live :
    (namespace name address : String) (client : ℕ) (es : List Cached)
    → reusable (find_cached namespace name es) address ≡ some client
    → Any (λ c. c ≡ client) (clients es)
unfolding find_cached
reusable-live namespace name address client [] h = cc
reusable-live namespace name address client (e ∷ es) h =
    elim (Bool-cases (is_for namespace name e)) [
      | inl found ↦ elim (Bool-cases (e.address == address)) [
        | inl same ↦ let h' = rw (found, same) at h in inl cc
        | inr other ↦ cc (rw (found, other) at h)
      ]
      | inr other ↦ inr (reusable-live namespace name address client es (rw other at h))
    ]

dialled_to-live :
    (refused : Option Fault) (namespace name address : String) (s : Connections) (client : ℕ)
    → (dialled_to refused namespace name address s).0 ≡ ok client
    → Any (λ c. c ≡ client) (dialled_to refused namespace name address s).1.live
unfolding dialled_to
dialled_to-live (some e) namespace name address s client h = cc
dialled_to-live none namespace name address s client h =
    Any-append_right (λ c. c ≡ client) s.live (s.dialled ∷ []) (inl cc)

-- Where the connections are tidy, the client that clientFor returns has an open connection,
-- whether it is reused or new.
pub client_for-live :
    (refused : Option Fault) (namespace name address : String) (s : Connections) (client : ℕ)
    → IsTidy s
    → (client_for refused namespace name address s).0 ≡ ok client
    → Any (λ c. c ≡ client) (client_for refused namespace name address s).1.live
unfolding client_for
client_for-live refused namespace name address s client t h =
    elim (Option-cases (reusable (find_cached namespace name s.cached) address)) [
      | inl dial ↦
          rw (dial, client_for)
            (dialled_to-live refused namespace name address (close_client_for namespace name s)
              client (rw (dial, client_for) at h))
      | inr (found, reuse) ↦
          let h' = rw (reuse, client_for) at h in
          let same : found ≡ client = cc in
          rw (reuse, client_for)
            (subst (λ l. Any (λ c. c ≡ client) l) (sym t.live_cached)
              (subst (λ (x : ℕ). Any (λ c. c ≡ x) (clients s.cached)) same
                (reusable-live namespace name address found s.cached reuse)))
    ]
