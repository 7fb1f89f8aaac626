-- ===== src/Controller/Directory/Served.antt =====
-- clientFor and closeClientFor keep the promise.
use k8sgpt_operator.Common.{
  ℕ, suc, String, Bool, true, false, List, [], ◌∷◌, ◌++◌, Option, none, some, Outcome, ok, err,
  Fault, ◌≡◌, refl, ap, ◌∙◌, inl, inr, Option-cases, All, eq_iff, eq_refl, if◌then◌else◌, arith,
  fun_ext,
}
use k8sgpt_operator.Controller.Connections.{
  Cached, Connections, is_for, find_cached, delete_cached, close_client_for, dialled_to, reusable,
  reuse_or_dial, client_for,
}
use k8sgpt_operator.Controller.Tidy.{close_client_for-absent}
use k8sgpt_operator.Controller.Directory.{
  Directory, is_key, assign, at_address, Promise, serve, Use, answers, promised_answers, entry_of,
  directory, promise, request, release,
}

find-delete :
    (namespace name a b : String) (es : List Cached)
    → find_cached a b (delete_cached namespace name es)
      ≡ (if is_key namespace name a b then none else find_cached a b es)
unfolding find_cached delete_cached is_key is_for
find-delete namespace name a b [] = ground arith
find-delete namespace name a b (e ∷ es) = ground (
  arith,
  eq_iff namespace a,
  eq_iff name b,
  eq_iff e.namespace namespace,
  eq_iff e.name name,
  eq_iff e.namespace a,
  eq_iff e.name b,
  find-delete namespace name a b es,
)

find-snoc :
    (namespace name a b : String) (e : Cached) (es : List Cached)
    → is_for namespace name e ≡ true
    → All (λ (x : Cached). is_for namespace name x ≡ false) es
    → find_cached a b (es ++ e ∷ [])
      ≡ (if is_key namespace name a b then some e else find_cached a b es)
unfolding find_cached is_key is_for
find-snoc namespace name a b e [] h absent = ground (
  arith,
  eq_iff namespace a,
  eq_iff name b,
  eq_iff e.namespace namespace,
  eq_iff e.name name,
  eq_iff e.namespace a,
  eq_iff e.name b,
)
find-snoc namespace name a b e (x ∷ es) h (n, absent) = ground (
  arith,
  eq_iff namespace a,
  eq_iff name b,
  eq_iff x.namespace namespace,
  eq_iff x.name name,
  eq_iff x.namespace a,
  eq_iff x.name b,
  find-snoc namespace name a b e es h absent,
)

entry_of-if :
    (b : Bool) (o p : Option Cached)
    → entry_of (if b then o else p) ≡ (if b then entry_of o else entry_of p)
entry_of-if true o p = refl
entry_of-if false o p = refl

find-absent :
    (namespace name a b : String) (es : List Cached)
    → find_cached namespace name es ≡ none
    → find_cached a b es ≡ (if is_key namespace name a b then none else find_cached a b es)
unfolding is_key
find-absent namespace name a b es absent = ground (arith, eq_iff namespace a, eq_iff name b, absent)

-- Releasing a resource forgets its connection and no other one.
pub close_client_for-forgets :
    (namespace name : String) (s : Connections)
    → directory (close_client_for namespace name s) ≡ assign namespace name none (directory s)
unfolding close_client_for
close_client_for-forgets namespace name s = fun_ext λ a. fun_ext λ b.
    let key = is_key namespace name a b in
    elim (Option-cases (find_cached namespace name s.cached)) [
      | inl absent ↦ rw absent (
          ap entry_of (find-absent namespace name a b s.cached absent)
          ∙ entry_of-if key none (find_cached a b s.cached))
      | inr (e, found) ↦ rw found (
          ap entry_of (find-delete namespace name a b s.cached)
          ∙ entry_of-if key none (find_cached a b s.cached))
    ]

closing_dials_nothing :
    (namespace name : String) (s : Connections)
    → (close_client_for namespace name s).dialled ≡ s.dialled
unfolding close_client_for
closing_dials_nothing namespace name s = elim (Option-cases (find_cached namespace name s.cached)) [
  | inl absent ↦ rw absent refl
  | inr (e, found) ↦ rw found refl
]

closed-promise :
    (namespace name : String) (s : Connections)
    → promise (close_client_for namespace name s)
      ≡ (assign namespace name none (directory s), s.dialled)
closed-promise namespace name s =
    ap (λ (d : Directory). (d, (close_client_for namespace name s).dialled))
      (close_client_for-forgets namespace name s)
    ∙ ap (λ n. (assign namespace name none (directory s), n))
        (closing_dials_nothing namespace name s)

abbrev outcome : Outcome ℕ × Connections → Outcome ℕ × Promise
outcome r = (r.0, promise r.1)

is_own_key :
    (namespace name address : String) (client : ℕ)
    → is_for namespace name
        (record { namespace = namespace; name = name; address = address; client = client })
      ≡ true
unfolding is_for
is_own_key namespace name address client = rw (eq_refl namespace, eq_refl name) refl

-- The last assignment of a key counts.
assign-assign :
    (namespace name : String) (v w : Option (String × ℕ)) (d : Directory)
    → assign namespace name w (assign namespace name v d) ≡ assign namespace name w d
assign-assign namespace name v w d =
    fun_ext λ a. fun_ext λ b. last (is_key namespace name a b) v w (d a b)
  where
    last :
        (k : Bool) (v w x : Option (String × ℕ))
        → (if k then w else (if k then v else x)) ≡ (if k then w else x)
    last true v w x = refl
    last false v w x = refl

abbrev entered : String → String → String → Promise → Outcome ℕ × Promise
entered namespace name address (d, n) = (ok n, (assign namespace name (some (address, n)) d, suc n))

dialled_to-serves :
    (namespace name address : String) (s : Connections)
    → All (λ (x : Cached). is_for namespace name x ≡ false) s.cached
    → outcome (dialled_to none namespace name address s)
      ≡ entered namespace name address (promise s)
unfolding dialled_to
dialled_to-serves namespace name address s absent =
    let e : Cached = record {
      namespace = namespace;
      name = name;
      address = address;
      client = s.dialled;
    } in
    let own = is_own_key namespace name address s.dialled in
    ap (λ (d : Directory). (ok s.dialled, (d, suc s.dialled)))
      (fun_ext λ a. fun_ext λ b.
        ap entry_of (find-snoc namespace name a b e s.cached own absent)
        ∙ entry_of-if (is_key namespace name a b) (some e) (find_cached a b s.cached))

reuse_or_dial-serves :
    (o : Option ℕ) (refused : Option Fault) (namespace name address : String) (s : Connections)
    → outcome (reuse_or_dial o refused namespace name address s)
      ≡ serve o refused namespace name address (promise s)
unfolding dialled_to
reuse_or_dial-serves (some client) refused namespace name address s = refl
reuse_or_dial-serves none (some e) namespace name address s =
    ap (λ (p : Promise). (err e, p)) (closed-promise namespace name s)
reuse_or_dial-serves none none namespace name address s =
    dialled_to-serves namespace name address (close_client_for namespace name s)
      (close_client_for-absent namespace name s)
    ∙ ap (entered namespace name address) (closed-promise namespace name s)
    ∙ ap (λ (d : Directory). (ok s.dialled, (d, suc s.dialled)))
        (assign-assign namespace name none (some (address, s.dialled)) (directory s))

same_address :
    (o : Option Cached) (address : String) → reusable o address ≡ at_address (entry_of o) address
same_address none address = refl
same_address (some e) address = refl

-- clientFor serves what is promised, whatever the order of the entries of the map.
pub client_for-serves :
    (refused : Option Fault) (namespace name address : String) (s : Connections)
    → outcome (client_for refused namespace name address s)
      ≡ serve
          (at_address (directory s namespace name) address)
          refused
          namespace
          name
          address
          (promise s)
unfolding client_for
client_for-serves refused namespace name address s =
    reuse_or_dial-serves _ refused namespace name address s
    ∙ ap (λ o. serve o refused namespace name address (promise s))
        (same_address (find_cached namespace name s.cached) address)

-- Whatever the controller does with its connections, in any order, from any state of them, each
-- request is answered as the directory of that state answers it: with the connection of the resource
-- if that is at the wanted address, else with a new one or with the error of its dial, which leave
-- the resource with the new connection or with none. Other resources are not affected.
pub answers-promised :
    (us : List Use) (s : Connections) → answers us s ≡ promised_answers us (promise s)
answers-promised [] s = refl
answers-promised (request refused namespace name address ∷ us) s =
    let r = client_for refused namespace name address s in
    ap (λ rest. r.0 ∷ rest) (answers-promised us r.1)
    ∙ ap (λ (o : Outcome ℕ × Promise). o.0 ∷ promised_answers us o.1)
        (client_for-serves refused namespace name address s)
answers-promised (release namespace name ∷ us) s =
    answers-promised us (close_client_for namespace name s)
    ∙ ap (promised_answers us) (closed-promise namespace name s)
