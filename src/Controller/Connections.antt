-- ===== src/Controller/Connections.antt =====
-- The connections of internal/controller/k8sgpt/k8sgpt_controller.go, one for each K8sGPT resource.
use k8sgpt_operator.Common.{
  ℕ, suc, String, Bool, ◌&&◌, List, [], ◌∷◌, ◌++◌, Option, none, some, Outcome, ok, err, Fault,
  nat_eq, ◌==◌, if◌then◌else◌,
}

-- cachedClient under its key in the map; a client is the number of its connection.
pub record Cached : Type 0 where
  pub namespace : String
  pub name : String
  pub address : String
  pub client : ℕ

-- The map, the connections that are open, and how many were dialled: grpc.Dial numbers them.
pub record Connections : Type 0 where
  pub cached : List Cached
  pub live : List ℕ
  pub dialled : ℕ

abbrev pub no_connections : Connections
no_connections = record { cached = []; live = []; dialled = 0 }

-- Is the entry the one of the key?
unfoldable pub is_for : String → String → Cached → Bool
is_for namespace name e = e.namespace == namespace && e.name == name

-- r.kclients[key]
unfoldable pub find_cached : String → String → List Cached → Option Cached
find_cached namespace name [] = none
find_cached namespace name (e ∷ es) =
    if is_for namespace name e then some e else find_cached namespace name es

-- delete(r.kclients, key)
unfoldable pub delete_cached : String → String → List Cached → List Cached
delete_cached namespace name [] = []
delete_cached namespace name (e ∷ es) =
    let rest = delete_cached namespace name es in if is_for namespace name e then rest else e ∷ rest

-- cached.client.Close(), which leaves the connection closed even where it returns an error.
unfoldable pub close : ℕ → List ℕ → List ℕ
close client [] = []
close client (c ∷ cs) = let rest = close client cs in if nat_eq c client then rest else c ∷ rest

abbrev pub close_entry : Option Cached → String → String → Connections → Connections
close_entry none namespace name s = s
close_entry (some e) namespace name s = record s {
  cached = delete_cached namespace name s.cached;
  live = close e.client s.live;
}

-- closeClientFor
unfoldable pub close_client_for : String → String → Connections → Connections
close_client_for namespace name s =
    close_entry (find_cached namespace name s.cached) namespace name s

-- The dial of a new client: it fails, or the connection is open and in the map.
unfoldable pub dialled_to :
    Option Fault → String → String → String → Connections → Outcome ℕ × Connections
dialled_to (some e) namespace name address s = (err e, s)
dialled_to none namespace name address s = (
  ok s.dialled,
  record {
    cached =
        s.cached
        ++ record { namespace = namespace; name = name; address = address; client = s.dialled }
          ∷ [];
    live = s.live ++ s.dialled ∷ [];
    dialled = suc s.dialled;
  },
)

-- The test of the address of an entry.
abbrev pub reusable : Option Cached → String → Option ℕ
reusable none address = none
reusable (some e) address = if e.address == address then some e.client else none

abbrev pub reuse_or_dial :
    Option ℕ → Option Fault → String → String → String → Connections → Outcome ℕ × Connections
reuse_or_dial (some client) refused namespace name address s = (ok client, s)
reuse_or_dial none refused namespace name address s =
    dialled_to refused namespace name address (close_client_for namespace name s)

-- clientFor; `refused` is the error of the dial, should it come to one.
unfoldable pub client_for :
    Option Fault → String → String → String → Connections → Outcome ℕ × Connections
client_for refused namespace name address s =
    reuse_or_dial (reusable (find_cached namespace name s.cached) address) refused namespace name
      address s
