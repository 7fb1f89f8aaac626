-- ===== src/Controller/Directory.antt =====
-- What clientFor and closeClientFor promise: a directory of one connection for each resource, which
-- forgets in what order the entries of the map were made.
pub mod Served
use k8sgpt_operator.Common.{
  ℕ, suc, String, Bool, ◌&&◌, List, [], ◌∷◌, Option, none, some, Outcome, ok, err, Fault, ◌==◌,
  if◌then◌else◌,
}
use k8sgpt_operator.Controller.Connections.{
  Cached, Connections, find_cached, close_client_for, client_for,
}

-- The address and the connection of each resource that has one.
abbrev pub Directory : Type 0
Directory = String → String → Option (String × ℕ)

unfoldable pub is_key : (namespace name namespace' name' : String) → Bool
is_key namespace name namespace' name' = namespace == namespace' && name == name'

abbrev pub assign : String → String → Option (String × ℕ) → Directory → Directory
assign namespace name v d namespace' name' =
    if is_key namespace name namespace' name' then v else d namespace' name'

-- The connection at the wanted address.
abbrev pub at_address : Option (String × ℕ) → String → Option ℕ
at_address none address = none
at_address (some (known, client)) address = if known == address then some client else none

-- The directory, and the number of the next connection.
abbrev pub Promise : Type 0
Promise = Directory × ℕ

-- A connection at the wanted address is kept. Any other one is given up for a new one, which is
-- entered if its dial succeeds.
abbrev pub serve :
    Option ℕ → Option Fault → (namespace name address : String) → Promise → Outcome ℕ × Promise
serve (some client) refused namespace name address p = (ok client, p)
serve none (some e) namespace name address (d, n) = (err e, (assign namespace name none d, n))
serve none none namespace name address (d, n) =
    (ok n, (assign namespace name (some (address, n)) d, suc n))

-- What the controller does with its connections: it asks for the client of a resource, whose dial
-- may be refused, or releases that of a deleted one.
pub data Use : Type 0 where
  request : (refused : Option Fault) → (namespace name address : String) → Use
  release : (namespace name : String) → Use

-- The answers to the requests, by the code and by the directory.
abbrev pub answers : List Use → Connections → List (Outcome ℕ)
answers [] s = []
answers (request refused namespace name address ∷ us) s =
    let r = client_for refused namespace name address s in let rest = answers us r.1 in r.0 ∷ rest
answers (release namespace name ∷ us) s = answers us (close_client_for namespace name s)

abbrev pub promised_answers : List Use → Promise → List (Outcome ℕ)
promised_answers [] p = []
promised_answers (request refused namespace name address ∷ us) p =
    let r = serve (at_address (p.0 namespace name) address) refused namespace name address p in
    let rest = promised_answers us r.1 in r.0 ∷ rest
promised_answers (release namespace name ∷ us) (d, n) =
    promised_answers us (assign namespace name none d, n)

abbrev pub entry_of : Option Cached → Option (String × ℕ)
entry_of none = none
entry_of (some e) = some (e.address, e.client)

-- The directory of the connections.
abbrev pub directory : Connections → Directory
directory s namespace name = entry_of (find_cached namespace name s.cached)

abbrev pub promise : Connections → Promise
promise s = (directory s, s.dialled)
