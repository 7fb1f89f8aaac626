-- ===== src/Steps/Address.antt =====
-- GenerateAddress of pkg/client/client.go
use k8sgpt_operator.Common.{
  ℕ, String, Bool, not, List, [], ◌∷◌, Option, none, some, Fault, is_empty, if◌then◌else◌,
}
use k8sgpt_operator.Built.{Built, built, refused, crashed}
use k8sgpt_operator.Text.{◌<>◌, decimal}
use k8sgpt_operator.Api.K8sgpt.{K8sgpt}
use k8sgpt_operator.Effect.{Effect, pure, call, ◌>>=◌, on_outcome}
use k8sgpt_operator.Steps.Events.{Event, get_service, probe, Environment}

-- The address of a service; the one of an IPv6 address has brackets.
unfoldable pub address_text : (is_ipv4 : Bool) → (cluster_ip : String) → (port : ℕ) → String
address_text is_ipv4 ip port =
    if is_ipv4 then ip <> (":" <> decimal port) else "[" <> (ip <> ("]:" <> decimal port))

module _ (v : Environment) (local_mode : String) (config : K8sgpt) where
  abbrev answered : String → Option Fault → Built String
  answered address none = built address
  answered address (some e) = refused e

  -- The test whether the port is open.
  unfoldable pub probed : String → Effect Event (Built String)
  probed address = do
    failed ← call (probe address) (λ log. v.probe log address)
    pure (answered address failed)

  -- The first port is read.
  abbrev pub service_address : String → List ℕ → Effect Event (Built String)
  service_address ip [] = pure crashed
  service_address ip (port ∷ ports) = probed (address_text (v.is_ipv4 ip) ip port)

  -- GenerateAddress
  unfoldable pub generate_address : Effect Event (Built String)
  generate_address = if not (is_empty local_mode) then probed "localhost:8080" else (do
    found ←
        call (get_service config.namespace config.name)
          (λ log. v.service log config.namespace config.name)
    on_outcome found (λ e. pure (refused e))
        (λ service. service_address service.cluster_ip service.ports))
