-- ===== src/Steps/Events.antt =====
-- What the later steps call. Results and mutations are stored through the calls of
-- Controller/Server, and objects are read through those of Mutation/Cluster.
use k8sgpt_operator.Common.{ℕ, String, Bool, List, [], ◌∷◌, Option, Outcome, Fault}
use k8sgpt_operator.Kube.{Machinery, ObjectReference}
use k8sgpt_operator.Api.K8sgpt.{K8sgpt}
use k8sgpt_operator.Api.Result.{ResultSpec, Result}
use k8sgpt_operator.Shared.{Signal}
use k8sgpt_operator.Effect.Lift.{Embedding}
use k8sgpt_operator.Client.Requests.{AddConfigRequest, AnalyzeRequest}
use k8sgpt_operator.Mutation.Cluster.{Cluster, Call as ObjectCall}
use k8sgpt_operator.Controller.Server.{Toolkit, Server, Call}
use k8sgpt_operator.Metrics.{MetricBuilder}
use k8sgpt_operator.Controller.Connections.{Connections}
use k8sgpt_operator.Controller.Analysis.{Breaker}

-- A request to the K8sGPT server names its connection. `connect` is clientFor, which dials where it
-- has no client for the address.
pub data Event : Type 0 where
  update_image : (namespace name image : String) → Event
  get_service : (namespace name : String) → Event
  probe : (address : String) → Event
  connect : (address : String) → Event
  send_signal : Signal → Event
  add_config : (client : ℕ) → AddConfigRequest → Event
  forget_config : (client : ℕ) → Event
  list_integrations : (client : ℕ) → Event
  analyze : (client : ℕ) → AnalyzeRequest → Event
  warn : (message : String) → Event
  read_clock : Event
  update_status : K8sgpt → Event
  count_failed_call : (labels : List String) → Event
  set_results : (counts : List (String × ℕ)) → (k8sgpt : String) → Event
  set_mutations : ℕ → Event
  result_call : Call → Event
  object_call : ObjectCall → Event

-- corev1.Service, the fields that GenerateAddress reads.
pub record ServiceAddress : Type 0 where
  pub cluster_ip : String
  pub ports : List ℕ

-- The answers, functions of what was called before, and what is computed with outside the
-- repository: net.ParseIP(s).To4() != nil and the way of the findings through JSON.
pub record Environment : Type 0 where
  pub machinery : Machinery
  pub toolkit : Toolkit
  pub reference : Result → Outcome ObjectReference
  pub server : Server
  pub cluster : Cluster
  pub is_ipv4 : String → Bool
  pub decode_results : String → Outcome (List ResultSpec)
  pub has_recorder : Bool
  pub metrics : MetricBuilder
  pub update_image : List Event → (namespace name image : String) → Option Fault
  pub service : List Event → (namespace name : String) → Outcome ServiceAddress
  pub probe : List Event → String → Option Fault
  pub dial : List Event → String → Option Fault
  pub add_config : List Event → ℕ → AddConfigRequest → Option Fault
  pub remove_config : List Event → ℕ → Option Fault
  pub integrations : List Event → ℕ → Outcome (Option Bool)
  pub analyze : List Event → ℕ → AnalyzeRequest → Outcome String
  pub now : List Event → ℕ
  pub update_status : List Event → K8sgpt → Option Fault

-- What lasts from one reconciliation to the next.
pub record World : Type 0 where
  pub connections : Connections
  pub breaker : Breaker

abbrev result_calls : List Event → List Call
result_calls [] = []
result_calls (result_call c ∷ es) = c ∷ result_calls es
result_calls (_ ∷ es) = result_calls es

abbrev object_calls : List Event → List ObjectCall
object_calls [] = []
object_calls (object_call c ∷ es) = c ∷ object_calls es
object_calls (_ ∷ es) = object_calls es

abbrev pub on_results : Embedding Call Event
on_results = record { inject = result_call; project = result_calls }

abbrev pub on_objects : Embedding ObjectCall Event
on_objects = record { inject = object_call; project = object_calls }
