-- ===== src/Fixtures/Servers.antt =====
-- A concrete toolkit and a concrete API server for Results and Mutations.
use k8sgpt_operator.Common.{[], err, none, ok}
use k8sgpt_operator.Fixtures.{gone}
use k8sgpt_operator.Fixtures.Configs.{owner}
use k8sgpt_operator.Controller.Server.{Toolkit, Server}

abbrev pub toolkit : Toolkit
toolkit = record {
  marshal = λ content. ok content.name;
  sha256 = λ text. text;
  sha256_start = λ text. "0a1b2c3d";
  controller_ref = λ config. owner "K8sGPT" config.name;
  resource_for = λ kind. ok (record { group = "apps"; version = "v1" });
  labels = λ object. [];
}

-- A server without results and mutations that takes every change.
abbrev pub server : Server
server = record {
  results = λ log name namespace. ok [];
  result = λ log namespace name. err gone;
  create = λ log r. ok r;
  update = λ log r. ok r;
  update_status = λ log r. ok r;
  delete = λ log r. none;
  object = λ log g namespace name. err gone;
  mutation = λ log namespace name. err gone;
  create_mutation = λ log m. none;
  secret = λ log namespace name. ok [];
  emitted = λ log spec. none;
}
