-- ===== src/Shared.antt =====
-- internal/controller/shared/client.go, the goroutine of cmd/main.go that fills it, and
-- internal/controller/types/inter_controller_signal.go.
use k8sgpt_operator.Common.{ℕ, String, Option, none, some}
use k8sgpt_operator.Api.K8sgpt.{K8sgpt}

-- The process-wide variables; a client is the number of its connection.
pub record Shared : Type 0 where
  pub server_query_client : Option ℕ
  pub remote_backend : String
  pub k8sgpt_config : Option K8sgpt

pub record Signal : Type 0 where
  pub k8sgpt_client : Option ℕ
  pub backend : String
  pub k8sgpt : K8sgpt

abbrev pub unset : Shared
unset = record { server_query_client = none; remote_backend = ""; k8sgpt_config = none }

abbrev pub set_server_query_client : ℕ → Shared → Shared
set_server_query_client client s = record s { server_query_client = some client }

abbrev pub set_remote_backend : String → Shared → Shared
set_remote_backend backend s = record s { remote_backend = backend }

abbrev pub set_k8sgpt_config : K8sgpt → Shared → Shared
set_k8sgpt_config config s = record s { k8sgpt_config = some config }

abbrev received : Option ℕ → Signal → Shared → Shared
received none signal s = s
received (some client) signal s =
    set_k8sgpt_config signal.k8sgpt
      (set_remote_backend signal.backend (set_server_query_client client s))

-- One round of the loop over the channel.
unfoldable pub receive : Signal → Shared → Shared
receive signal s = received signal.k8sgpt_client signal s
