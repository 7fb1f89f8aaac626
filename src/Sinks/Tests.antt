-- ===== src/Sinks/Tests.antt =====
-- The theorems on the messages at a concrete sink.
use k8sgpt_operator.Common.{[], none, ok, ◌≡◌, refl}
use k8sgpt_operator.Api.K8sgpt.{WebhookRef}
use k8sgpt_operator.Api.Result.{ResultSpec}
use k8sgpt_operator.Effect.{◌>>=◌}
use k8sgpt_operator.Effect.Emits.{Emits}
use k8sgpt_operator.Fixtures.Configs.{finding}
use k8sgpt_operator.Sinks.Messages.{Network, new_sink, configured, build_message, emit}
use k8sgpt_operator.Sinks.Delivery.{IsPostOf, IsDelivered, emit-IsPostOf, emit-IsDelivered}

-- A service that takes every post.
abbrev network : Network
network = record {
  marshal = λ kind m. ok m.text;
  new_request = λ request. none;
  respond = λ log request. ok (record { status_code = 200; status = "200 OK" });
}

abbrev webhook : WebhookRef
webhook = record {
  type = "slack";
  endpoint = "https://hooks.example";
  channel = "";
  user_name = "";
  icon_url = "";
  secret = none;
}

abbrev web : ResultSpec
web = (finding "Deployment" "shop/web").spec

emit-IsPostOf_example :
    Emits
      (IsPostOf network webhook "k8sgpt" "" web)
      (emit network (configured webhook "k8sgpt" "") web)
emit-IsPostOf_example = emit-IsPostOf network webhook "k8sgpt" "" web

accepted : (emit network (configured webhook "k8sgpt" "") web []).0 ≡ none
unfolding emit configured new_sink build_message ◌>>=◌
accepted = refl

emit-IsDelivered_example : IsDelivered network (configured webhook "k8sgpt" "") web []
emit-IsDelivered_example = emit-IsDelivered network (configured webhook "k8sgpt" "") web [] accepted
