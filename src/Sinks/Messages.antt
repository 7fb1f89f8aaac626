-- ===== src/Sinks/Messages.antt =====
-- The sinks of pkg/sinks and what they send.
use k8sgpt_operator.Common.{
  ℕ, suc, String, not, ◌&&◌, List, [], ◌∷◌, Option, none, some, is_nil, Outcome, ok, err, Fault,
  failure, is_empty, nat_eq, ◌==◌, if◌then◌else◌,
}
use k8sgpt_operator.Text.{◌<>◌, decimal}
use k8sgpt_operator.Api.K8sgpt.{WebhookRef}
use k8sgpt_operator.Api.Result.{Failure, ResultSpec}
use k8sgpt_operator.Effect.{Effect, pure, call, ◌>>=◌}

pub data SinkKind : Type 0 where
  slack : SinkKind
  mattermost : SinkKind
  cloud_events : SinkKind

-- NewSink
unfoldable pub new_sink : String → SinkKind
new_sink type =
    if type == "slack"
    then slack
    else if type == "mattermost"
    then mattermost
    else if type == "cloudevents"
    then cloud_events
    else slack

-- SlackSink, MattermostSink and CloudEventsSink; the last three fields are those of Mattermost.
pub record Sink : Type 0 where
  pub kind : SinkKind
  pub endpoint : String
  pub k8sgpt : String
  pub channel : String
  pub user_name : String
  pub icon_url : String

-- s.Endpoint
abbrev pub endpoint_for : WebhookRef → (secret : String) → String
endpoint_for sink secret = if is_empty secret then sink.endpoint else secret

-- Configure of each type; `name` is the one of the configuration.
abbrev pub configured_as : SinkKind → WebhookRef → (name secret : String) → Sink
configured_as slack sink name secret = record {
  kind = slack;
  endpoint = endpoint_for sink secret;
  k8sgpt = name;
  channel = "";
  user_name = "";
  icon_url = "";
}
configured_as mattermost sink name secret = record {
  kind = mattermost;
  endpoint = endpoint_for sink secret;
  k8sgpt = name;
  channel = sink.channel;
  user_name = sink.user_name;
  icon_url = sink.icon_url;
}
configured_as cloud_events sink name secret = record {
  kind = cloud_events;
  endpoint = endpoint_for sink secret;
  k8sgpt = name;
  channel = "";
  user_name = "";
  icon_url = "";
}

-- NewSink and Configure.
unfoldable pub configured : WebhookRef → (name secret : String) → Sink
configured sink name secret = configured_as (new_sink sink.type) sink name secret

-- The attachment of each message; `type` is "mrkdwn" where the service has one.
pub record Attachment : Type 0 where
  pub type : String
  pub text : String
  pub color : String
  pub title : String

-- SlackMessage, MattermostMessage and CloudEventsData.
pub record Message : Type 0 where
  pub text : String
  pub channel : String
  pub user_name : String
  pub icon_url : String
  pub attachments : List Attachment

abbrev headline : String → ResultSpec → String
headline k8sgpt r =
    ">*[" <> (k8sgpt <> ("] K8sGPT analysis of the " <> (r.kind <> (" " <> (r.name <> "*")))))

abbrev report : (type details : String) → Attachment
report type details = record { type = type; text = details; color = "danger"; title = "Report" }

-- buildSlackMessage, and the data of buildCloudEventsStructuredContent.
unfoldable pub build_message : String → ResultSpec → Message
build_message k8sgpt r = record {
  text = headline k8sgpt r;
  channel = "";
  user_name = "";
  icon_url = "";
  attachments = report "mrkdwn" r.details ∷ [];
}

-- The numbered lines of the errors.
unfoldable pub error_lines : ℕ → List Failure → String
error_lines i [] = ""
error_lines i (e ∷ es) = (decimal (suc i) <> (". " <> (e.text <> "\n"))) <> error_lines (suc i) es

-- The details that Mattermost gets.
unfoldable pub details_or_errors : ResultSpec → String
details_or_errors r =
    if is_empty r.details && not (is_nil r.error) then error_lines 0 r.error else r.details

-- buildMattermostMessage
unfoldable pub build_mattermost_message : Sink → ResultSpec → Message
build_mattermost_message s r = record {
  text = headline s.k8sgpt r;
  channel = s.channel;
  user_name = s.user_name;
  icon_url = s.icon_url;
  attachments = report "" (details_or_errors r) ∷ [];
}

abbrev pub message_as : SinkKind → Sink → ResultSpec → Message
message_as slack s r = build_message s.k8sgpt r
message_as mattermost s r = build_mattermost_message s r
message_as cloud_events s r = build_message s.k8sgpt r

-- The message of a sink.
abbrev pub message_of : Sink → ResultSpec → Message
message_of s r = message_as s.kind s r

abbrev pub content_type : SinkKind → String
content_type slack = "application/json"
content_type mattermost = "application/json"
content_type cloud_events = "application/cloudevents+json"

-- An HTTP request: POST to an address.
pub record Request : Type 0 where
  pub url : String
  pub content_type : String
  pub body : String

pub record Response : Type 0 where
  pub status_code : ℕ
  pub status : String

-- json.Marshal of the message, for a CloudEvent with its identifier, its time and the rest;
-- http.NewRequest, which refuses a malformed address; and the answer of the service.
pub record Network : Type 0 where
  pub marshal : SinkKind → Message → Outcome String
  pub new_request : Request → Option Fault
  pub respond : List Request → Request → Outcome Response

module _ (n : Network) where
  abbrev pub outcome_of : Response → Option Fault
  outcome_of r =
      if nat_eq r.status_code 200
      then none
      else some (failure ("failed to send report: " <> r.status))

  abbrev pub checked : Outcome Response → Option Fault
  checked (err e) = some e
  checked (ok r) = outcome_of r

  abbrev pub send_if : Option Fault → Request → Effect Request (Option Fault)
  send_if (some e) request = pure (some e)
  send_if none request = do
    answer ← call request (λ log. n.respond log request)
    pure (checked answer)

  abbrev pub post : Sink → Outcome String → Effect Request (Option Fault)
  post s (err e) = pure (some e)
  post s (ok body) =
      let request : Request = record {
        url = s.endpoint;
        content_type = content_type s.kind;
        body = body;
      } in
      send_if (n.new_request request) request

  -- Emit
  unfoldable pub emit : Sink → ResultSpec → Effect Request (Option Fault)
  emit s r = post s (n.marshal s.kind (message_of s r))
