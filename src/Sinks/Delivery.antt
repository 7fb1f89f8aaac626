-- ===== src/Sinks/Delivery.antt =====
-- Where a result is sent, and when it counts as sent.
use k8sgpt_operator.Common.{
  String, false, true, List, [], ◌∷◌, Option, none, some, is_nil, Outcome, ok, err, Fault, ◌≡◌,
  refl, sym, subst, arith, ◌⊎◌, inl, inr, is_empty, Bool-cases, differs, eq_iff, ◌==◌,
}
use k8sgpt_operator.Text.{◌<>◌}
use k8sgpt_operator.Api.K8sgpt.{WebhookRef}
use k8sgpt_operator.Api.Result.{ResultSpec}
use k8sgpt_operator.Effect.{pure, ◌>>=◌}
use k8sgpt_operator.Effect.Emits.{Emits, Emits-pure, Emits-call, Emits-bind}
use k8sgpt_operator.Sinks.Messages.{
  SinkKind, slack, mattermost, cloud_events, new_sink, Sink, endpoint_for, configured_as,
  configured, Message, error_lines, details_or_errors, build_message, build_mattermost_message,
  message_of, content_type, Request, Response, Network, outcome_of, checked, send_if, post, emit,
}

-- The secret where it is not empty, and else the endpoint of the configuration.
abbrev pub IsAddress : WebhookRef → (secret url : String) → Type 0
IsAddress sink secret url =
    ((is_empty secret ≡ false) × (url ≡ secret))
    ⊎ ((is_empty secret ≡ true) × (url ≡ sink.endpoint))

-- The details where there are any or where no error is known, and else the lines of the errors.
abbrev pub IsDetails : ResultSpec → (text : String) → Type 0
IsDetails r text =
    (((is_empty r.details ≡ false) ⊎ (is_nil r.error ≡ true)) × (text ≡ r.details))
    ⊎ ((is_empty r.details ≡ true) × (is_nil r.error ≡ false) × (text ≡ error_lines 0 r.error))

-- The message about a result, with the fields that only Mattermost reads.
abbrev pub message_about :
    (name channel user_name icon_url type details : String) → ResultSpec → Message
message_about name channel user_name icon_url type details r = record {
  text = ">*[" <> (name <> ("] K8sGPT analysis of the " <> (r.kind <> (" " <> (r.name <> "*")))));
  channel = channel;
  user_name = user_name;
  icon_url = icon_url;
  attachments = record { type = type; text = details; color = "danger"; title = "Report" } ∷ [];
}

-- What each type of a sink sends: a CloudEvent, a message with the channel, the user and the icon
-- of the configuration for Mattermost, and Slack's message for every other type.
abbrev pub IsContentOf :
    Network → WebhookRef → (name : String) → ResultSpec → (content body : String) → Type 0
IsContentOf n sink name r content body =
    ((sink.type ≡ "cloudevents")
      × (content ≡ "application/cloudevents+json")
      × (n.marshal cloud_events (message_about name "" "" "" "mrkdwn" r.details r) ≡ ok body))
    ⊎ ((sink.type ≡ "mattermost")
        × (content ≡ "application/json")
        × ((details : String) × IsDetails r details
            × (n.marshal mattermost
                  (message_about name sink.channel sink.user_name sink.icon_url "" details r)
                ≡ ok body)))
    ⊎ ((¬ (sink.type ≡ "cloudevents"))
        × (¬ (sink.type ≡ "mattermost"))
        × (content ≡ "application/json")
        × (n.marshal slack (message_about name "" "" "" "mrkdwn" r.details r) ≡ ok body))

-- A post to the endpoint of the sink, with the content of its type.
abbrev pub IsPostOf : Network → WebhookRef → (name secret : String) → ResultSpec → Request → Type 0
IsPostOf n sink name secret r request =
    IsAddress sink secret request.url × IsContentOf n sink name r request.content_type request.body

endpoint_for-IsAddress :
    (sink : WebhookRef) (secret : String) → IsAddress sink secret (endpoint_for sink secret)
endpoint_for-IsAddress sink secret = ground arith

details_or_errors-IsDetails : (r : ResultSpec) → IsDetails r (details_or_errors r)
unfolding details_or_errors
details_or_errors-IsDetails r = ground arith

-- When NewSink takes which kind.
abbrev IsKind : String → SinkKind → Type 0
IsKind type cloud_events = type ≡ "cloudevents"
IsKind type mattermost = type ≡ "mattermost"
IsKind type slack = (¬ (type ≡ "cloudevents")) × (¬ (type ≡ "mattermost"))

new_sink-IsKind : (type : String) → IsKind type (new_sink type)
unfolding new_sink
new_sink-IsKind type = elim (Bool-cases (type == "cloudevents")) [
  | inl h ↦ subst (λ t. IsKind t (new_sink t)) (sym ((eq_iff type "cloudevents").0 h)) refl
  | inr h ↦ elim (Bool-cases (type == "mattermost")) [
    | inl g ↦ subst (λ t. IsKind t (new_sink t)) (sym ((eq_iff type "mattermost").0 g)) refl
    | inr g ↦
        rw (h, g)
          (elim (Bool-cases (type == "slack")) [
            | inl e ↦ rw e (differs h, differs g)
            | inr e ↦ rw e (differs h, differs g)
          ])
  ]
]

content_as :
    (n : Network) (kind : SinkKind) (sink : WebhookRef) (name secret : String) (r : ResultSpec)
    (body : String)
    → IsKind sink.type kind
    → n.marshal
        (configured_as kind sink name secret).kind
        (message_of (configured_as kind sink name secret) r)
      ≡ ok body
    → IsPostOf n sink name secret r (record {
      url = (configured_as kind sink name secret).endpoint;
      content_type = content_type (configured_as kind sink name secret).kind;
      body = body;
    })
unfolding build_message build_mattermost_message
content_as n slack sink name secret r body (c, m) q =
    (endpoint_for-IsAddress sink secret, inr (inr (c, m, refl, q)))
content_as n mattermost sink name secret r body t q = (
  endpoint_for-IsAddress sink secret,
  inr (inl (t, refl, (details_or_errors r, details_or_errors-IsDetails r, q))),
)
content_as n cloud_events sink name secret r body t q =
    (endpoint_for-IsAddress sink secret, inl (t, refl, q))

-- The message was marshalled, the address was accepted, and the service answered with 200.
abbrev pub IsDelivered : Network → Sink → ResultSpec → List Request → Type 0
IsDelivered n s r log =
    (body : String) × (response : Response) × (n.marshal s.kind (message_of s r) ≡ ok body)
    × (n.respond log (record { url = s.endpoint; content_type = content_type s.kind; body = body })
        ≡ ok response)
    × (response.status_code ≡ 200)

module _ (n : Network) where
  send_if-Emits :
      (P : Request → Type 0) (refused : Option Fault) (request : Request)
      → P request
      → Emits P (send_if n refused request)
  send_if-Emits P (some e) request p = Emits-pure P _
  send_if-Emits P none request p = Emits-bind P _ _ (Emits-call P _ _ p) (λ answer. Emits-pure P _)

  post-Emits :
      (P : Request → Type 0) (s : Sink) (o : Outcome String)
      → ((body : String)
          → o ≡ ok body
          → P (record { url = s.endpoint; content_type = content_type s.kind; body = body }))
      → Emits P (post n s o)
  post-Emits P s (err e) h = Emits-pure P _
  post-Emits P s (ok body) h = send_if-Emits P _ _ (h body refl)

  -- A sink posts to nothing but its endpoint: the secret where that is not empty, and else the
  -- endpoint of the configuration. It posts a CloudEvent under the type of one for "cloudevents",
  -- the message with the configured channel, user and icon for "mattermost", with the errors in
  -- place of empty details, and Slack's message for any other type, each about the given result.
  pub emit-IsPostOf :
      (sink : WebhookRef) (name secret : String) (r : ResultSpec)
      → Emits (IsPostOf n sink name secret r) (emit n (configured sink name secret) r)
  unfolding emit configured
  emit-IsPostOf sink name secret r =
      post-Emits (IsPostOf n sink name secret r) (configured sink name secret) _ (λ body q.
        content_as n (new_sink sink.type) sink name secret r body (new_sink-IsKind sink.type) q)

  ok_status : (r : Response) → outcome_of n r ≡ none → r.status_code ≡ 200
  ok_status r h = ground arith

  answered :
      (o : Outcome Response)
      → checked n o ≡ none
      → (response : Response) × (o ≡ ok response) × (response.status_code ≡ 200)
  answered (ok r) h = (r, refl, ok_status r h)
  answered (err e) h = cc

  sent :
      (refused : Option Fault) (request : Request) (log : List Request)
      → (send_if n refused request log).0 ≡ none
      → (response : Response) × (n.respond log request ≡ ok response) × (response.status_code ≡ 200)
  unfolding ◌>>=◌
  sent (some e) request log h = cc
  sent none request log h = answered (n.respond log request) h

  posted :
      (s : Sink) (r : ResultSpec) (o : Outcome String) (log : List Request)
      → n.marshal s.kind (message_of s r) ≡ o
      → (post n s o log).0 ≡ none
      → IsDelivered n s r log
  unfolding pure
  posted s r (err e) log m h = cc
  posted s r (ok body) log m h = let (response, p, q) = sent _ _ log h in (body, response, m, p, q)

  -- A result counts as sent only where the service answered the post of its message with 200.
  pub emit-IsDelivered :
      (s : Sink) (r : ResultSpec) (log : List Request)
      → (emit n s r log).0 ≡ none
      → IsDelivered n s r log
  unfolding emit
  emit-IsDelivered s r log h = posted s r _ log refl h
