-- ===== src/Controller/Tests.antt =====
-- Runs of the controller, and the theorems at concrete inputs.
use k8sgpt_operator.Common.{List, String, [], false, none, ok, refl, true, ℕ, ◌∷◌, ◌≡◌, ◌≢◌, ◌≤◌}
use k8sgpt_operator.Text.{◌<>◌, text_functions, text_length}
use k8sgpt_operator.Api.Result.{Result}
use k8sgpt_operator.Fixtures.{reference}
use k8sgpt_operator.Fixtures.Configs.{finding}
use k8sgpt_operator.Fixtures.Servers.{toolkit, server}
use k8sgpt_operator.Effect.Emits.{Emits}
use k8sgpt_operator.Controller.Server.{Server}
use k8sgpt_operator.Controller.Connections.{
  Connections, no_connections, client_for, close_client_for, is_for, find_cached, delete_cached,
  close, dialled_to,
}
use k8sgpt_operator.Controller.Tidy.{IsTidy, Reachable, start, more, use_client, Reachable-IsTidy}
use k8sgpt_operator.Controller.Directory.{Use, request, release, answers, promised_answers, promise}
use k8sgpt_operator.Controller.Directory.Served.{answers-promised}
use k8sgpt_operator.Controller.Image.{parse_image_uri}
use k8sgpt_operator.Controller.Settled.{IsRepository, remote, parse_image_uri-append}
use k8sgpt_operator.Controller.Results.{hash_result_content, create_or_update_result, result_name}
use k8sgpt_operator.Controller.Upsert.{AnswersNamed, IsWriteOf, create_or_update_result-IsWriteOf}
use k8sgpt_operator.Controller.Analysis.{initial_breaker}
use k8sgpt_operator.Controller.Breaker.{failures, failures-opens}
use k8sgpt_operator.Controller.Remediate.{mutation_name}
use k8sgpt_operator.Controller.Names.{mutation_name-fits}

abbrev web_result : Result
web_result = finding "Deployment" "shop/web"

-- A server on which every result stands, with older labels.
abbrev holding : Server
holding = record server {
  result = λ log namespace name.
      ok (record web_result { namespace = namespace; name = name; labels = ("old", "label") ∷ [] });
}

answers_named : AnswersNamed holding
answers_named = (λ log namespace name r h. (cc, cc), λ log r stored h. (cc, cc))

create_or_update_result-IsWriteOf_example :
    Emits
      (IsWriteOf web_result (hash_result_content toolkit web_result.spec))
      (create_or_update_result toolkit holding web_result)
create_or_update_result-IsWriteOf_example =
    create_or_update_result-IsWriteOf toolkit holding web_result answers_named

-- Two resources, one of which moves to another address.
abbrev used : Connections
used = (client_for none "a" "x" "10.0.0.1:80" no_connections).1

abbrev moved : Connections
moved = (client_for none "a" "x" "10.0.0.2:80" used).1

moved-Reachable : Reachable moved
moved-Reachable =
    more (more start (use_client none "a" "x" "10.0.0.1:80" no_connections))
      (use_client none "a" "x" "10.0.0.2:80" used)

Reachable-IsTidy_example : IsTidy moved
Reachable-IsTidy_example = Reachable-IsTidy moved moved-Reachable

-- Only the second connection is open.
moved_test : moved.live ≡ 1 ∷ []
unfolding client_for close_client_for find_cached delete_cached close dialled_to is_for
moved_test = refl

is_image : IsRepository "ghcr.io/k8sgpt" "v0.4"
unfolding text_functions
is_image = remote "ghcr.io" "k8sgpt" refl refl refl

parse_image_uri-append_example :
    parse_image_uri ("ghcr.io/k8sgpt" <> (":" <> "v0.4")) ≡ ("ghcr.io/k8sgpt", "v0.4")
parse_image_uri-append_example = parse_image_uri-append "ghcr.io/k8sgpt" "v0.4" is_image

failures-opens_example :
    ((n : ℕ) → n ≤ 6 → (failures 5 n initial_breaker).allow_backend_ai_request ≡ true)
    × ((failures 5 7 initial_breaker).allow_backend_ai_request ≡ false)
failures-opens_example = failures-opens 5

eight_digits : (text : String) → text_length (toolkit.sha256_start text) ≡ 8
unfolding text_length
eight_digits text = refl

uid_known : (reference "Deployment").uid ≢ ""
uid_known e = cc

mutation_name-fits_example :
    text_length (mutation_name toolkit "shopweb" (reference "Deployment")) ≤ 63
mutation_name-fits_example =
    mutation_name-fits toolkit "shopweb" (reference "Deployment") eight_digits uid_known

-- Findings of different objects have one name of a result.
result_name_test : result_name "team/a-b" ≡ result_name "team-a/b"
unfolding result_name text_functions
result_name_test = refl

abbrev uses : List Use
uses =
    request none "a" "x" "10.0.0.2:80" ∷ release "a" "x" ∷ request none "a" "x" "10.0.0.2:80" ∷ []

answers-promised_example : answers uses moved ≡ promised_answers uses (promise moved)
answers-promised_example = answers-promised uses moved

-- The open connection is used again until it is released.
answers_test : answers uses moved ≡ ok 1 ∷ ok 2 ∷ []
unfolding client_for close_client_for find_cached delete_cached close dialled_to is_for
answers_test = refl
