-- ===== src/Mutation/ProgressTests.antt =====
-- Three reconciliations of a mutation on a concrete cluster that takes the repair.
use k8sgpt_operator.Common.{true, [], some, ok, err, ◌≡◌, refl, if◌then◌else◌}
use k8sgpt_operator.Json.{get, find}
use k8sgpt_operator.Api.Result.{Result, not_started, successful}
use k8sgpt_operator.Api.Mutation.{Mutation}
use k8sgpt_operator.Shared.{unset}
use k8sgpt_operator.Fixtures.{broken, repaired, machinery, mutation_in, cluster, gone}
use k8sgpt_operator.Fixtures.Configs.{finding}
use k8sgpt_operator.Policy.Gate.{gate_rules}
use k8sgpt_operator.Mutation.Cluster.{Cluster}
use k8sgpt_operator.Mutation.Proposal.{parse_yaml_proposal, image_selection_proposal}
use k8sgpt_operator.Mutation.Reconcile.{client_of}
use k8sgpt_operator.Mutation.Rollout.{from_config, int_ge, deployment_ready}
use k8sgpt_operator.Mutation.Progress.{
  stored_after, is_patched, IsHeld, IsCured, IsProposed, IsAdmitted, IsRolledOut, calls_after,
}
use k8sgpt_operator.Mutation.Progress.Cured.{calls_after-successful}

abbrev fresh : Mutation
fresh = mutation_in not_started

abbrev web : Result
web = finding "Deployment" "shop/web"

-- The server holds the mutation, and the finding goes with the patch.
abbrev healing : Cluster
healing = record (cluster not_started) {
  mutation = λ log namespace name. ok (stored_after fresh log);
  result = λ log namespace name. if is_patched log then err gone else ok web;
  object = λ log g namespace name. if is_patched log then ok repaired else ok broken;
}

held : IsHeld healing fresh
held = record { read = λ log. refl; taken = λ log m. refl }

cured : IsCured healing fresh web gone
cured = record { found = λ log h. rw h refl; missing = λ log h. rw h refl; is_missing = refl }

proposes : IsProposed machinery healing fresh "repaired" repaired
unfolding image_selection_proposal parse_yaml_proposal from_config get find
proposes = record {
  response = "repaired";
  answered = λ log client backend prompt. refl;
  known = refl;
  selected = refl;
  given = refl;
  decoded = refl;
}

admitted : IsAdmitted machinery healing fresh broken broken repaired
unfolding parse_yaml_proposal gate_rules
admitted = record {
  parsed = refl;
  read = λ log h. rw h refl;
  allowed = refl;
  dry = λ log. refl;
  taken = λ log. refl;
}

rolled : IsRolledOut machinery healing fresh repaired
unfolding deployment_ready int_ge get find
rolled = record {
  version = record { group = "apps"; version = "v1" };
  typed = refl;
  read = λ log h. rw h refl;
  ready = refl;
}

connected : client_of (some 3) unset ≡ some 3
unfolding client_of
connected = refl

calls_after-successful_example :
    let log = calls_after machinery healing unset (some 3) fresh 3 [] in
    (is_patched log ≡ true) × ((stored_after fresh log).status.phase ≡ successful)
calls_after-successful_example =
    calls_after-successful machinery healing unset (some 3) fresh held 3 "repaired" broken broken
      repaired repaired web gone connected refl refl proposes admitted rolled cured
