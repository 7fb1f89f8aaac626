-- ===== src/Resources/Sync/Refused.antt =====
-- Sync where the Deployment cannot be built.
use k8sgpt_operator.Common.{String, List, ◌++◌, Option, is_some, Fault, All, ◌≡◌, ap, ◌∙◌}
use k8sgpt_operator.Built.{refused}
use k8sgpt_operator.Api.K8sgpt.{K8sgpt}
use k8sgpt_operator.Effect.{◌>>=◌}
use k8sgpt_operator.Resources.Objects.{Digest, ResourceCall, Store}
use k8sgpt_operator.Resources.Rights.{dynamic_rbac_enabled}
use k8sgpt_operator.Resources.Build.{get_deployment}
use k8sgpt_operator.Resources.Build.Reads.{IsSecretRead, get_deployment-IsSecretRead}
use k8sgpt_operator.Resources.Sync.{failed, sync_op, account_of, sync_built, sync}

-- Where GetDeployment fails, Sync returns its error and has read nothing but the Secret of the AI
-- part: no object is written.
pub sync_refused :
    (g : Digest) (s : Store) (rbac_variable : Option String) (config : K8sgpt)
    (log : List ResourceCall) (e : Fault)
    → (get_deployment g s config
        (is_some config.spec.kubeconfig)
        (account_of (dynamic_rbac_enabled rbac_variable) config)
        log).0
      ≡ refused e
    → (reads : List ResourceCall) × (sync g s rbac_variable config sync_op log
        ≡ (failed e, reads ++ log))
      × All (IsSecretRead config) reads
unfolding sync ◌>>=◌
sync_refused g s rbac_variable config log e h =
    let account = account_of (dynamic_rbac_enabled rbac_variable) config in
    let out = is_some config.spec.kubeconfig in
    let (reads, same, all) = (get_deployment-IsSecretRead g s config out account).at log in
    (
      reads,
      ap (λ x. sync_built g s rbac_variable config x (get_deployment g s config out account log).1)
            h
          ∙ ap (λ (l : List ResourceCall). (failed e, l)) same,
      all,
    )
