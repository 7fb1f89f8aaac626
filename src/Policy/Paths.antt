-- ===== src/Policy/Paths.antt =====
-- Which JSON pointers the policies allow and forbid.
pub mod Shape
pub mod Workload
use k8sgpt_operator.Common.{
  String, Bool, true, false, not, ◌&&◌, ◌||◌, List, [], ◌∷◌, ◌==◌, is_empty, if◌then◌else◌, ◌≡◌,
  refl,
}
use k8sgpt_operator.Text.{
  ◌<>◌, has_prefix, has_suffix, trim_prefix, trim_suffix, has_code, contains_text, all_digits,
  replace_all, text_functions,
}

-- escape: "~" and "/" in a key
unfoldable pub escape : String → String
escape segment = replace_all b'/' "~1" (replace_all b'~' "~0" segment)

-- What stands between the prefix and "/image".
abbrev pub middle : String → String → String
middle prefix path = trim_suffix "/image" (trim_prefix prefix path)

unfoldable pub image_path : String → String → Bool
image_path prefix path =
    if not (has_prefix prefix path) || not (has_suffix "/image" path)
    then false
    else if is_empty (middle prefix path) || has_code b'/' (middle prefix path)
    then false
    else all_digits (middle prefix path)

unfoldable pub pod_image_path : String → Bool
pod_image_path path = image_path "/spec/containers/" path || image_path "/spec/initContainers/" path

unfoldable pub pod_template_image_path : String → Bool
pod_template_image_path path =
    image_path "/spec/template/spec/containers/" path
    || image_path "/spec/template/spec/initContainers/" path

unfoldable pub cron_job_image_path : String → Bool
cron_job_image_path path =
    image_path "/spec/jobTemplate/spec/template/spec/containers/" path
    || image_path "/spec/jobTemplate/spec/template/spec/initContainers/" path

abbrev pub high_risk_prefixes : List String
high_risk_prefixes =
    "/metadata/ownerReferences" ∷ "/metadata/finalizers" ∷ "/metadata/managedFields"
    ∷ "/metadata/annotations" ∷ "/metadata/labels" ∷ "/status" ∷ "/spec/serviceAccountName"
    ∷ "/spec/hostNetwork" ∷ "/spec/hostPID" ∷ "/spec/hostIPC" ∷ "/spec/securityContext"
    ∷ "/spec/containers" ∷ "/spec/initContainers" ∷ "/spec/template/spec/serviceAccountName"
    ∷ "/spec/template/spec/hostNetwork" ∷ "/spec/template/spec/hostPID"
    ∷ "/spec/template/spec/hostIPC" ∷ "/spec/template/spec/securityContext"
    ∷ "/spec/template/spec/containers" ∷ "/spec/template/spec/initContainers" ∷ []

-- Is the path the prefix or below it?
unfoldable pub is_under : String → String → Bool
is_under prefix path = path == prefix || has_prefix (prefix <> "/") path

-- Does the `continue` of the loop pass over the prefix?
unfoldable pub is_image_exempt : String → String → Bool
is_image_exempt prefix path =
    has_suffix "/image" path
    && (contains_text "/containers" prefix || contains_text "/initContainers" prefix)

-- The loop of isHighRisk.
unfoldable pub is_risky_from : List String → String → Bool
is_risky_from [] path = false
is_risky_from (prefix ∷ prefixes) path =
    let rest = is_risky_from prefixes path in
    if is_under prefix path then (if is_image_exempt prefix path then rest else true) else rest

unfoldable pub is_high_risk : String → Bool
is_high_risk path = is_risky_from high_risk_prefixes path

-- What a run of these functions opens.
unfoldable pub path_rules : Unit {0}
unfolding text_functions escape image_path pod_image_path pod_template_image_path
    cron_job_image_path is_under is_image_exempt is_risky_from is_high_risk
path_rules = tt
