-- ===== src/Controller/Image.antt =====
-- The image of the deployment, in internal/controller/k8sgpt/preAnalysis_step.go.
use k8sgpt_operator.Common.{String, Bool, not, ◌||◌, ◌==◌, if◌then◌else◌}
use k8sgpt_operator.Text.{◌<>◌, has_code, before, after}
use k8sgpt_operator.Api.K8sgpt.{K8sgptSpec}

-- The part behind the registry.
abbrev pub parse_name : String → String → String × String
parse_name registry name =
    if has_code b':' name
    then (registry <> ("/" <> before b':' name), after b':' name)
    else (registry <> ("/" <> name), "")

abbrev pub parse_local : String → String × String
parse_local uri = if has_code b':' uri then (before b':' uri, after b':' uri) else (uri, "")

-- parseImageURI: the repository and the version.
unfoldable pub parse_image_uri : String → String × String
parse_image_uri uri =
    if has_code b'/' uri then parse_name (before b'/' uri) (after b'/' uri) else parse_local uri

-- What updateDeploymentImage writes.
unfoldable pub deployment_image : K8sgptSpec → String
deployment_image spec = spec.repository <> (":" <> spec.version)

-- The test of PreAnalysisStep whether the image of the deployment is another.
unfoldable pub image_differs : K8sgptSpec → String → Bool
image_differs spec image =
    not ((parse_image_uri image).0 == spec.repository)
    || not ((parse_image_uri image).1 == spec.version)
