-- ===== src/Steps/Version.antt =====
-- The image that GetDeployment builds, as PreAnalysisStep reads it.
use k8sgpt_operator.Common.{
  String, not, ◌||◌, ◌≡◌, refl, ◌∙◌, inl, inr, is_empty, Bool-cases, eq_iff, eq_refl, ◌==◌,
  if◌then◌else◌,
}
use k8sgpt_operator.Api.K8sgpt.{K8sgpt, K8sgptSpec}
use k8sgpt_operator.Resources.Start.{image_of}
use k8sgpt_operator.Controller.Image.{image_differs}
use k8sgpt_operator.Controller.Settled.{IsRepository, parse_image_uri-append}

-- The version with its default.
abbrev pub version_of : K8sgptSpec → String
version_of spec = if is_empty spec.version then "latest" else spec.version

differs :
    (repository version wanted : String)
    → (not (repository == repository) || not (version == wanted)) ≡ not (version == wanted)
differs repository version wanted = rw (eq_refl repository) refl

is_open : (v : String) → not ((if is_empty v then "latest" else v) == v) ≡ is_empty v
is_open v = elim (Bool-cases (is_empty v)) [
  | inl h ↦ rw ((eq_iff v "").0 h) refl
  | inr h ↦ rw (h, eq_refl v) refl
]

-- For a repository and a version that are spelled as those of an image, PreAnalysisStep finds
-- another image than the one that GetDeployment built exactly where the configuration leaves the
-- version open.
pub image_differs-image_of :
    (config : K8sgpt)
    → IsRepository config.spec.repository (version_of config.spec)
    → image_differs config.spec (image_of config) ≡ is_empty config.spec.version
unfolding image_differs
image_differs-image_of config r =
    rw (parse_image_uri-append config.spec.repository (version_of config.spec) r) (
      differs config.spec.repository (version_of config.spec) config.spec.version
      ∙ is_open config.spec.version)
