-- ===== src/Policy/Paths/Workload.antt =====
-- The policies of workloads: what they allow is a container image, and is of no high risk.
use k8sgpt_operator.Common.{
  String, ◌≡◌, ◌⊎◌, inl, inr, refl, Bool, true, false, not, ◌&&◌, ◌||◌, List, [], ◌∷◌, some, eq_iff,
  Bool-cases, arith, All, subst, ap, or_else,
}
use k8sgpt_operator.Text.{◌<>◌, has_prefix, has_suffix, contains_text, text_functions}
use k8sgpt_operator.Text.Laws.{has_suffix-append, <>_assoc}
use k8sgpt_operator.Kube.{Gvk, gvk_eq}
use k8sgpt_operator.Policy.Types.{ResourcePolicy}
use k8sgpt_operator.Policy.Paths.{
  image_path, pod_image_path, pod_template_image_path, cron_job_image_path, high_risk_prefixes,
  is_under, is_image_exempt, is_risky_from, is_high_risk,
}
use k8sgpt_operator.Policy.Paths.Shape.{IsImageOf, image_path_iff}
use k8sgpt_operator.Policy.Gate.{registered_policies, find_policy}

-- The image of a container or an init container of a Pod, of a Pod template or of a CronJob.
pub data IsWorkloadImage (path : String) : Type 0 where
  pod : IsImageOf "/spec/containers/" path → IsWorkloadImage path
  pod_init : IsImageOf "/spec/initContainers/" path → IsWorkloadImage path
  template : IsImageOf "/spec/template/spec/containers/" path → IsWorkloadImage path
  template_init : IsImageOf "/spec/template/spec/initContainers/" path → IsWorkloadImage path
  cron_job :
      IsImageOf "/spec/jobTemplate/spec/template/spec/containers/" path → IsWorkloadImage path
  cron_job_init :
      IsImageOf "/spec/jobTemplate/spec/template/spec/initContainers/" path → IsWorkloadImage path

either : (a b : Bool) → (a || b) ≡ true → (a ≡ true) ⊎ (b ≡ true)
either a b h = ground arith

pod_image : (path : String) → pod_image_path path ≡ true → IsWorkloadImage path
unfolding pod_image_path
pod_image path h = elim (either (image_path "/spec/containers/" path) _ h) [
  | inl a ↦ pod ((image_path_iff _ path).0 a)
  | inr b ↦ pod_init ((image_path_iff _ path).0 b)
]

template_image : (path : String) → pod_template_image_path path ≡ true → IsWorkloadImage path
unfolding pod_template_image_path
template_image path h = elim (either (image_path "/spec/template/spec/containers/" path) _ h) [
  | inl a ↦ template ((image_path_iff _ path).0 a)
  | inr b ↦ template_init ((image_path_iff _ path).0 b)
]

cron_job_image : (path : String) → cron_job_image_path path ≡ true → IsWorkloadImage path
unfolding cron_job_image_path
cron_job_image path h =
    elim (either (image_path "/spec/jobTemplate/spec/template/spec/containers/" path) _ h) [
      | inl a ↦ cron_job ((image_path_iff _ path).0 a)
      | inr b ↦ cron_job_init ((image_path_iff _ path).0 b)
    ]

find_policy-All :
    (P : ResourcePolicy → Type 0) (g : Gvk) (ps : List ResourcePolicy) (p : ResourcePolicy)
    → All P ps
    → find_policy g ps ≡ some p
    → P p
unfolding find_policy
find_policy-All P g [] p h e = cc
find_policy-All P g (q ∷ qs) p (h, hs) e = elim (Bool-cases (gvk_eq q.gvk g)) [
  | inl here ↦ subst P (ap (or_else q) (rw here at e)) h
  | inr other ↦ find_policy-All P g qs p hs (rw other at e)
]

-- A policy that allows nothing but container images.
abbrev AllowsImages : ResourcePolicy → Type 0
AllowsImages p = (path : String) → p.allowed_path path ≡ true → IsWorkloadImage path

registered : All AllowsImages registered_policies
unfolding registered_policies
registered = (
  pod_image,
  (
    template_image,
    (template_image, (template_image, (template_image, (template_image, (cron_job_image, tt))))),
  ),
)

-- A registered policy allows nothing but container images.
pub registered-IsWorkloadImage :
    (g : Gvk) (p : ResourcePolicy) (path : String)
    → find_policy g registered_policies ≡ some p
    → p.allowed_path path ≡ true
    → IsWorkloadImage path
registered-IsWorkloadImage g p path e =
    find_policy-All AllowsImages g registered_policies p registered e path

-- The prefixes that the loop passes over for an image below the path's first part.
all_passed : String → List String → Bool
all_passed path [] = true
all_passed path (p ∷ ps) =
    not (has_suffix "/image" p)
    && ((contains_text "/containers" p || contains_text "/initContainers" p)
        || not (has_prefix (p <> "/") path))
    && all_passed path ps

exempt_or_apart :
    (p path : String)
    → has_suffix "/image" path ≡ true
    → has_suffix "/image" p ≡ false
    → ((contains_text "/containers" p || contains_text "/initContainers" p)
        || not (has_prefix (p <> "/") path))
      ≡ true
    → is_under p path ≡ true
    → is_image_exempt p path ≡ true
unfolding is_under is_image_exempt
exempt_or_apart p path s n h u = ground (arith, eq_iff path p)

is_risky_from_passed :
    (ps : List String) (path : String)
    → has_suffix "/image" path ≡ true
    → all_passed path ps ≡ true
    → is_risky_from ps path ≡ false
unfolding is_risky_from all_passed
is_risky_from_passed [] path s h = refl
is_risky_from_passed (p ∷ ps) path s h =
    ground (arith, is_risky_from_passed ps path s, exempt_or_apart p path s)

IsImageOf-suffix : (p path : String) → IsImageOf p path → has_suffix "/image" path ≡ true
IsImageOf-suffix p path (d, e, n, digits) =
    rw (e, ← <>_assoc p d "/image") (has_suffix-append (p <> d) "/image")

-- A path below one of the prefixes of an image is apart from all prefixes but the containers'.
image_not_risky :
    (p path : String)
    → ((rest : String) → all_passed (p <> rest) high_risk_prefixes ≡ true)
    → IsImageOf p path
    → is_high_risk path ≡ false
unfolding is_high_risk
image_not_risky p path passed i =
    is_risky_from_passed high_risk_prefixes path (IsImageOf-suffix p path i)
      (rw i.1 (passed (i.0 <> "/image")))

pod_passed : (rest : String) → all_passed ("/spec/containers/" <> rest) high_risk_prefixes ≡ true
unfolding text_functions all_passed
pod_passed rest = refl

pod_init_passed :
    (rest : String) → all_passed ("/spec/initContainers/" <> rest) high_risk_prefixes ≡ true
unfolding text_functions all_passed
pod_init_passed rest = refl

template_passed :
    (rest : String)
    → all_passed ("/spec/template/spec/containers/" <> rest) high_risk_prefixes ≡ true
unfolding text_functions all_passed
template_passed rest = refl

template_init_passed :
    (rest : String)
    → all_passed ("/spec/template/spec/initContainers/" <> rest) high_risk_prefixes ≡ true
unfolding text_functions all_passed
template_init_passed rest = refl

cron_job_passed :
    (rest : String)
    → all_passed ("/spec/jobTemplate/spec/template/spec/containers/" <> rest) high_risk_prefixes
      ≡ true
unfolding text_functions all_passed
cron_job_passed rest = refl

cron_job_init_passed :
    (rest : String)
    → all_passed ("/spec/jobTemplate/spec/template/spec/initContainers/" <> rest) high_risk_prefixes
      ≡ true
unfolding text_functions all_passed
cron_job_init_passed rest = refl

-- No container image is of high risk: the deny list takes nothing from the registered policies.
pub IsWorkloadImage-is_high_risk :
    (path : String) → IsWorkloadImage path → is_high_risk path ≡ false
IsWorkloadImage-is_high_risk path (pod i) = image_not_risky _ path pod_passed i
IsWorkloadImage-is_high_risk path (pod_init i) = image_not_risky _ path pod_init_passed i
IsWorkloadImage-is_high_risk path (template i) = image_not_risky _ path template_passed i
IsWorkloadImage-is_high_risk path (template_init i) = image_not_risky _ path template_init_passed i
IsWorkloadImage-is_high_risk path (cron_job i) = image_not_risky _ path cron_job_passed i
IsWorkloadImage-is_high_risk path (cron_job_init i) = image_not_risky _ path cron_job_init_passed i
