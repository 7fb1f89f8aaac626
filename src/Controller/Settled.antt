-- ===== src/Controller/Settled.antt =====
-- The image that the controller writes is the one that it looks for.
use Prim.Native.Char.{code}
use Prim.Native.String.{[], ◌∷◌}
use k8sgpt_operator.Common.{ℕ, String, true, false, ◌||◌, ◌≡◌, refl, ap, ◌∙◌, nat_eq, arith, eq_iff}
use k8sgpt_operator.Text.{◌<>◌, has_code, before, after, text_functions}
use k8sgpt_operator.Api.K8sgpt.{K8sgptSpec}
use k8sgpt_operator.Controller.Image.{
  parse_name, parse_local, parse_image_uri, deployment_image, image_differs,
}

-- Behind a text without the character, the first part of a split is that text.
module _ (n : ℕ) where
  pub before-append : (a b : String) → has_code n a ≡ false → before n (a <> b) ≡ a <> before n b
  unfolding before has_code ◌<>◌
  before-append [] b h = refl
  before-append (c ∷ a) b h =
      let other : nat_eq (code c) n ≡ false = ground arith in
      let rest : has_code n a ≡ false = ground arith in rw (other, before-append a b rest) refl

  pub after-append : (a b : String) → has_code n a ≡ false → after n (a <> b) ≡ after n b
  unfolding after has_code ◌<>◌
  after-append [] b h = refl
  after-append (c ∷ a) b h =
      let other : nat_eq (code c) n ≡ false = ground arith in
      let rest : has_code n a ≡ false = ground arith in rw other (after-append a b rest)

  pub has_code-append : (a b : String) → has_code n (a <> b) ≡ (has_code n a || has_code n b)
  unfolding has_code ◌<>◌
  has_code-append [] b = refl
  has_code-append (c ∷ a) b = ground (arith, has_code-append a b)

assoc : (a b c : String) → (a <> b) <> c ≡ a <> (b <> c)
unfolding ◌<>◌
assoc [] b c = refl
assoc (x ∷ a) b c = ap (λ s. x ∷ s) (assoc a b c)

at_slash :
    (s : String)
    → (has_code b'/' ("/" <> s) ≡ true)
      × (before b'/' ("/" <> s) ≡ "")
      × (after b'/' ("/" <> s) ≡ s)
unfolding text_functions
at_slash s = (refl, refl, refl)

at_colon :
    (s : String)
    → (has_code b':' (":" <> s) ≡ true)
      × (before b':' (":" <> s) ≡ "")
      × (after b':' (":" <> s) ≡ s)
unfolding text_functions
at_colon s = (refl, refl, refl)

append_empty : (s : String) → s <> "" ≡ s
unfolding ◌<>◌
append_empty [] = refl
append_empty (c ∷ s) = ap (λ t. c ∷ t) (append_empty s)

-- A repository as images spell it: a registry before the first slash and a name without a colon
-- behind it, or a name alone; the version of an image without a registry has no slash.
pub data IsRepository (repository version : String) : Type 0 where
  remote :
      (registry name : String)
      → repository ≡ registry <> ("/" <> name)
      → has_code b'/' registry ≡ false
      → has_code b':' name ≡ false
      → IsRepository repository version
  local :
      has_code b'/' repository ≡ false
      → has_code b':' repository ≡ false
      → has_code b'/' version ≡ false
      → IsRepository repository version

parse_name-colon :
    (registry name version : String)
    → has_code b':' name ≡ false
    → parse_name registry (name <> (":" <> version)) ≡ (registry <> ("/" <> name), version)
parse_name-colon registry name version h =
    let (found, none_before, rest) = at_colon version in
    rw
      (
        has_code-append b':' name (":" <> version),
        h,
        found,
        before-append b':' name (":" <> version) h,
        none_before,
        append_empty name,
        after-append b':' name (":" <> version) h,
        rest,
      )
      refl

parse_remote :
    (registry rest : String)
    → has_code b'/' registry ≡ false
    → parse_image_uri (registry <> ("/" <> rest)) ≡ parse_name registry rest
unfolding parse_image_uri
parse_remote registry rest h =
    let (found, none_before, behind) = at_slash rest in
    rw
      (
        has_code-append b'/' registry ("/" <> rest),
        h,
        found,
        before-append b'/' registry ("/" <> rest) h,
        none_before,
        append_empty registry,
        after-append b'/' registry ("/" <> rest) h,
        behind,
      )
      refl

parse_local-colon :
    (repository version : String)
    → has_code b':' repository ≡ false
    → parse_local (repository <> (":" <> version)) ≡ (repository, version)
parse_local-colon repository version h =
    let (found, none_before, behind) = at_colon version in
    rw
      (
        has_code-append b':' repository (":" <> version),
        h,
        found,
        before-append b':' repository (":" <> version) h,
        none_before,
        append_empty repository,
        after-append b':' repository (":" <> version) h,
        behind,
      )
      refl

-- The image of a repository and a version is parsed back into both.
pub parse_image_uri-append :
    (repository version : String)
    → IsRepository repository version
    → parse_image_uri (repository <> (":" <> version)) ≡ (repository, version)
unfolding parse_image_uri
parse_image_uri-append repository version (remote registry name e slash colon) =
    rw (e, assoc registry ("/" <> name) (":" <> version), assoc "/" name (":" <> version))
      (parse_remote registry (name <> (":" <> version)) slash
        ∙ parse_name-colon registry name version colon)
parse_image_uri-append repository version (local slash colon none_behind) =
    let no_slash : has_code b'/' (":" <> version) ≡ false =
      has_code-append b'/' ":" version ∙ (unfold text_functions in none_behind) in
    rw (has_code-append b'/' repository (":" <> version), slash, no_slash)
      (parse_local-colon repository version colon)

-- After updateDeploymentImage, the next reconciliation finds the image that it looks for and does
-- not write it again, where the repository and the version are spelled as those of an image.
pub deployment_image-settles :
    (spec : K8sgptSpec)
    → IsRepository spec.repository spec.version
    → image_differs spec (deployment_image spec) ≡ false
unfolding image_differs deployment_image
deployment_image-settles spec r = rw (parse_image_uri-append spec.repository spec.version r) (
    rw ((eq_iff spec.repository spec.repository).1 refl, (eq_iff spec.version spec.version).1 refl)
      refl)
