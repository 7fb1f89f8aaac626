-- ===== src/Mutation/Proposal.antt =====
-- internal/controller/mutation/image_proposal.go and ParseYAMLProposal of
-- internal/controller/remediation/policy/gate.go.
use k8sgpt_operator.Common.{
  String, Bool, true, false, not, ◌&&◌, ◌||◌, List, [], ◌∷◌, Option, none, some, Outcome, ok, err,
  Fault, failure, is_empty, ◌==◌, if◌then◌else◌,
}
use k8sgpt_operator.Text.{◌<>◌, trim_space, trim_prefix, trim_suffix, has_code}
use k8sgpt_operator.Json.{Json, Members, str, obj, end, member, get, put}
use k8sgpt_operator.Kube.{Machinery}

abbrev is_end : Members → Bool
is_end end = true
is_end (member k v ms) = false

-- `err` with the text of the code before it: fmt.Errorf("…: %w", err)
abbrev pub wrap : String → Fault → Fault
wrap text e = record e { message = text <> e.message }

abbrev decoded_object : Outcome Members → Outcome Members
decoded_object (err e) = err (wrap "decode proposed object: " e)
decoded_object (ok object) =
    if is_end object then err (failure "proposed object is empty") else ok object

abbrev converted : Machinery → Outcome String → Outcome Members
converted k (err e) = err (wrap "convert proposed YAML to JSON: " e)
converted k (ok json) = decoded_object (k.json_to_object json)

-- ParseYAMLProposal
unfoldable pub parse_yaml_proposal : Machinery → String → Outcome Members
parse_yaml_proposal k text = converted k (k.yaml_to_json text)

abbrev pub container_paths : List (List String)
container_paths =
    ("spec" ∷ "containers" ∷ [])
    ∷ ("spec" ∷ "initContainers" ∷ [])
    ∷ ("spec" ∷ "template" ∷ "spec" ∷ "containers" ∷ [])
    ∷ ("spec" ∷ "template" ∷ "spec" ∷ "initContainers" ∷ [])
    ∷ ("spec" ∷ "jobTemplate" ∷ "spec" ∷ "template" ∷ "spec" ∷ "containers" ∷ [])
    ∷ ("spec" ∷ "jobTemplate" ∷ "spec" ∷ "template" ∷ "spec" ∷ "initContainers" ∷ [])
    ∷ []

-- container["name"] == name
abbrev pub is_text : Json → String → Bool
is_text (str s) name = s == name
is_text v name = false

-- A map whose name is the one that is sought, with the image set.
unfoldable pub with_image : String → String → Json → Option Json
with_image name image (obj ms) =
    if is_text (get "name" ms) name then some (obj (put "image" (str image) ms)) else none
with_image name image v = none

-- The inner loop of setContainerImage: the list with the first such container replaced.
unfoldable pub set_first : String → String → List Json → Option (List Json)
set_first name image [] = none
set_first name image (v ∷ vs) =
    let rest = set_first name image vs in
    elim (with_image name image v) [
      | some w ↦ some (w ∷ vs)
      | none ↦ elim rest [ none ↦ none | some ws ↦ some (v ∷ ws) ]
    ]

-- The outer loop: the object with the image set, `none` for false.
unfoldable pub set_image_at :
    Machinery → String → String → Members → List (List String) → Option Members
set_image_at k name image object [] = none
set_image_at k name image object (path ∷ paths) =
    let rest = set_image_at k name image object paths in
    elim (k.nested_slice path object) [
      | err e ↦ rest
      | ok found ↦ elim found [
        | none ↦ rest
        | some containers ↦ elim (set_first name image containers) [
          | none ↦ rest
          | some changed ↦ elim (k.set_nested_slice path changed object) [
            | err e ↦ none
            | ok object' ↦ some object'
          ]
        ]
      ]
    ]

unfoldable pub set_container_image : Machinery → Members → String → String → Option Members
set_container_image k object name image = set_image_at k name image object container_paths

-- The response without the fence of a code block.
unfoldable pub unfenced : String → String
unfenced response = trim_space (trim_prefix "```json" (trim_suffix "```" (trim_space response)))

-- The first test of imageSelectionProposal: a whole manifest.
abbrev is_manifest : Machinery → Outcome Members → Bool
is_manifest k (err e) = false
is_manifest k (ok object) = not (is_empty (k.api_version object)) && not (is_empty (k.kind object))

abbrev printed : Machinery → String → Option Members → Outcome String
printed k container none =
    err (failure ("container " <> k.quote container <> " is not present in the target manifest"))
printed k container (some object) = k.object_to_yaml object

abbrev selected_in : Machinery → Outcome Members → String → String → Outcome String
selected_in k (err e) container image = err e
selected_in k (ok object) container image =
    printed k container (set_container_image k object container image)

-- The checks of a decoded selection.
unfoldable pub use_selection : Machinery → String → String → String → Outcome String
use_selection k origin container image =
    if is_empty container || is_empty image || has_code 10 image || has_code 13 image
    then err (failure "response must include non-empty container and image")
    else selected_in k (parse_yaml_proposal k origin) container image

unfoldable pub image_selection_proposal : Machinery → String → String → Outcome String
image_selection_proposal k origin response =
    if is_manifest k (parse_yaml_proposal k response)
    then ok response
    else elim (k.json_to_selection (unfenced response)) [
      | err e ↦ err (wrap "response must be a JSON image selection: " e)
      | ok selection ↦ use_selection k origin selection.0 selection.1
    ]
