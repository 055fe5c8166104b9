-- ===== src/Scripts/ManifestTests.antt =====
-- Runs of verify_manifests.py on concrete files, and the theorem at concrete data.
use kube_delivery_platform.Prelude.{
  String, ◌≡◌, refl, ◌↔◌, Option, none, some, List, [], ◌∷◌, ◌==◌, if◌then◌else◌,
}
use kube_delivery_platform.Python.Value.{
  Value, null, str, dict, end, field, truthy, find_field, field_or, text_of,
}
use kube_delivery_platform.Python.Text.{after_prefix}
use kube_delivery_platform.Scripts.Manifests.{
  Documents, finished, document, broken, Content, text, unreadable, includes, has_key, is_text,
  is_kind_cluster, check_name, check_metadata, check_fields, check_document, then_errors,
  check_documents, validate_yaml_file, main,
}
use kube_delivery_platform.Scripts.Manifests.Valid.{DirsValid, main_iff}

abbrev repr : Value → String
repr v = "{}"

abbrev describe : Value → String
describe v = "no attribute 'get'"

abbrev manifest : Value → Value
manifest metadata =
    dict (field "apiVersion" (str "v1") (field "kind" (str "Pod") (field "metadata" metadata end)))

abbrev cluster : Value
cluster =
    dict (field "apiVersion" (str "kind.x-k8s.io/v1alpha4") (field "kind" (str "Cluster") end))

abbrev load : String → Documents
load content =
    if content == "good"
    then document (manifest (dict (field "name" (str "api") end))) finished
    else if content == "bad"
    then document cluster (document (manifest null) (document cluster finished))
    else broken "syntax"

validate : Content → List String
unfolding validate_yaml_file check_documents then_errors check_document check_fields check_metadata
    check_name is_kind_cluster is_text has_key includes text_of truthy find_field field_or
    after_prefix
validate = validate_yaml_file repr load "f" describe

run_good : validate (text "good") ≡ []
unfolding validate
run_good = refl

-- The third document is not looked at.
run_bad :
    validate (text "bad")
    ≡ "f: Missing name for kind Cluster" ∷ "f: YAML parsing error: no attribute 'get'" ∷ []
unfolding validate
run_bad = refl

run_template : validate (text "name: {{ .Values.name }}") ≡ []
unfolding validate
run_template = refl

abbrev dirs : List (Option (List (String × Content)))
dirs =
    some (("a.yaml", text "good") ∷ []) ∷ none ∷ some (("b.yaml", unreadable "missing") ∷ []) ∷ []

main_iff_example : (main repr load describe dirs ≡ 0) ↔ DirsValid repr load dirs
main_iff_example = main_iff repr load describe dirs
