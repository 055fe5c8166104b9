-- ===== src/Scripts/Manifests.antt =====
-- scripts/verify_manifests.py: the attributes that every Kubernetes manifest must have.
pub mod Valid
use Prim.Native.String.{◌++◌ as ◌<>◌}
use kube_delivery_platform.Prelude.{
  ℕ, String, Bool, true, false, ◌&&◌, Option, none, some, List, [], ◌∷◌, ◌++◌, ◌==◌, if◌then◌else◌,
}
use kube_delivery_platform.Python.Value.{
  Value, null, str, dict, Fields, end, truthy, find_field, field_or, text_of,
}
use kube_delivery_platform.Python.Text.{after_prefix}

-- What `yaml.safe_load_all` yields: the documents one by one, until it ends or raises. The keys of a
-- document that are no texts are left out.
pub data Documents : Type 0 where
  finished : Documents
  document : Value → Documents → Documents
  broken : String → Documents

-- A file as `read_text` finds it: its text, or the text of an exception.
pub data Content : Type 0 where
  text : String → Content
  unreadable : String → Content

-- `needle in text`
unfoldable pub includes : String → String → Bool
includes needle String.[] = needle == ""
includes needle (String.◌∷◌ c s) =
    let later = includes needle s in
    elim (after_prefix needle (String.◌∷◌ c s)) [ some rest ↦ true | none ↦ later ]

unfoldable pub has_key : String → Fields → Bool
has_key key doc = elim (find_field key doc) [ some v ↦ true | none ↦ false ]

unfoldable pub is_text : String → Value → Bool
is_text name (str s) = s == name
is_text name _ = false

module _ (repr : Value → String) (safe_load_all : String → Documents) where
  unfoldable pub is_kind_cluster : Fields → Bool
  is_kind_cluster doc =
      is_text "Cluster" (field_or "kind" null doc)
      && includes "kind.x-k8s.io" (text_of repr (field_or "apiVersion" null doc))

  module _ (file_path : String) where
    abbrev unless_named : Value → String → List String
    unless_named name message = if truthy name then [] else (file_path <> message) ∷ []

    -- By `doc.get("metadata", {})`: `none` is the `AttributeError` of the second `get`.
    unfoldable pub check_name : String → Value → Option (List String)
    check_name kind (dict metadata) =
        some (
          unless_named (field_or "name" null metadata)
            (": Missing metadata.name for kind " <> kind))
    check_name kind _ = none

    unfoldable pub check_metadata : Fields → Option (List String)
    check_metadata doc =
        check_name (text_of repr (field_or "kind" null doc)) (field_or "metadata" (dict end) doc)

    -- A document that is a dict and not empty.
    unfoldable pub check_fields : Fields → Option (List String)
    check_fields doc =
        if has_key "apiVersion" doc && has_key "kind" doc
        then (if is_kind_cluster doc
            then some (unless_named (field_or "name" null doc) ": Missing name for kind Cluster")
            else check_metadata doc)
        else some []

    unfoldable pub check_document : Value → Option (List String)
    check_document (dict end) = some []
    check_document (dict doc) = check_fields doc
    check_document _ = some []

    abbrev parsing_error : String → List String
    parsing_error err = (file_path <> (": YAML parsing error: " <> err)) ∷ []

    -- An exception ends the loop over the documents.
    unfoldable pub then_errors : String → Option (List String) → List String → List String
    then_errors err none more = parsing_error err
    then_errors err (some errors) more = errors ++ more

    -- The errors found before an exception are kept. The text of the `AttributeError` names the type
    -- of the value.
    unfoldable pub check_documents : (Value → String) → Documents → List String
    check_documents attribute_error finished = []
    check_documents attribute_error (broken err) = parsing_error err
    check_documents attribute_error (document doc rest) =
        then_errors (attribute_error doc) (check_document doc)
          (check_documents attribute_error rest)

    unfoldable pub validate_yaml_file : (Value → String) → Content → List String
    validate_yaml_file attribute_error (unreadable err) = parsing_error err
    validate_yaml_file attribute_error (text content) =
        if includes "{{" content
        then []
        else check_documents attribute_error (safe_load_all content)

  -- The files of the directories that exist, in the order of the scan.
  unfoldable pub validate_all : (Value → String) → List (String × Content) → List String
  validate_all attribute_error [] = []
  validate_all attribute_error ((file_path, content) ∷ rest) =
      validate_yaml_file file_path attribute_error content ++ validate_all attribute_error rest

  -- The scan: a directory that does not exist is passed over.
  unfoldable pub scan : List (Option (List (String × Content))) → List (String × Content)
  scan [] = []
  scan (none ∷ rest) = scan rest
  scan (some files ∷ rest) = files ++ scan rest

  -- The exit status.
  unfoldable pub main : (Value → String) → List (Option (List (String × Content))) → ℕ
  main attribute_error dirs = elim (validate_all attribute_error (scan dirs)) [
    | [] ↦ 0
    | err ∷ errs ↦ 1
  ]
