-- ===== src/Scripts/Manifests/Valid.antt =====
-- When a manifest is accepted, described without the loop.
use kube_delivery_platform.Prelude.{
  String, ◌≡◌, refl, ◌↔◌, ◌⊎◌, true, false, Option, none, some, List, [], ◌∷◌, ◌++◌, arith,
}
use kube_delivery_platform.Python.Value.{
  Value, null, dict, Fields, end, field, truthy, field_or, text_of,
}
use kube_delivery_platform.Scripts.Manifests.{
  Documents, finished, document, broken, Content, text, unreadable, includes, has_key,
  is_kind_cluster, check_name, check_metadata, check_fields, check_document, then_errors,
  check_documents, validate_yaml_file, validate_all, scan, main,
}

-- The `metadata` is a dict with a name.
abbrev pub HasName : Value → Type 0
HasName (dict metadata) = truthy (field_or "name" null metadata) ≡ true
HasName _ = ⊥

module _ (repr : Value → String) (safe_load_all : String → Documents) where
  -- A manifest has a name: that of a kind cluster is its own, that of any other is in its metadata.
  -- A document without an `apiVersion` or a `kind` is no manifest.
  abbrev pub IsNamed : Fields → Type 0
  IsNamed doc =
      (has_key "apiVersion" doc ≡ false)
      ⊎ (has_key "kind" doc ≡ false)
      ⊎ ((is_kind_cluster repr safe_load_all doc ≡ true)
          × (truthy (field_or "name" null doc) ≡ true))
      ⊎ ((is_kind_cluster repr safe_load_all doc ≡ false)
          × HasName (field_or "metadata" (dict end) doc))

  abbrev pub IsFine : Value → Type 0
  IsFine (dict end) = Unit
  IsFine (dict doc) = IsNamed doc
  IsFine _ = Unit

  abbrev pub AllFine : Documents → Type 0
  AllFine finished = Unit
  AllFine (document doc rest) = IsFine doc × AllFine rest
  AllFine (broken err) = ⊥

  -- A template, or documents that all load and are fine.
  abbrev pub IsValid : Content → Type 0
  IsValid (text content) = (includes "{{" content ≡ true) ⊎ AllFine (safe_load_all content)
  IsValid (unreadable err) = ⊥

  module _ (path : String) where
    check_name-HasName :
        (kind : String) (metadata : Value)
        → (check_name repr safe_load_all path kind metadata ≡ some []) ↔ HasName metadata
    unfolding check_name
    check_name-HasName kind (dict metadata) = ground arith
    check_name-HasName kind _ = (λ h. cc, λ h. absurd h)

    check_fields-IsNamed :
        (doc : Fields) → (check_fields repr safe_load_all path doc ≡ some []) ↔ IsNamed doc
    unfolding check_fields check_metadata
    check_fields-IsNamed doc = ground (
      arith,
      check_name-HasName (text_of repr (field_or "kind" null doc))
          (field_or "metadata" (dict end) doc),
    )

    check_document-IsFine :
        (doc : Value) → (check_document repr safe_load_all path doc ≡ some []) ↔ IsFine doc
    unfolding check_document
    check_document-IsFine (dict end) = (λ h. tt, λ h. refl)
    check_document-IsFine (dict (field k v rest)) = check_fields-IsNamed (field k v rest)
    check_document-IsFine _ = (λ h. tt, λ h. refl)

    then_errors-eq-nil :
        (err : String) (o : Option (List String)) (more : List String)
        → (then_errors repr safe_load_all path err o more ≡ []) ↔ ((o ≡ some []) × (more ≡ []))
    unfolding then_errors
    then_errors-eq-nil err none more = (λ h. cc, λ h. cc)
    then_errors-eq-nil err (some []) more = ground arith
    then_errors-eq-nil err (some (e ∷ es)) more = (λ h. cc, λ h. cc)

    check_documents-AllFine :
        (describe : Value → String) (docs : Documents)
        → (check_documents repr safe_load_all path describe docs ≡ []) ↔ AllFine docs
    unfolding check_documents
    check_documents-AllFine describe finished = (λ h. tt, λ h. refl)
    check_documents-AllFine describe (broken err) = (λ h. cc, λ h. absurd h)
    check_documents-AllFine describe (document doc rest) =
        let ih = check_documents-AllFine describe rest in
        let fine = check_document-IsFine doc in
        (
          λ h.
              let (one, more) =
                (then_errors-eq-nil _ (check_document repr safe_load_all path doc) _).0 h in
              (fine.0 one, ih.0 more),
          λ (one, more).
              (then_errors-eq-nil _ (check_document repr safe_load_all path doc) _).1
                (fine.1 one, ih.1 more),
        )

    validate_yaml_file-IsValid :
        (describe : Value → String) (content : Content)
        → (validate_yaml_file repr safe_load_all path describe content ≡ []) ↔ IsValid content
    unfolding validate_yaml_file
    validate_yaml_file-IsValid describe (unreadable err) = (λ h. cc, λ h. absurd h)
    validate_yaml_file-IsValid describe (text content) =
        ground (arith, check_documents-AllFine describe (safe_load_all content))

  abbrev pub AllValid : List (String × Content) → Type 0
  AllValid [] = Unit
  AllValid ((path, content) ∷ rest) = IsValid content × AllValid rest

  -- Every file of every directory that exists is valid.
  abbrev pub DirsValid : List (Option (List (String × Content))) → Type 0
  DirsValid [] = Unit
  DirsValid (none ∷ rest) = DirsValid rest
  DirsValid (some files ∷ rest) = AllValid files × DirsValid rest

  append-eq-nil : (xs ys : List String) → (xs ++ ys ≡ []) ↔ ((xs ≡ []) × (ys ≡ []))
  append-eq-nil [] ys = ground arith
  append-eq-nil (x ∷ xs) ys = (λ h. cc, λ h. cc)

  validate_all-AllValid :
      (describe : Value → String) (files : List (String × Content))
      → (validate_all repr safe_load_all describe files ≡ []) ↔ AllValid files
  unfolding validate_all
  validate_all-AllValid describe [] = (λ h. tt, λ h. refl)
  validate_all-AllValid describe ((path, content) ∷ rest) =
      let ih = validate_all-AllValid describe rest in
      let one = validate_yaml_file-IsValid path describe content in
      let both =
        append-eq-nil (validate_yaml_file repr safe_load_all path describe content)
          (validate_all repr safe_load_all describe rest) in
      (λ h. (one.0 (both.0 h).0, ih.0 (both.0 h).1), λ (a, b). both.1 (one.1 a, ih.1 b))

  AllValid-append :
      (xs ys : List (String × Content)) → AllValid (xs ++ ys) ↔ (AllValid xs × AllValid ys)
  AllValid-append [] ys = (λ h. (tt, h), λ h. h.1)
  AllValid-append (x ∷ xs) ys =
      let ih = AllValid-append xs ys in
      (λ h. ((h.0, (ih.0 h.1).0), (ih.0 h.1).1), λ h. (h.0.0, ih.1 (h.0.1, h.1)))

  AllValid-scan :
      (dirs : List (Option (List (String × Content))))
      → AllValid (scan repr safe_load_all dirs) ↔ DirsValid dirs
  unfolding scan
  AllValid-scan [] = (λ h. tt, λ h. tt)
  AllValid-scan (none ∷ rest) = AllValid-scan rest
  AllValid-scan (some files ∷ rest) =
      let ih = AllValid-scan rest in
      let both = AllValid-append files (scan repr safe_load_all rest) in
      (λ h. ((both.0 h).0, ih.0 (both.0 h).1), λ h. both.1 (h.0, ih.1 h.1))

  status-nil :
      (describe : Value → String) (dirs : List (Option (List (String × Content))))
      → (main repr safe_load_all describe dirs ≡ 0)
        ↔ (validate_all repr safe_load_all describe (scan repr safe_load_all dirs) ≡ [])
  unfolding main
  status-nil describe dirs = ground arith

  -- The script ends in status 0 exactly if every file of every directory that exists can be read and
  -- is a template or a stream of documents that loads to its end, in which each document that has an
  -- `apiVersion` and a `kind` has a name: its own if it is a kind cluster, else that of its metadata.
  pub main_iff :
      (describe : Value → String) (dirs : List (Option (List (String × Content))))
      → (main repr safe_load_all describe dirs ≡ 0) ↔ DirsValid dirs
  main_iff describe dirs =
      let status = status-nil describe dirs in
      let valid = validate_all-AllValid describe (scan repr safe_load_all dirs) in
      let scanned = AllValid-scan dirs in
      (λ h. scanned.0 (valid.0 (status.0 h)), λ h. status.1 (valid.1 (scanned.1 h)))
