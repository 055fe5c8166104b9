-- ===== src/Scripts/Scorecard.antt =====
-- scripts/render_scorecard_summary.py: the checks that a Scorecard result in SARIF represents.
pub mod Results
pub mod Totals
pub mod Cells
pub mod Render
pub mod Table
use Prim.Native.Char.{code}
use Prim.Native.String.{◌++◌ as ◌<>◌}
use kube_delivery_platform.Prelude.{
  ℕ, suc, ◌+◌, String, ◌||◌, Option, none, some, List, [], ◌∷◌, ◌==◌, eqb, if◌then◌else◌,
}
use kube_delivery_platform.Python.Value.{
  Value, null, str, list, dict, Items, nil, cons, Fields, end, truthy, field_or, text_of,
}
use kube_delivery_platform.Python.Text.{after_prefix, lower_is, strip}
use kube_delivery_platform.Python.Exec.{Reply, returned, raised, attribute_error}
use kube_delivery_platform.Python.Exec.Replies.{◌>>=◌}

-- The names of the four counters of a check, which are the keys of the totals too.
pub data Level : Type 0 where
  error warning note other : Level

pub record Counts : Type 0 where
  pub error : ℕ
  pub warning : ℕ
  pub note : ℕ
  pub other : ℕ

abbrev pub no_counts : Counts
no_counts = record { error = 0; warning = 0; note = 0; other = 0 }

unfoldable pub bump : Level → Counts → Counts
bump error c = record c { error = suc c.error }
bump warning c = record c { warning = suc c.warning }
bump note c = record c { note = suc c.note }
bump other c = record c { other = suc c.other }

-- `sum(totals.values())`, and `entries` of a check
unfoldable pub entries : Counts → ℕ
entries c = c.error + c.warning + c.note + c.other

pub record CheckSummary : Type 0 where
  pub counts : Counts
  pub help_uri : Option String

-- The counter for a level that is not lowered yet.
unfoldable pub bucket : String → Level
bucket level =
    if lower_is "error" level
    then error
    else if lower_is "warning" level
    then warning
    else if lower_is "note" level
    then note
    else other

unfoldable pub add : String → CheckSummary → CheckSummary
add level c = record c { counts = bump (bucket level) c.counts }

-- `dict`s by insertion, the oldest key first.
abbrev pub Checks : Type 0
Checks = List (String × CheckSummary)

-- `checks.setdefault(name, default)`, and a change of what it returns
unfoldable pub setdefault : String → CheckSummary → (CheckSummary → CheckSummary) → Checks → Checks
setdefault name default f [] = (name, f default) ∷ []
setdefault name default f ((other_name, check) ∷ rest) =
    let after = setdefault name default f rest in
    if other_name == name then (other_name, f check) ∷ rest else (other_name, check) ∷ after

abbrev pub Names : Type 0
Names = List (String × String)

-- `rule_names[rule_id] = name`: the newest is found first.
unfoldable pub get_name : String → Names → Option String
get_name key [] = none
get_name key ((k, v) ∷ rest) = let found = get_name key rest in if k == key then some v else found

-- The three replacements of `_markdown_text`, which touch different characters.
unfoldable pub escape : String → String
escape String.[] = ""
escape (String.◌∷◌ c s) =
    let rest = escape s in
    if eqb (code c) b'|'
    then "\\|" <> rest
    else if eqb (code c) 13 || eqb (code c) 10
    then " " <> rest
    else String.◌∷◌ c rest

unfoldable pub markdown : String → String
markdown text = strip (escape text)

-- `a or b`
unfoldable pub or_else : Value → Value → Value
or_else a b = if truthy a then a else b

unfoldable pub safe_http_url : String → Option String
safe_http_url url =
    let https = after_prefix "https://" url in
    let http = after_prefix "http://" url in
    elim https [ some rest ↦ some url | none ↦ elim http [ some rest ↦ some url | none ↦ none ] ]

unfoldable pub items_or_nil : Value → Items
items_or_nil (list vs) = vs
items_or_nil _ = nil

unfoldable pub fields_or_end : Value → Fields
fields_or_end (dict fs) = fs
fields_or_end _ = end

-- `run.get("tool", {}).get("driver", {})`, and `{}` for a driver that is no dict
unfoldable pub driver_of : Value → Reply Fields
driver_of (dict tool) = returned (fields_or_end (field_or "driver" (dict end) tool))
driver_of _ = raised (attribute_error "get")

unfoldable pub insert_version : String → List String → List String
insert_version v [] = v ∷ []
insert_version v (w ∷ ws) = let rest = insert_version v ws in if w == v then w ∷ ws else w ∷ rest

-- What is collected: the checks, the totals and the versions.
pub record Collected : Type 0 where
  pub checks : Checks
  pub totals : Counts
  pub versions : List String

-- The `repr` of a list or dict is a parameter.
module _ (repr : Value → String) where
  unfoldable pub markdown_text : Value → String
  markdown_text value = markdown (text_of repr value)

  unfoldable pub rule_name : Fields → String
  rule_name rule = markdown_text (
      or_else (or_else (field_or "name" null rule) (field_or "id" null rule)) (str "Unknown check"))

  -- One turn of the loop over the rules: their names, and a check for each.
  unfoldable pub collect_rule : Fields → Names × Checks → Names × Checks
  collect_rule rule (names, checks) =
      let name = rule_name rule in
      let rule_id = text_of repr (or_else (field_or "id" null rule) (str name)) in
      let new : CheckSummary = record {
        counts = no_counts;
        help_uri = safe_http_url (text_of repr (field_or "helpUri" (str "") rule));
      } in
      ((rule_id, name) ∷ names, setdefault name new (λ check. check) checks)

  unfoldable pub collect_rules : Items → Names × Checks → Names × Checks
  collect_rules nil s = s
  collect_rules (cons (dict rule) rest) s = collect_rules rest (collect_rule rule s)
  collect_rules (cons _ rest) s = collect_rules rest s

  -- One turn of the loop over the results.
  unfoldable pub collect_result : Names → Fields → Checks × Counts → Checks × Counts
  collect_result names result (checks, totals) =
      let rule_id = text_of repr (or_else (field_or "ruleId" null result) (str "Unknown check")) in
      let name : String = elim (get_name rule_id names) [ some n ↦ n | none ↦ markdown rule_id ] in
      let level = text_of repr (or_else (field_or "level" null result) (str "none")) in
      let new : CheckSummary = record { counts = no_counts; help_uri = none } in
      (setdefault name new (add level) checks, bump (bucket level) totals)

  unfoldable pub collect_results : Names → Items → Checks × Counts → Checks × Counts
  collect_results names nil s = s
  collect_results names (cons (dict result) rest) s =
      collect_results names rest (collect_result names result s)
  collect_results names (cons _ rest) s = collect_results names rest s

  unfoldable pub add_version : Value → List String → List String
  add_version version versions =
      if truthy version then insert_version (markdown_text version) versions else versions

  -- One run: its driver's version, its rules and its results.
  unfoldable pub collect_run : Fields → Collected → Reply Collected
  collect_run run s = do
    driver ← driver_of (field_or "tool" (dict end) run)
    let rules = items_or_nil (field_or "rules" (list nil) driver)
    let (names, checks) = collect_rules rules ([], s.checks)
    let results = items_or_nil (field_or "results" (list nil) run)
    let (checks', totals) = collect_results names results (checks, s.totals)
    let versions = add_version (field_or "semanticVersion" null driver) s.versions
    returned (record { checks = checks'; totals = totals; versions = versions })

  unfoldable pub collect_from : Items → Collected → Reply Collected
  collect_from nil s = returned s
  collect_from (cons (dict run) rest) s = do after ← collect_run run s; collect_from rest after
  collect_from (cons _ rest) s = collect_from rest s

  unfoldable pub collect_checks : Items → Reply Collected
  collect_checks runs =
      collect_from runs (record { checks = []; totals = no_counts; versions = [] })
