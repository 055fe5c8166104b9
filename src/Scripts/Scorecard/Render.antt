-- ===== src/Scripts/Scorecard/Render.antt =====
-- scripts/render_scorecard_summary.py: reading the SARIF file and rendering the summary.
use Prim.Native.String.{◌++◌ as ◌<>◌, compare}
use text.Mathlib.Text.{is_lt}
use kube_delivery_platform.Prelude.{
  ℕ, String, Bool, false, Option, none, some, List, [], ◌∷◌, ◌++◌, ◌==◌, length, map, if◌then◌else◌,
}
use kube_delivery_platform.Python.Value.{
  Value, null, str, list, dict, Items, cons, Fields, field_or,
}
use kube_delivery_platform.Python.Text.{join, prefix, decimal}
use kube_delivery_platform.Python.Exec.{Error, Reply, returned, raised, value_error, Exec}
use kube_delivery_platform.Python.Exec.Replies.{◌>>=◌}
use kube_delivery_platform.Python.Exec as Exec
use kube_delivery_platform.Scripts.Digests.{sorted}
use kube_delivery_platform.Scripts.Scorecard.{
  entries, CheckSummary, Checks, Collected, collect_checks, markdown, safe_http_url,
}

-- The file that `load_sarif` reads: its JSON, the text of an `OSError` or a `JSONDecodeError`, or
-- another exception, which is not caught.
pub data SarifFile : Type 0 where
  json : Value → SarifFile
  unreadable : String → SarifFile
  failed : Error → SarifFile

unfoldable pub is_version : Value → Bool
is_version (str s) = s == "2.1.0"
is_version _ = false

-- A list with an item in it.
unfoldable pub runs_of : Value → Option Items
runs_of (list (cons run rest)) = some (cons run rest)
runs_of _ = none

unfoldable pub require_runs : Value → Reply Items
require_runs runs = elim (runs_of runs) [
  | none ↦ raised (value_error "Scorecard SARIF contains no runs")
  | some items ↦ returned items
]

unfoldable pub load_sarif : SarifFile → Reply Fields
load_sarif (json (dict payload)) =
    let checked : Reply Fields =
      require_runs (field_or "runs" null payload) >>= λ runs. returned payload in
    if is_version (field_or "version" null payload)
    then checked
    else raised (value_error "Scorecard result is not SARIF 2.1.0")
load_sarif (json _) = raised (value_error "Scorecard result is not SARIF 2.1.0")
load_sarif (unreadable exc) = raised (value_error ("unable to read Scorecard SARIF: " <> exc))
load_sarif (failed e) = raised e

-- `str.casefold` and the percent encoding `quote(_, safe="/")` are parameters.
module _ (casefold : String → String) where
  -- Behind the checks with the same key: `sorted` is stable, and `sort` starts at the end.
  unfoldable pub insert_check : String × CheckSummary → Checks → Checks
  insert_check x [] = x ∷ []
  insert_check x (y ∷ ys) =
      let rest = insert_check x ys in
      if is_lt (compare (casefold y.0) (casefold x.0)) then y ∷ rest else x ∷ y ∷ ys

  -- `sorted(checks, key=str.casefold)`, with the values of the keys
  unfoldable pub sort : Checks → Checks
  sort [] = []
  sort (x ∷ xs) = insert_check x (sort xs)

unfoldable pub label : String → Option String → String
label name none = name
label name (some help_uri) =
    if help_uri == "" then name else "[" <> (name <> ("](" <> (help_uri <> ")")))

unfoldable pub check_row : String × CheckSummary → String
check_row (name, check) =
    "| "
    <> (label name check.help_uri
        <> (" | "
            <> (decimal check.counts.error
                <> (" | "
                    <> (decimal check.counts.warning
                        <> (" | "
                            <> (decimal check.counts.note
                                <> (" | " <> (decimal (entries check.counts) <> " |")))))))))

unfoldable pub check_rows : (String → String) → Checks → List String
check_rows casefold checks = map check_row (sort casefold checks)

abbrev or_text : String → String → String
or_text text default = if text == "" then default else text

abbrev metric : String → ℕ → String
metric name value = "| " <> (name <> (" | " <> (decimal value <> " |")))

unfoldable pub run_links : Option String → List String
run_links none = []
run_links (some run_link) = ("[Workflow run](" <> (run_link <> ")")) ∷ []

-- The arguments `repository`, `commit_sha` and `run_url`.
pub record Context : Type 0 where
  pub repository : String
  pub commit_sha : String
  pub run_url : String

module _ (casefold quote : String → String) where
  unfoldable pub summary_lines : Context → Collected → List String
  summary_lines args found =
      let repo_url = "https://github.com/" <> args.repository in
      let viewer_uri = quote ("github.com/" <> args.repository) in
      ("# OpenSSF Scorecard"
        ∷ ""
        ∷ ("> Repository: `"
            <> (markdown args.repository
                <> ("` · Commit: `"
                    <> (markdown (or_text (prefix 12 args.commit_sha) "unknown")
                        <> ("` · Scorecard: `"
                            <> (or_text (join ", " (sorted found.versions)) "not reported"
                                <> "`"))))))
        ∷ ""
        ∷ "## Scan overview"
        ∷ ""
        ∷ "| Metric | Value |"
        ∷ "| --- | ---: |"
        ∷ metric "Checks represented" (length found.checks)
        ∷ metric "SARIF entries" (entries found.totals)
        ∷ metric "Error entries" found.totals.error
        ∷ metric "Warning entries" found.totals.warning
        ∷ metric "Note entries" found.totals.note
        ∷ metric "Other entries" found.totals.other
        ∷ ""
        ∷ "## Results by check"
        ∷ ""
        ∷ "| Check | Errors | Warnings | Notes | Entries |"
        ∷ "| --- | ---: | ---: | ---: | ---: |"
        ∷ [])
      ++ (check_rows casefold found.checks
          ++ (""
              ∷ "## Detailed results"
              ∷ ""
              ∷ join " · " (
                  ("[OpenSSF report](https://securityscorecards.dev/viewer/?uri="
                    <> (viewer_uri <> ")"))
                  ∷ ("[Code scanning]("
                      <> (repo_url <> "/security/code-scanning?query=tool%3AScorecard)"))
                  ∷ run_links (safe_http_url args.run_url))
              ∷ ""
              ∷ "> SARIF is the source for this summary and Code Scanning. It represents check entries, not the canonical aggregate OpenSSF score; use the OpenSSF report for that score."
              ∷ ""
              ∷ []))

  unfoldable pub render_found : Context → Collected → Reply String
  render_found args found = elim found.checks [
    | [] ↦ raised (value_error "Scorecard SARIF contains no represented checks")
    | check ∷ rest ↦ returned (join "\n" (summary_lines args found))
  ]

module _ (repr : Value → String) (casefold quote : String → String) where
  unfoldable pub render_summary : Fields → Context → Reply String
  render_summary payload args = do
    runs ← require_runs (field_or "runs" null payload)
    found ← collect_checks repr runs
    render_found casefold quote args found

  -- The file of the summary is appended to at the end.
  unfoldable pub main : SarifFile → Context → Exec String ℕ
  main file args = Exec.◌>>=◌ (Exec.lift (load_sarif file)) λ payload.
      Exec.◌>>=◌ (Exec.lift (render_summary payload args))
        λ summary. Exec.◌>>◌ (Exec.modify (λ output. output <> summary)) (Exec.pure 0)
