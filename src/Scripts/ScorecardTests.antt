-- ===== src/Scripts/ScorecardTests.antt =====
-- A run of render_scorecard_summary.py on a concrete result, and the theorems at concrete data.
use Prim.Native.String.{◌++◌ as ◌<>◌}
use kube_delivery_platform.Prelude.{String, ◌≡◌, refl, ◌↔◌, ◌⊎◌, none, some, [], ◌∷◌}
use kube_delivery_platform.Python.Value.{
  Value, null, str, list, dict, Items, nil, cons, Fields, end, field, field_or, find_field, truthy,
  text_of,
}
use kube_delivery_platform.Python.Text.{
  decimal, decimal_from, digit, after_prefix, lower_code, lower_is, is_space, lstrip, rstrip, strip,
}
use kube_delivery_platform.Python.Exec.{Reply, returned, raised, attribute_error}
use kube_delivery_platform.Scripts.Scorecard.{
  Level, no_counts, bump, entries, bucket, add, setdefault, get_name, escape, markdown, or_else,
  safe_http_url, items_or_nil, fields_or_end, driver_of, insert_version, Collected, markdown_text,
  rule_name, collect_rule, collect_rules, collect_result, collect_results, add_version, collect_run,
  collect_from, collect_checks,
}
use kube_delivery_platform.Scripts.Scorecard.Results.{results_of}
use kube_delivery_platform.Scripts.Scorecard.Totals.{at, sum, collect_checks-totals}
use kube_delivery_platform.Scripts.Scorecard.Cells.{IsCell, markdown-IsCell}
use kube_delivery_platform.Scripts.Scorecard.Render.{
  sort, load_sarif, json, Context, render_summary, main, check_rows, check_row, label, insert_check,
}
use kube_delivery_platform.Scripts.Scorecard.Table.{Failed, main-appends, HasRuns, load_sarif_iff}

abbrev repr : Value → String
repr v = "[]"

abbrev same : String → String
same s = s

abbrev rule : Value
rule = dict (
    field "id" (str "T1")
      (field "name" (str "Token|Permissions") (field "helpUri" (str "https://x") end)))

abbrev result : String → String → Value
result rule_id level = dict (field "ruleId" (str rule_id) (field "level" (str level) end))

abbrev driver : Value
driver = dict (field "semanticVersion" (str "5.0") (field "rules" (list (cons rule nil)) end))

abbrev run : Value
run = dict (
    field "tool" (dict (field "driver" driver end)) (
      field "results"
        (list (cons (result "T1" "Warning") (cons (result "Other" "none") (cons null nil)))) end))

abbrev runs : Items
runs = cons run nil

abbrev payload : Fields
payload = field "version" (str "2.1.0") (field "runs" (list runs) end)

collect : Items → Reply Collected
unfolding collect_checks collect_from collect_run collect_results collect_result collect_rules
    collect_rule rule_name markdown_text text_of add_version insert_version driver_of fields_or_end
    items_or_nil safe_http_url or_else markdown escape strip rstrip lstrip is_space get_name
    setdefault add bucket lower_is lower_code bump field_or find_field truthy after_prefix
collect = collect_checks repr

abbrev found : Collected
found = record {
  checks =
      (
        "Token\\|Permissions",
        record { counts = record no_counts { warning = 1 }; help_uri = some "https://x" },
      )
      ∷ ("Other", record { counts = record no_counts { other = 1 }; help_uri = none })
      ∷ [];
  totals = record { error = 0; warning = 1; note = 0; other = 1 };
  versions = "5.0" ∷ [];
}

run_collect : collect runs ≡ returned found
unfolding collect
run_collect = refl

-- A `tool` that is no object is not passed over as other values of a wrong type are: it raises.
run_tool :
    collect (cons (dict (field "tool" (str "scorecard") end)) nil) ≡ raised (attribute_error "get")
unfolding collect
run_tool = refl

run_rows :
    check_rows same found.checks
    ≡ "| Other | 0 | 0 | 0 | 1 |" ∷ "| [Token\\|Permissions](https://x) | 0 | 1 | 0 | 1 |" ∷ []
unfolding check_rows check_row label sort insert_check decimal decimal_from digit entries
run_rows = refl

collect_checks-totals_example :
    ((l : Level) → at l found.totals ≡ sum l found.checks)
    × (entries found.totals ≡ results_of runs)
unfolding collect
collect_checks-totals_example = collect_checks-totals repr runs found refl

markdown-IsCell_example : IsCell (markdown "a|b")
markdown-IsCell_example = markdown-IsCell "a|b"

load_sarif_iff_example : (load_sarif (json (dict payload)) ≡ returned payload) ↔ (
    (json (dict payload) ≡ json (dict payload))
    × (field_or "version" null payload ≡ str "2.1.0")
    × HasRuns (field_or "runs" null payload))
load_sarif_iff_example = load_sarif_iff (json (dict payload)) payload

abbrev args : Context
args = record { repository = "o/r"; commit_sha = "0123456789abcdef"; run_url = "https://run" }

main-appends_example :
    (Failed (main repr same same (json (dict payload)) args "x").0
      × ((main repr same same (json (dict payload)) args "x").1 ≡ "x"))
    ⊎ ((p : Fields) × (summary : String) × (load_sarif (json (dict payload)) ≡ returned p)
        × (render_summary repr same same p args ≡ returned summary)
        × (main repr same same (json (dict payload)) args "x" ≡ (returned 0, "x" <> summary)))
main-appends_example = main-appends repr same same (json (dict payload)) args "x"
