-- ===== src/Scripts/SummaryTests.antt =====
-- A run of generate_summary.py, and the theorem at concrete data.
use kube_delivery_platform.Prelude.{
  String, ◌≡◌, ◌≢◌, refl, ◌⊎◌, Option, none, some, [], ◌∷◌, ◌++◌, ◌==◌, if◌then◌else◌,
}
use kube_delivery_platform.Python.Exec.{Error, returned, raised}
use kube_delivery_platform.Python.Environ.{getenv}
use kube_delivery_platform.Python.Text.{prefix}
use kube_delivery_platform.Scripts.Summary.{origin, generate_summary, Outputs, main}
use kube_delivery_platform.Scripts.Summary.Target.{IsUnset, IsAppended, main-target}

abbrev environ : String → Option String
environ name =
    if name == "GITHUB_SHA"
    then some "0123456789abcdef"
    else if name == "GITHUB_STEP_SUMMARY"
    then some "summary.md"
    else none

abbrev refused : String → Option Error
refused path = none

abbrev files : Outputs
files = record { text = λ path. ""; printed = [] }

run_origin :
    origin environ
    ≡ "> **Commit:** `01234567` | **Branch:** `main` | **Target Environment:** `ephemeral-kind`"
unfolding origin getenv prefix
run_origin = refl

run_origin_local :
    origin (λ name. none)
    ≡ "> **Commit:** `local-de` | **Branch:** `main` | **Target Environment:** `ephemeral-kind`"
unfolding origin getenv prefix
run_origin_local = refl

main-target_example :
    let text = generate_summary environ in
    let end = main environ refused files in
    (IsUnset (some "summary.md")
      × (end ≡ (returned 0, record files { printed = [] ++ (text ∷ []) })))
    ⊎ ((path : String) × (some "summary.md" ≡ some path)
        × (path ≢ "")
        × (((err : Error) × (refused path ≡ some err) × (end ≡ (raised err, files)))
            ⊎ ((refused path ≡ none) × IsAppended files path text end)))
main-target_example = main-target environ refused files
