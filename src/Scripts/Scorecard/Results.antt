-- ===== src/Scripts/Scorecard/Results.antt =====
-- How many results the totals count.
use kube_delivery_platform.Prelude.{ℕ, ◌+◌, String, ◌≡◌, ◌∙◌, [], arith}
use kube_delivery_platform.Python.Value.{Value, list, dict, Items, nil, cons, Fields, end, field_or}
use kube_delivery_platform.Python.Exec.{returned}
use kube_delivery_platform.Python.Exec.Replies.{>>=-eq-returned, returned_subst}
use kube_delivery_platform.Scripts.Scorecard.{
  Level, error, warning, note, other, Counts, bump, entries, Checks, Names, Collected, driver_of,
  items_or_nil, collect_rules, collect_result, collect_results, collect_run, collect_from,
}

entries-bump : (k : Level) (c : Counts) → entries (bump k c) ≡ entries c + 1
unfolding bump entries
entries-bump error c = omega arith
entries-bump warning c = omega arith
entries-bump note c = omega arith
entries-bump other c = omega arith

-- How many results are represented: those that are dicts.
abbrev pub results : Items → ℕ
results nil = 0
results (cons (dict result) rest) = 1 + results rest
results (cons _ rest) = results rest

abbrev pub results_of : Items → ℕ
results_of nil = 0
results_of (cons (dict run) rest) =
    results (items_or_nil (field_or "results" (list nil) run)) + results_of rest
results_of (cons _ rest) = results_of rest

module _ (repr : Value → String) where
  entries-collect_results :
      (names : Names) (rs : Items) (checks : Checks) (totals : Counts)
      → entries (collect_results repr names rs (checks, totals)).1 ≡ entries totals + results rs
  unfolding collect_results collect_result
  entries-collect_results names nil checks totals = omega arith
  entries-collect_results names (cons (dict result) rest) checks totals =
      entries-collect_results names rest _ _ ∙ omega (arith, entries-bump _ totals)
  entries-collect_results names (cons _ rest) checks totals =
      entries-collect_results names rest checks totals

  entries-collect_run :
      (run : Fields) (s s' : Collected)
      → collect_run repr run s ≡ returned s'
      → entries s'.totals
        ≡ entries s.totals + results (items_or_nil (field_or "results" (list nil) run))
  unfolding collect_run
  entries-collect_run run s s' h =
      let rs = items_or_nil (field_or "results" (list nil) run) in
      let (driver, e, h') = >>=-eq-returned (driver_of (field_or "tool" (dict end) run)) _ h in
      let found =
        collect_rules repr (items_or_nil (field_or "rules" (list nil) driver)) ([], s.checks) in
      returned_subst (λ c. entries c.totals ≡ entries s.totals + results rs) _ s' h'
        (entries-collect_results found.0 rs found.1 s.totals)

  pub entries-collect_from :
      (runs : Items) (s s' : Collected)
      → collect_from repr runs s ≡ returned s'
      → entries s'.totals ≡ entries s.totals + results_of runs
  unfolding collect_from
  entries-collect_from nil s s' h =
      returned_subst (λ c. entries c.totals ≡ entries s.totals + 0) s s' h (omega arith)
  entries-collect_from (cons (dict run) rest) s s' h =
      let (after, e, h') = >>=-eq-returned (collect_run repr run s) _ h in
      omega (arith, entries-collect_run run s after e, entries-collect_from rest after s' h')
  entries-collect_from (cons _ rest) s s' h = entries-collect_from rest s s' h
