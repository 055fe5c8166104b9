-- ===== src/Scripts/Scorecard/Totals.antt =====
-- The table of the checks adds up to the overview.
use kube_delivery_platform.Prelude.{
  ℕ, ◌+◌, String, ◌≡◌, refl, ◌∙◌, [], ◌∷◌, ◌==◌, inl, inr, arith, Bool-cases,
}
use kube_delivery_platform.Python.Value.{Value, list, dict, Items, nil, cons, Fields, end, field_or}
use kube_delivery_platform.Python.Exec.{returned}
use kube_delivery_platform.Python.Exec.Replies.{>>=-eq-returned, returned_subst}
use kube_delivery_platform.Scripts.Scorecard.Results.{results_of, entries-collect_from}
use kube_delivery_platform.Scripts.Scorecard.{
  Level, error, warning, note, other, Counts, no_counts, bump, entries, CheckSummary, bucket, add,
  Checks, setdefault, Names, Collected, driver_of, items_or_nil, collect_rule, collect_rules,
  collect_result, collect_results, collect_run, collect_from, collect_checks,
}

abbrev pub at : Level → Counts → ℕ
at error c = c.error
at warning c = c.warning
at note c = c.note
at other c = c.other

-- The counters of a level, summed up over all checks.
abbrev pub sum : Level → Checks → ℕ
sum l [] = 0
sum l ((name, check) ∷ rest) = at l check.counts + sum l rest

-- A change of a check raises the counters by `d`.
abbrev Raises : (Level → ℕ) → (CheckSummary → CheckSummary) → Type 0
Raises d f = (l : Level) (c : CheckSummary) → at l (f c).counts ≡ at l c.counts + d l

sum-setdefault :
    (d : Level → ℕ) (f : CheckSummary → CheckSummary) (name : String) (new : CheckSummary)
    (checks : Checks) (l : Level)
    → Raises d f
    → at l new.counts ≡ 0
    → sum l (setdefault name new f checks) ≡ sum l checks + d l
unfolding setdefault
sum-setdefault d f name new [] l h z = omega (arith, h l new)
sum-setdefault d f name new ((k, c) ∷ rest) l h z =
    let ih = sum-setdefault d f name new rest l h z in
    elim (Bool-cases (k == name)) [
      | inl e ↦ rw e (omega (arith, h l c))
      | inr e ↦ rw e (omega (arith, ih))
    ]

-- One at the level `k`.
abbrev one : Level → Counts
one error = record no_counts { error = 1 }
one warning = record no_counts { warning = 1 }
one note = record no_counts { note = 1 }
one other = record no_counts { other = 1 }

abbrev one_at : Level → Level → ℕ
one_at k l = at l (one k)

at-bump : (k l : Level) (c : Counts) → at l (bump k c) ≡ at l c + one_at k l
unfolding bump
at-bump error error c = omega arith
at-bump error warning c = omega arith
at-bump error note c = omega arith
at-bump error other c = omega arith
at-bump warning error c = omega arith
at-bump warning warning c = omega arith
at-bump warning note c = omega arith
at-bump warning other c = omega arith
at-bump note error c = omega arith
at-bump note warning c = omega arith
at-bump note note c = omega arith
at-bump note other c = omega arith
at-bump other error c = omega arith
at-bump other warning c = omega arith
at-bump other note c = omega arith
at-bump other other c = omega arith

at-no_counts : (l : Level) → at l no_counts ≡ 0
at-no_counts error = refl
at-no_counts warning = refl
at-no_counts note = refl
at-no_counts other = refl

add-Raises : (level : String) → Raises (one_at (bucket level)) (add level)
unfolding add
add-Raises level l c = at-bump (bucket level) l c.counts

none_at : Level → ℕ
none_at l = 0

module _ (repr : Value → String) where
  module _ (l : Level) where
    sum-collect_rules :
        (rules : Items) (names : Names) (checks : Checks)
        → sum l (collect_rules repr rules (names, checks)).1 ≡ sum l checks
    unfolding collect_rules collect_rule none_at
    sum-collect_rules nil names checks = refl
    sum-collect_rules (cons (dict rule) rest) names checks =
        sum-collect_rules rest _ _
        ∙ omega (
          arith,
          sum-setdefault none_at (λ check. check) _ _ checks l (λ k c. omega arith)
              (at-no_counts l),
        )
    sum-collect_rules (cons _ rest) names checks = sum-collect_rules rest names checks

    sum-add :
        (level name : String) (new : CheckSummary) (checks : Checks) (totals : Counts)
        → at l new.counts ≡ 0
        → at l (bump (bucket level) totals) + sum l checks
          ≡ at l totals + sum l (setdefault name new (add level) checks)
    sum-add level name new checks totals z = omega (
      arith,
      at-bump (bucket level) l totals,
      sum-setdefault (one_at (bucket level)) (add level) name new checks l (add-Raises level) z,
    )

    sum-collect_result :
        (names : Names) (result : Fields) (checks : Checks) (totals : Counts)
        → let s = collect_result repr names result (checks, totals) in
          at l s.1 + sum l checks ≡ at l totals + sum l s.0
    unfolding collect_result
    sum-collect_result names result checks totals = sum-add _ _ _ checks totals (at-no_counts l)

    -- The totals of a level go up with the sum of its counters.
    sum-collect_results :
        (names : Names) (rs : Items) (checks : Checks) (totals : Counts)
        → let s = collect_results repr names rs (checks, totals) in
          at l s.1 + sum l checks ≡ at l totals + sum l s.0
    unfolding collect_results
    sum-collect_results names nil checks totals = refl
    sum-collect_results names (cons (dict result) rest) checks totals =
        let next = collect_result repr names result (checks, totals) in
        omega (
          arith,
          sum-collect_results names rest next.0 next.1,
          sum-collect_result names result checks totals,
        )
    sum-collect_results names (cons _ rest) checks totals =
        sum-collect_results names rest checks totals

    -- The totals are the sums of the counters.
    abbrev pub IsBalanced : Collected → Type 0
    IsBalanced s = at l s.totals ≡ sum l s.checks

    collect_run-IsBalanced :
        (run : Fields) (s s' : Collected)
        → IsBalanced s
        → collect_run repr run s ≡ returned s'
        → IsBalanced s'
    unfolding collect_run
    collect_run-IsBalanced run s s' b h =
        let (driver, e, h') = >>=-eq-returned (driver_of (field_or "tool" (dict end) run)) _ h in
        let found =
          collect_rules repr (items_or_nil (field_or "rules" (list nil) driver)) ([], s.checks) in
        let kept =
          sum-collect_rules (items_or_nil (field_or "rules" (list nil) driver)) [] s.checks in
        let counted =
          sum-collect_results found.0 (items_or_nil (field_or "results" (list nil) run)) found.1
            s.totals in
        returned_subst IsBalanced _ s' h' (omega (arith, b, kept, counted))

    collect_from-IsBalanced :
        (runs : Items) (s s' : Collected)
        → IsBalanced s
        → collect_from repr runs s ≡ returned s'
        → IsBalanced s'
    unfolding collect_from
    collect_from-IsBalanced nil s s' b h = ground arith
    collect_from-IsBalanced (cons (dict run) rest) s s' b h =
        let (after, e, h') = >>=-eq-returned (collect_run repr run s) _ h in
        collect_from-IsBalanced rest after s' (collect_run-IsBalanced run s after b e) h'
    collect_from-IsBalanced (cons _ rest) s s' b h = collect_from-IsBalanced rest s s' b h

  -- If the checks are collected, the total of each level is the sum of the checks' counters of that
  -- level, and all totals together are the number of results in the runs, so that no result is lost
  -- and none is counted twice.
  pub collect_checks-totals :
      (runs : Items) (s : Collected)
      → collect_checks repr runs ≡ returned s
      → ((l : Level) → at l s.totals ≡ sum l s.checks) × (entries s.totals ≡ results_of runs)
  unfolding collect_checks entries
  collect_checks-totals runs s h = (
    λ l. collect_from-IsBalanced l runs _ s (at-no_counts l) h,
    omega (arith, entries-collect_from repr runs _ s h),
  )
