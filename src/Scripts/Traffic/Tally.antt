-- ===== src/Scripts/Traffic/Tally.antt =====
-- The numbers of the summary, whatever the order in which the requests complete.
use mathlib.Core.List.{Perm, foldr, Mem, mem-cons, mem-cons_self, mem-cons_of_mem, not-mem-nil}
use mathlib.Core.Logic.Or
use mathlib.Core.HLevel.{⊥_prop}
use mathlib.Core.List.Perm
use kube_delivery_platform.Prelude.{
  ℕ, zero, suc, ◌+◌, ◌≤◌, String, ◌≡◌, refl, ◌∙◌, sym, ap, ◌⊎◌, inl, inr, ◌≢◌, Bool, List, [], ◌∷◌,
  ◌++◌, length, arith, if◌then◌else◌, eqb, Bool-cases,
}
use kube_delivery_platform.Python.Exec.{Error, Reply, returned, raised, other_error, value_error}
use kube_delivery_platform.Scripts.Traffic.{
  Client, send_all, tally, Summary, summarize, throughput_of, average, Arguments, main,
}

-- What a request came to: an error that it raised, or its success and latency.
abbrev pub Outcome : Type 0 → Type 0
Outcome F = Error ⊎ (Bool × F)

-- The requests that succeeded.
abbrev pub successes : {F : Type 0} → List (Outcome F) → ℕ
successes [] = 0
successes (inl err ∷ rest) = successes rest
successes (inr (ok, lat) ∷ rest) = (if ok then 1 else 0) + successes rest

abbrev one_more : {F : Type 0} → Outcome F → ℕ → ℕ
one_more (inl err) n = n
one_more (inr (ok, lat)) n = (if ok then 1 else 0) + n

ℕ_is_set : IsSet ℕ
ℕ_is_set = hlevel

one_more_comm :
    {F : Type 0} (a b : Outcome F) (n : ℕ) → one_more a (one_more b n) ≡ one_more b (one_more a n)
one_more_comm (inl e) (inl e') n = refl
one_more_comm (inl e) (inr y) n = refl
one_more_comm (inr x) (inl e') n = refl
one_more_comm (inr (x, lat)) (inr (y, lat')) n = omega arith

successes-foldr :
    {F : Type 0} (results : List (Outcome F)) → successes results ≡ foldr one_more 0 results
successes-foldr [] = refl
successes-foldr (inl err ∷ rest) = successes-foldr rest
successes-foldr (inr (ok, lat) ∷ rest) = omega (arith, successes-foldr rest)

successes-perm : {F : Type 0} {xs ys : List (Outcome F)} → Perm xs ys → successes xs ≡ successes ys
successes-perm {F} {xs} {ys} p =
    successes-foldr xs
    ∙ Perm.foldr-eq ℕ_is_set one_more one_more_comm p 0
    ∙ sym (successes-foldr ys)

successes-le-length : {F : Type 0} (results : List (Outcome F)) → successes results ≤ length results
successes-le-length [] = omega arith
successes-le-length (inl err ∷ rest) = omega (arith, successes-le-length rest)
successes-le-length (inr (ok, lat) ∷ rest) = ground (arith, successes-le-length rest)

-- No request raised an error.
abbrev pub NoneRaised : {F : Type 0} → List (Outcome F) → Type 0
NoneRaised {F} results = (err : Error) → ¬ (Mem (inl err) results)

-- The summary of `args` with the results `results` of its requests.
pub record IsSummary (C : Client) (args : Arguments C) (results : List (Outcome C.Float))
    (summary : Summary C) : Type 0 where
  pub none_raised : NoneRaised results
  pub total : summary.total ≡ args.count
  pub made : length results ≡ args.count
  pub successful : summary.successful ≡ successes results
  pub bounded : summary.successful ≤ summary.total

module _ (C : Client) where
  -- What `tally` comes to, from `n` successes and the latencies so far.
  abbrev IsTally : List (Outcome C.Float) → ℕ → Reply (ℕ × List C.Float) → Type 0
  IsTally results n t =
      ((err : Error) × Mem (inl err) results × (t ≡ raised err))
      ⊎ (NoneRaised results
          × ((lats : List C.Float) × (t ≡ returned (n + successes results, lats))))

  IsTally-cons :
      (ok : Bool) (lat : C.Float) (rest : List (Outcome C.Float)) (n : ℕ)
      (t : Reply (ℕ × List C.Float))
      → IsTally rest (if ok then n + 1 else n) t
      → IsTally (inr (ok, lat) ∷ rest) n t
  IsTally-cons ok lat rest n t (inl (err, m, e)) = inl (err, mem-cons_of_mem _ m, e)
  IsTally-cons ok lat rest n t (inr (clean, (lats, e))) =
      let same : (if ok then n + 1 else n) + successes rest
          ≡ n + ((if ok then 1 else 0) + successes rest) =
        ground arith in
      inr (
        λ err m. Or.elim ⊥_prop (mem-cons.0 m) (λ no. cc) (clean err),
        (lats, e ∙ ap (λ k. returned (k, lats)) same),
      )

  tally-IsTally :
      (results : List (Outcome C.Float)) (n : ℕ) (lats : List C.Float)
      → IsTally results n (tally C results n lats)
  unfolding tally
  tally-IsTally [] n lats =
      inr (λ err m. not-mem-nil m, (lats, ap (λ k. returned (k, lats)) (omega arith)))
  tally-IsTally (inl err ∷ rest) n lats = inl (err, mem-cons_self, refl)
  tally-IsTally (inr (ok, lat) ∷ rest) n lats =
      IsTally-cons ok lat rest n _
        (tally-IsTally rest (if ok then n + 1 else n) (lats ++ (lat ∷ [])))

  length-send_all :
      (url : String) (fail_rate : C.Float) (count : ℕ) (views : ℕ → C.State)
      → length (send_all C url fail_rate count views) ≡ count
  unfolding send_all
  length-send_all url fail_rate zero views = refl
  length-send_all url fail_rate (suc count) views =
      ap suc (length-send_all url fail_rate count views)

module _ (C : Client) (as_completed : List (Outcome C.Float) → List (Outcome C.Float)) where
  summarize-IsSummary :
      (args : Arguments C) (results : List (Outcome C.Float)) (lats : List C.Float)
      (total_duration : C.Float) (n : ℕ)
      → args.count ≡ suc n
      → NoneRaised results
      → length results ≡ args.count
      → (summary : Summary C) × (summarize C args.count (successes results, lats) total_duration
          ≡ returned summary)
        × IsSummary C args results summary
  unfolding summarize
  summarize-IsSummary args results lats total_duration n e clean made =
      let few = successes-le-length results in
      let summary : Summary C = record {
        total = suc n;
        successful = successes results;
        success_rate = C.percent (successes results) (suc n);
        throughput = throughput_of C (suc n) total_duration;
        avg_latency = average C lats;
      } in
      (
        summary,
        rw e refl,
        record {
          none_raised = clean;
          total = sym e;
          made = made;
          successful = refl;
          bounded = omega (arith, few, e, made);
        },
      )

  summarize-zero :
      (count : ℕ) (t : ℕ × List C.Float) (d : C.Float)
      → count ≡ 0
      → summarize C count t d ≡ raised (other_error "ZeroDivisionError")
  unfolding summarize
  summarize-zero count t d e = rw e refl

  ℕ-cases : (n : ℕ) → (n ≡ 0) ⊎ ((m : ℕ) × (n ≡ suc m))
  ℕ-cases zero = inl refl
  ℕ-cases (suc m) = inr (m, refl)

  -- The loop over the completed futures, by what the requests came to.
  tally-completed :
      (results : List (Outcome C.Float))
      → Perm (as_completed results) results
      → let t = tally C (as_completed results) 0 [] in
        ((err : Error) × Mem (inl err) results × (t ≡ raised err))
        ⊎ (NoneRaised results × ((lats : List C.Float) × (t ≡ returned (successes results, lats))))
  tally-completed results p = elim (tally-IsTally C (as_completed results) 0 []) [
    | inl (err, m, e) ↦ inl (err, (Perm.mem_iff p).0 m, e)
    | inr (clean, (lats, e)) ↦ inr (
      λ err m. clean err ((Perm.mem_iff p).1 m),
      (lats, e ∙ ap (λ k. returned (k, lats)) (omega (arith, successes-perm p))),
    )
  ]

  -- How `main` ends once there are workers.
  abbrev pub Ended : Arguments C → List (Outcome C.Float) → Reply (Summary C) → Type 0
  Ended args results r =
      ((err : Error) × Mem (inl err) results × (r ≡ raised err))
      ⊎ (NoneRaised results × (args.count ≡ 0) × (r ≡ raised (other_error "ZeroDivisionError")))
      ⊎ ((summary : Summary C) × (r ≡ returned summary) × IsSummary C args results summary)

  -- If the results arrive in any order, none lost, `main` ends in one of four ways: without workers
  -- the executor is refused; if a request could not be made, the error of such a request is raised;
  -- without requests the success rate divides by zero; else no request raised, and the summary has the
  -- number of requests made, one result for each, and as successful the number of the results that are
  -- a success, which is at most that of the requests.
  pub main-IsSummary :
      (total_duration : C.Float) (args : Arguments C) (views : ℕ → C.State)
      → let results = send_all C args.url args.fail_rate args.count views in
        Perm (as_completed results) results
        → let r = main C as_completed total_duration args views in
          ((args.concurrency ≡ 0) × (r ≡ raised (value_error "max_workers must be greater than 0")))
          ⊎ ((args.concurrency ≢ 0) × Ended args results r)
  unfolding main
  main-IsSummary total_duration args views p =
      let results = send_all C args.url args.fail_rate args.count views in
      let made = length-send_all C args.url args.fail_rate args.count views in
      elim (Bool-cases (eqb args.concurrency 0)) [
        | inl none_at_all ↦ inl (ground arith, rw none_at_all refl)
        | inr workers ↦ inr (
          ground arith,
          elim (tally-completed results p) [
            | inl (err, m, e) ↦ inl (err, m, rw (workers, e) refl)
            | inr (clean, (lats, t)) ↦ inr (elim (ℕ-cases args.count) [
              | inl e ↦ inl (clean, e, rw (workers, t) (summarize-zero args.count _ _ e))
              | inr (n, e) ↦
                  let (summary, ended, is) =
                    summarize-IsSummary args results lats total_duration n e clean made in
                  inr (summary, rw (workers, t) ended, is)
            ])
          ],
        )
      ]
