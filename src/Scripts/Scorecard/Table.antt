-- ===== src/Scripts/Scorecard/Table.antt =====
-- The rows of the table, and what is written.
use Prim.Native.String.{◌++◌ as ◌<>◌}
use kube_delivery_platform.Prelude.{
  ℕ, String, ◌≡◌, refl, ◌⊎◌, inl, inr, true, arith, Bool-cases, ◌↔◌, ap, eq_iff,
}
use kube_delivery_platform.Python.Value.{Value, null, str, dict, list, nil, cons, Fields, field_or}
use kube_delivery_platform.Python.Exec.{Reply, returned}
use kube_delivery_platform.Python.Exec.Replies.{◌>>=◌}
use kube_delivery_platform.Python.Exec.Rules.{Reply-cases}
use kube_delivery_platform.Scripts.Scorecard.Render.{
  runs_of, is_version, require_runs, load_sarif, SarifFile, json, unreadable, failed, Context,
  render_summary, main,
}

-- The run did not end with a status.
abbrev pub Failed : Reply ℕ → Type 0
Failed (returned n) = ⊥
Failed _ = Unit

module _ (repr : Value → String) (casefold quote : String → String) where
  -- `main` either ends in status 0, with the summary that `render_summary` returned for the payload
  -- that `load_sarif` accepted appended to the output, or it ends without a status and the output
  -- stays as it was.
  pub main-appends :
      (file : SarifFile) (args : Context) (output : String)
      → (Failed (main repr casefold quote file args output).0
          × ((main repr casefold quote file args output).1 ≡ output))
        ⊎ ((payload : Fields) × (summary : String) × (load_sarif file ≡ returned payload)
            × (render_summary repr casefold quote payload args ≡ returned summary)
            × (main repr casefold quote file args output ≡ (returned 0, output <> summary)))
  unfolding main
  main-appends file args output = elim (Reply-cases (load_sarif file)) [
    | inl (payload, e) ↦ elim (Reply-cases (render_summary repr casefold quote payload args)) [
      | inl (summary, f) ↦ inr (payload, summary, e, f, rw (e, f) refl)
      | inr (inl (err, f)) ↦ inl (rw (e, f) (tt, refl))
      | inr (inr f) ↦ inl (rw (e, f) (tt, refl))
    ]
    | inr (inl (err, e)) ↦ inl (rw e (tt, refl))
    | inr (inr e) ↦ inl (rw e (tt, refl))
  ]

-- A list with an item in it.
abbrev pub HasRuns : Value → Type 0
HasRuns (list (cons run rest)) = Unit
HasRuns _ = ⊥

require_runs-HasRuns :
    (v : Value) (fields payload : Fields)
    → (require_runs v >>= λ runs. returned fields) ≡ returned payload
    → HasRuns v × (fields ≡ payload)
unfolding require_runs runs_of
require_runs-HasRuns (list (cons run rest)) fields payload h = (tt, cc)
require_runs-HasRuns (list nil) fields payload h = cc
require_runs-HasRuns _ fields payload h = cc

require_runs-returned :
    (v : Value) (payload : Fields)
    → HasRuns v
    → (require_runs v >>= λ runs. returned payload) ≡ returned payload
unfolding require_runs runs_of
require_runs-returned (list (cons run rest)) payload h = refl
require_runs-returned (list nil) payload h = absurd h
require_runs-returned _ payload h = absurd h

is_version-eq : (v : Value) → (is_version v ≡ true) ↔ (v ≡ str "2.1.0")
unfolding is_version
is_version-eq (str s) = ground (arith, eq_iff s "2.1.0")
is_version-eq _ = (λ h. cc, λ h. cc)

Accepted : SarifFile → Fields → Type 0
Accepted file payload =
    (file ≡ json (dict payload))
    × (field_or "version" null payload ≡ str "2.1.0")
    × HasRuns (field_or "runs" null payload)

load_sarif-Accepted :
    (fields payload : Fields)
    → load_sarif (json (dict fields)) ≡ returned payload
    → Accepted (json (dict fields)) payload
unfolding load_sarif Accepted
load_sarif-Accepted fields payload h =
    elim (Bool-cases (is_version (field_or "version" null fields))) [
      | inl e ↦
          let (runs, same) =
            require_runs-HasRuns (field_or "runs" null fields) fields payload (rw e at h) in
          (
            ap (λ (f : Fields). json (dict f)) same,
            rw same at ((is_version-eq (field_or "version" null fields)).0 e),
            rw same at runs,
          )
      | inr e ↦ absurd (ground arith)
    ]

Accepted-load_sarif :
    (fields payload : Fields)
    → Accepted (json (dict fields)) payload
    → load_sarif (json (dict fields)) ≡ returned payload
unfolding load_sarif Accepted
Accepted-load_sarif fields payload (e, v, r) =
    let same : fields ≡ payload = cc in
    rw same (
      rw ((is_version-eq (field_or "version" null payload)).1 v)
        (require_runs-returned (field_or "runs" null payload) payload r))

-- The file is accepted exactly if it is a JSON object whose version is 2.1.0 and whose runs are a
-- list that is not empty, and the object is returned as it is.
pub load_sarif_iff :
    (file : SarifFile) (payload : Fields)
    → (load_sarif file ≡ returned payload) ↔ (
        (file ≡ json (dict payload))
        × (field_or "version" null payload ≡ str "2.1.0")
        × HasRuns (field_or "runs" null payload))
unfolding load_sarif Accepted
load_sarif_iff (json (dict fields)) payload =
    (load_sarif-Accepted fields payload, Accepted-load_sarif fields payload)
load_sarif_iff (json _) payload = (λ h. cc, λ h. cc)
load_sarif_iff (unreadable exc) payload = (λ h. cc, λ h. cc)
load_sarif_iff (failed e) payload = (λ h. cc, λ h. cc)
