-- ===== src/Scripts/Summary.antt =====
-- scripts/generate_summary.py: the summary of a workflow run, which does not depend on its results.
pub mod Target
use Prim.Native.String.{◌++◌ as ◌<>◌}
use kube_delivery_platform.Prelude.{
  ℕ, String, Option, none, some, List, [], ◌∷◌, ◌++◌, ◌==◌, if◌then◌else◌,
}
use kube_delivery_platform.Python.Exec.{Error, returned, raised, Exec, pure, ◌>>◌}
use kube_delivery_platform.Python.Environ.{getenv}
use kube_delivery_platform.Python.Text.{prefix, unlines}

abbrev pub topology : List String
topology =
    "" ∷ "---" ∷ "" ∷ "## 🏗\u{fe0f} Platform Topology Architecture" ∷ "" ∷ "```mermaid"
    ∷ "flowchart TD" ∷ "    subgraph Edge [\"🌐 Ingress Edge\"]"
    ∷ "        Ingress[\"Ingress NGINX Controller<br/>(Port 80/443)\"]" ∷ "    end" ∷ ""
    ∷ "    subgraph Mesh [\"📦 Kubernetes Cluster (Namespace: delivery-preview)\"]"
    ∷ "        subgraph Compute [\"Compute Services\"]"
    ∷ "            API[\"shipment-api (Go 1.27)<br/>1 Preview Replica | Non-Root (UID 10001)\"]"
    ∷ "            Worker[\"tracking-worker (Python 3.12)<br/>1 Preview Replica | Non-Root (UID 10001)\"]"
    ∷ "        end" ∷ "" ∷ "        subgraph EventBus [\"Event Mesh\"]"
    ∷ "            NATS[\"NATS JetStream 2.10<br/>Stream: DELIVERY_EVENTS\"]" ∷ "        end" ∷ ""
    ∷ "        subgraph Storage [\"Stateful Layer\"]"
    ∷ "            DB[(\"PostgreSQL 16<br/>StatefulSet + ephemeral volume\")]" ∷ "        end" ∷ ""
    ∷ "        subgraph ControlPlane [\"Delivery Control Plane\"]"
    ∷ "            Argo[\"Argo CD + Argo Rollouts<br/>Installed CRDs\"]"
    ∷ "            Kyverno[\"Kyverno Admission<br/>Restricted Policy Profile\"]" ∷ "        end"
    ∷ "    end" ∷ "" ∷ "    Ingress -->|\"HTTP /api/v1/shipments\"| API"
    ∷ "    API -->|\"1. Publish ShipmentCreated\"| NATS"
    ∷ "    API -->|\"Persist Order (PLACED)\"| DB"
    ∷ "    NATS -->|\"2. JetStream Consumer Group\"| Worker"
    ∷ "    Worker -->|\"3. Async Status Progression\"| DB"
    ∷ "    Argo -.->|\"Server-side Application validation\"| Compute"
    ∷ "    Kyverno -->|\"Admission policy\"| Compute" ∷ "```" ∷ "" ∷ "---" ∷ "" ∷ []

abbrev pub scorecard : List String
scorecard =
    "## 🛡\u{fe0f} Enterprise Security & Quality Scorecard" ∷ ""
    ∷ "| Quality Gate | Standard / Specification | Evaluated Status | SLA Result |"
    ∷ "| :--- | :--- | :--- | :--- |"
    ∷ "| **Application Container Hardening** | Alpine/Debian slim, UID `10001`, read-only rootfs, drop ALL capabilities | Runtime proof | 🟢 **PASS** |"
    ∷ "| **Kyverno Admission Governance** | Deliberately insecure pod rejected server-side | Runtime proof | 🟢 **PASS** |"
    ∷ "| **Zero-Trust NetworkPolicy** | Default-deny all Ingress/Egress with explicit allowances | Enforced | 🟢 **PASS** |"
    ∷ "| **Argo CD Resource Contract** | Application manifests validated against installed CRDs | Server-side validation | 🟢 **PASS** |"
    ∷ "| **Resilience & Self-Healing** | Pod termination recovery & automatic restart | Enforced | 🟢 **PASS** |"
    ∷ "| **Live Workload Path** | Shipment create/read lifecycle through a port-forwarded Service | Runtime proof | 🟢 **PASS** |"
    ∷ "" ∷ "---" ∷ "" ∷ "## 📦 Supply Chain & Provenance"
    ∷ "* **Docker Multi-Architecture Builds:** `linux/amd64`, `linux/arm64` via Buildx"
    ∷ "* **Vulnerability Scanning:** Blocking Trivy `CRITICAL,HIGH` gate in the image publication workflow"
    ∷ "* **SBOM Metadata:** CycloneDX JSON generated, uploaded, and attested in the image publication workflow"
    ∷ "* **Progressive Delivery Contract:** NGINX weighted canary routing, Prometheus `ServiceMonitor`s, and analysis gates are render-tested in the PR workflow."
    ∷ "* **GitOps Contract:** Argo CD controllers installed and Application resources validated server-side against their CRDs."
    ∷ []

-- The line that names the commit, the branch and the environment.
unfoldable pub origin : (String → Option String) → String
origin environ =
    let commit_sha = prefix 8 (getenv environ "GITHUB_SHA" "local-dev") in
    let branch = getenv environ "GITHUB_REF_NAME" "main" in
    let env = getenv environ "ENVIRONMENT" "ephemeral-kind" in
    "> **Commit:** `"
    <> (commit_sha
        <> ("` | **Branch:** `" <> (branch <> ("` | **Target Environment:** `" <> (env <> "`")))))

unfoldable pub generate_summary : (String → Option String) → String
generate_summary environ = unlines (
    "# 🚀 Kube Delivery Platform — CI/CD & Cluster Evidence Summary"
    ∷ ""
    ∷ origin environ
    ∷ (topology ++ scorecard))

-- The files' texts by their paths, where a missing file has the empty text, and what was printed.
pub record Outputs : Type 0 where
  pub text : String → String
  pub printed : List String

abbrev print : String → Exec Outputs Unit
print line files = (returned tt, record files { printed = files.printed ++ (line ∷ []) })

-- `with open(path, "a") as f: f.write(added)`, where `refused` says which paths cannot be opened.
unfoldable pub append_to : (String → Option Error) → String → String → Exec Outputs Unit
append_to refused path added files = elim (refused path) [
  | some err ↦ (raised err, files)
  | none ↦ (
    returned tt,
    record files {
      text = λ other. if other == path then files.text path <> added else files.text other;
    },
  )
]

unfoldable pub write_summary : (String → Option Error) → String → String → Exec Outputs ℕ
write_summary refused path summary_md = do
  append_to refused path summary_md
  print "✅ Appended summary to $GITHUB_STEP_SUMMARY"
  pure 0

unfoldable pub print_summary : String → Exec Outputs ℕ
print_summary summary_md = do print summary_md; pure 0

-- A path that is not set, or empty, is false.
unfoldable pub main : (String → Option String) → (String → Option Error) → Exec Outputs ℕ
main environ refused =
    let summary_md = generate_summary environ in
    elim (environ "GITHUB_STEP_SUMMARY") [
      | none ↦ print_summary summary_md
      | some path ↦
          if path == "" then print_summary summary_md else write_summary refused path summary_md
    ]
