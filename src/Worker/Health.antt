-- ===== src/Worker/Health.antt =====
-- services/tracking-worker/src/main.py: readiness, and the HTTP probes.
use kube_delivery_platform.Prelude.{
  ℕ, String, ◌≡◌, ◌≢◌, ◌↔◌, ◌⊎◌, Bool, true, false, ◌&&◌, Option, none, some, arith, ◌==◌, eq_iff,
  if◌then◌else◌,
}
use kube_delivery_platform.Worker.Services.{Services, Repository, Consumer}
use kube_delivery_platform.Worker.Repository
use kube_delivery_platform.Worker.Repository.{is_some}

-- What `DeliveryEventConsumer.is_connected` says: a live connection and a subscription.
unfoldable pub consumer_is_connected : (S : Services) → S.State → Consumer → Bool
consumer_is_connected S s c = elim c.nc [
  | none ↦ false
  | some nc ↦ S.nats_is_connected nc s && is_some c.psub
]

-- `_global_repo` and `_global_consumer`, `none` until `main` sets them.
unfoldable pub dependencies_ready :
    (S : Services) → S.State → Option Repository → Option Consumer → Bool
unfolding consumer_is_connected Repository.is_connected
dependencies_ready S s none consumer = false
dependencies_ready S s (some repo) none = false
dependencies_ready S s (some repo) (some consumer) =
    Repository.is_connected repo && consumer_is_connected S s consumer

-- The status, the content type if one is sent, and the body.
pub record Response : Type 0 where
  pub status : ℕ
  pub content_type : Option String
  pub body : String

abbrev json : ℕ → String → Response
json status body = record { status = status; content_type = some "application/json"; body = body }

unfoldable pub do_get : Bool → String → Response
do_get is_ready path =
    if path == "/healthz"
    then json 200 "{\"status\":\"UP\",\"service\":\"tracking-worker\"}\n"
    else if path == "/ready"
    then (if is_ready
        then json 200 "{\"status\":\"READY\",\"service\":\"tracking-worker\"}\n"
        else json 503 "{\"status\":\"NOT_READY\",\"service\":\"tracking-worker\"}\n")
    else record { status = 404; content_type = none; body = "" }

abbrev pub IsNatsLive : (S : Services) → S.State → Option ℕ → Type 0
IsNatsLive S s none = ⊥
IsNatsLive S s (some nc) = S.nats_is_connected nc s ≡ true

-- What it takes for both dependencies to be live, in the fields of the two objects.
pub record IsLive (S : Services) (s : S.State) (repo : Repository) (c : Consumer) : Type 0 where
  pub pool : is_some repo.pool ≡ true
  pub healthy : repo.healthy ≡ true
  pub nats : IsNatsLive S s c.nc
  pub subscribed : is_some c.psub ≡ true

module _ (S : Services) (s : S.State) where
  dependencies_ready_iff :
      (repo : Repository) (c : Consumer)
      → (dependencies_ready S s (some repo) (some c) ≡ true) ↔ IsLive S s repo c
  unfolding dependencies_ready
  dependencies_ready_iff repo c = (λ h. ground arith, λ l. ground arith)

  -- Both objects are set and live.
  abbrev pub AreLive : Option Repository → Option Consumer → Type 0
  AreLive (some repo) (some c) = IsLive S s repo c
  AreLive _ _ = ⊥

  dependencies_ready-AreLive :
      (repo : Option Repository) (c : Option Consumer)
      → (dependencies_ready S s repo c ≡ true) ↔ AreLive repo c
  unfolding dependencies_ready
  dependencies_ready-AreLive none c = (λ h. ground arith, λ l. absurd l)
  dependencies_ready-AreLive (some repo) none = (λ h. ground arith, λ l. absurd l)
  dependencies_ready-AreLive (some repo) (some c) = dependencies_ready_iff repo c

  status-ready : (b : Bool) → ((do_get b "/ready").status ≡ 200) ↔ (b ≡ true)
  unfolding do_get
  status-ready b = ground arith

  -- `/ready` answers 200 exactly if the repository and the consumer are both set, the repository
  -- has a pool and was healthy at its last probe, and the consumer has a live connection and a
  -- subscription.
  pub do_get-ready :
      (repo : Option Repository) (c : Option Consumer)
      → ((do_get (dependencies_ready S s repo c) "/ready").status ≡ 200) ↔ AreLive repo c
  do_get-ready repo c =
      let live = dependencies_ready-AreLive repo c in
      (λ h. live.0 ((status-ready _).0 h), λ l. (status-ready _).1 (live.1 l))

paths_ne : (path : String) → path ≡ "/healthz" → path ≢ "/ready"
paths_ne path e = λ f. ground (arith, eq_iff "/healthz" "/ready")

-- A request is answered with 200 exactly if it asks for `/healthz`, or for `/ready` while the
-- dependencies are ready; with 503 exactly if it asks for `/ready` while they are not; and with 404
-- for every other path.
pub do_get-status :
    (is_ready : Bool) (path : String)
    → (((do_get is_ready path).status ≡ 200)
        ↔ ((path ≡ "/healthz") ⊎ ((path ≡ "/ready") × (is_ready ≡ true))))
      × (((do_get is_ready path).status ≡ 503) ↔ ((path ≡ "/ready") × (is_ready ≡ false)))
      × (((do_get is_ready path).status ≡ 404) ↔ ((path ≢ "/healthz") × (path ≢ "/ready")))
unfolding do_get
do_get-status is_ready path =
    let healthz = eq_iff path "/healthz" in
    let ready = eq_iff path "/ready" in
    (
      ground (arith, healthz, ready),
      ground (arith, healthz, ready, paths_ne path),
      ground (arith, healthz, ready),
    )
