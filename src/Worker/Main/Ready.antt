-- ===== src/Worker/Main/Ready.antt =====
-- What the readiness probe answers while the process starts.
use kube_delivery_platform.Prelude.{
  ℕ, ◌≡◌, ◌<◌, ◌↔◌, refl, Bool, true, false, some, arith, ◌∙◌, ap, sym, subst,
}
use kube_delivery_platform.Python.Exec.{returned}
use kube_delivery_platform.Worker.Config.{load_config}
use kube_delivery_platform.Worker.Services.{Services, Config}
use kube_delivery_platform.Worker.Repository.{is_connected, is_some}
use kube_delivery_platform.Worker.Startup.Retry.{AnswersAfter}
use kube_delivery_platform.Worker.Health.{
  dependencies_ready, do_get, IsNatsLive, AreLive, IsLive, do_get-ready, do_get-status,
}
use kube_delivery_platform.Worker.Main.{
  Host, Process, global_repo, global_consumer, new_repo, start_servers, start_health_server,
  open_repository, startup,
}
use kube_delivery_platform.Worker.Main.Begin.{IsUndisturbed, IsStarted, startup-IsStarted}

module _ (S : Services) where
  -- What `dependencies_ready()` says of a process.
  abbrev pub is_ready : Process S.State → Bool
  is_ready p = dependencies_ready S p.world.env (global_repo p) (global_consumer p)

  unpublished : (p : Process S.State) → p.has_repo ≡ false → is_ready p ≡ false
  unfolding dependencies_ready
  unpublished p h = ground (arith, h)

  module _ (host : Host S) where
    start_servers-has_repo :
        (cfg : Config S) (p : Process S.State)
        → (start_servers S host cfg p).1.has_repo ≡ p.has_repo
    unfolding start_servers start_health_server
    start_servers-has_repo cfg p = ground arith

    open_repository-has_repo :
        (cfg : Config S) (k : ℕ) (p : Process S.State)
        → (open_repository S host cfg k p).1.has_repo ≡ p.has_repo
    unfolding open_repository new_repo
    open_repository-has_repo cfg k p = refl

  -- Once the process has started, the probe depends on NATS alone.
  IsStarted-ready :
      (p : Process S.State)
      → IsStarted p
      → ((do_get (is_ready p) "/ready").status ≡ 200)
        ↔ (IsNatsLive S p.world.env p.world.consumer.nc × (is_some p.world.consumer.psub ≡ true))
  unfolding is_connected
  IsStarted-ready p h =
      let live = do_get-ready S p.world.env (global_repo p) (global_consumer p) in
      let both : AreLive S p.world.env (global_repo p) (global_consumer p)
          ≡ IsLive S p.world.env p.world.repo p.world.consumer =
        ap (λ r. AreLive S p.world.env r (global_consumer p)) h.repo
        ∙ ap (AreLive S p.world.env (some p.world.repo)) h.consumer in
      (
        λ e. let l = subst (λ (X : Type 0). X) both (live.0 e) in (l.nats, l.subscribed),
        λ (nats, subscribed). live.1 (
            subst (λ (X : Type 0). X) (sym both)
              (record {
                pool = ground (arith, h.connected);
                healthy = ground (arith, h.connected);
                nats = nats;
                subscribed = subscribed;
              })),
      )

  module _ (host : Host S) (up : IsUndisturbed S host) where
    -- The settings can be read, the database answers after `n` failed attempts, nothing disturbs the
    -- start, and no repository is published at first. Then `/ready` answers 503 after any number of
    -- attempts to connect to the database; and once the process waits for a signal, which any fuel
    -- above `n` is enough for, it answers 200 exactly if the consumer has a live connection to NATS
    -- and a subscription.
    pub startup-ready :
        (cfg : Config S) (n fuel attempts : ℕ) (p : Process S.State)
        → load_config host.int host.float host.environ ≡ returned cfg
        → n < fuel
        → AnswersAfter S cfg.database_url cfg.retry_backoff_sec n
            (start_servers S host cfg p).1.world.env
        → p.has_repo ≡ false
        → let waiting = (open_repository S host cfg attempts (start_servers S host cfg p).1).1 in
          let started = (startup S host fuel p).1 in
          ((do_get (is_ready waiting) "/ready").status ≡ 503)
          × (((do_get (is_ready started) "/ready").status ≡ 200) ↔ (
              IsNatsLive S started.world.env started.world.consumer.nc
              × (is_some started.world.consumer.psub ≡ true)))
    startup-ready cfg n fuel attempts p parsed h a unset =
        let (returns, started) = startup-IsStarted S host up cfg n fuel p parsed h a in
        let servers = (start_servers S host cfg p).1 in
        let waiting = (open_repository S host cfg attempts servers).1 in
        let none_yet =
          open_repository-has_repo host cfg attempts servers
          ∙ start_servers-has_repo host cfg p
          ∙ unset in
        (
          (do_get-status (is_ready waiting) "/ready").1.1 (refl, unpublished waiting none_yet),
          IsStarted-ready _ started,
        )
