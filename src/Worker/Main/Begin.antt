-- ===== src/Worker/Main/Begin.antt =====
-- What `main` has set up when it waits for a signal.
use kube_delivery_platform.Prelude.{
  ℕ, ◌<◌, String, ◌≡◌, ◌≢◌, refl, inl, inr, true, false, none, some, arith,
}
use kube_delivery_platform.Python.Exec.{returned, cancelled}
use kube_delivery_platform.Python.Exec.Rules.{Reply-cases}
use kube_delivery_platform.Worker.Config.{load_config}
use kube_delivery_platform.Worker.Services.{Services, Config, Subscription}
use kube_delivery_platform.Worker.World.{World}
use kube_delivery_platform.Worker.Repository.{is_connected}
use kube_delivery_platform.Worker.Startup.Retry.{AnswersAfter, connect_database_with_retry-connects}
use kube_delivery_platform.Worker.Loop as Loop
use kube_delivery_platform.Worker.Loop.{set_consumer}
use kube_delivery_platform.Worker.Main.{
  alone, Host, Process, created, global_repo, global_consumer, new_repo, new_consumer,
  start_health_server, start_servers, open_repository, open_consumer, after_repository, startup,
}

-- The start of the process is not cancelled, its port for the probes is free, and threads and
-- signal handlers can be set up. The metrics server and NATS may fail.
pub record IsUndisturbed (S : Services) (host : Host S) : Type 0 where
  pub metrics : (port : S.Int) (s : S.State) → (host.start_http_server port s).0 ≢ cancelled
  pub serves :
      (port : S.Int) (s : S.State) → (server : ℕ) × ((host.http_server port s).0 ≡ returned server)
  pub threads : (server : ℕ) (s : S.State) → (host.start_thread server s).0 ≡ returned tt
  pub signals : (s : S.State) → (host.add_signal_handlers s).0 ≡ returned tt
  pub nats : (url : String) (s : S.State) → (S.connect_nats url s).0 ≢ cancelled
  pub subscribes :
      (js : ℕ) (args : Subscription S.Int) (s : S.State)
      → (S.pull_subscribe js args s).0 ≢ cancelled

-- Both objects are published, the repository is connected, and the two tasks are created.
pub record IsStarted {State : Type 0} (p : Process State) : Type 0 where
  pub repo : global_repo p ≡ some p.world.repo
  pub consumer : global_consumer p ≡ some p.world.consumer
  pub connected : is_connected p.world.repo ≡ true
  pub consumer_task : p.consumer_task ≡ created
  pub database_monitor_task : p.database_monitor_task ≡ created

module _ (S : Services) (host : Host S) (up : IsUndisturbed S host) where
  start_servers-returns :
      (cfg : Config S) (p : Process S.State)
      → (server : ℕ) × ((start_servers S host cfg p).0 ≡ returned server)
  unfolding start_servers start_health_server
  start_servers-returns cfg p =
      let s = (host.start_http_server cfg.metrics_port p.world.env).1 in
      let (server, bound) = up.serves cfg.health_port s in
      (
        server,
        ground (
          arith,
          bound,
          up.metrics cfg.metrics_port p.world.env,
          up.threads server (host.http_server cfg.health_port s).1,
        ),
      )

  connect-kept :
      (cfg : Config S) (w : World S.State)
      → ((Loop.connect (alone S) cfg w).0 ≢ cancelled)
        × ((Loop.connect (alone S) cfg w).1.repo ≡ w.repo)
  unfolding Loop.connect set_consumer
  connect-kept cfg w =
      let s = (S.connect_nats cfg.nats_url w.env).1 in
      elim (Reply-cases (S.connect_nats cfg.nats_url w.env).0) [
        | inl (nc, e) ↦
            let args : Subscription S.Int = record {
              subject = cfg.nats_subject;
              durable = cfg.nats_consumer_group;
              stream = cfg.nats_stream;
              max_deliver = cfg.max_retries;
            } in
            ground (arith, e, up.subscribes nc args s)
        | inr (inl (err, e)) ↦ ground (arith, e)
        | inr (inr e) ↦ absurd (up.nats cfg.nats_url w.env e)
      ]

  open_consumer-IsStarted :
      (cfg : Config S) (p : Process S.State)
      → is_connected p.world.repo ≡ true
      → ((open_consumer S host cfg p).0 ≡ returned tt) × IsStarted (open_consumer S host cfg p).1
  unfolding open_consumer new_consumer
  open_consumer-IsStarted cfg p h =
      let q = record p {
        world = record p.world {
          consumer = record { nc = none; js = none; psub = none; running = false };
        };
        has_repo = true;
        has_consumer = true;
      } in
      let (calm, kept) = connect-kept cfg q.world in
      ground (arith, calm, kept, up.signals (Loop.connect (alone S) cfg q.world).1.env)

  open_repository-connects :
      (cfg : Config S) (n fuel : ℕ) (p : Process S.State)
      → n < fuel
      → AnswersAfter S cfg.database_url cfg.retry_backoff_sec n p.world.env
      → let r = open_repository S host cfg fuel p in
        (r.0 ≡ returned (some tt)) × (is_connected r.1.world.repo ≡ true)
  unfolding open_repository new_repo
  open_repository-connects cfg n fuel p h a =
      connect_database_with_retry-connects (alone S) cfg.database_url cfg.retry_backoff_sec
        (λ s repo. refl) n fuel (record p.world { repo = record { pool = none; healthy = false } })
        refl h a

  after_servers :
      (cfg : Config S) (server fuel n : ℕ) (p : Process S.State)
      → n < fuel
      → AnswersAfter S cfg.database_url cfg.retry_backoff_sec n p.world.env
      → let opened = open_repository S host cfg fuel p in
        let r = open_consumer S host cfg opened.1 in
        (opened.0 ≡ returned (some tt)) × (r.0 ≡ returned tt) × IsStarted r.1
  after_servers cfg server fuel n p h a =
      let (ok, connected) = open_repository-connects cfg n fuel p h a in
      let (done, started) =
        open_consumer-IsStarted cfg (open_repository S host cfg fuel p).1 connected in
      (ok, done, started)

  -- If the settings can be read and the database answers after `n` failed attempts, then with any
  -- fuel above `n` the process comes to wait for a signal: both objects are published, the
  -- repository is connected and the two tasks are created, whether or not Prometheus' server and
  -- NATS are up.
  pub startup-IsStarted :
      (cfg : Config S) (n fuel : ℕ) (p : Process S.State)
      → load_config host.int host.float host.environ ≡ returned cfg
      → n < fuel
      → AnswersAfter S cfg.database_url cfg.retry_backoff_sec n
          (start_servers S host cfg p).1.world.env
      → let r = startup S host fuel p in
        ((server : ℕ) × (r.0 ≡ returned (some server))) × IsStarted r.1
  unfolding startup after_repository
  startup-IsStarted cfg n fuel p parsed h a =
      let (server, bound) = start_servers-returns cfg p in
      let (ok, done, started) =
        after_servers cfg server fuel n (start_servers S host cfg p).1 h a in
      rw (parsed, bound, ok, done) ((server, refl), started)
